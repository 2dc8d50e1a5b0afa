-- ===== src/Examples/Verdicts.antt =====
-- Verdicts and severities of concrete lists.
use repo_health_doctor.Base.{String, ◌≡◌, ◌⊎◌, ◌≤◌, refl, List, [], ◌∷◌, Memᴰ}
use repo_health_doctor.Json.{end}
use repo_health_doctor.Gate.Verdict.{
  strongest_verdict, precedence, strongest_verdict-precedence, strongest_verdict-block,
}
use repo_health_doctor.Gate.Limitations.{
  low, severity_order, limitation_severity, highest_limitation_severity,
  mem-le-highest_limitation_severity,
}
use repo_health_doctor.Examples.Artifacts.{runtime}

abbrev candidates : List String
candidates = "warn" ∷ "block" ∷ "unknown" ∷ []

strongest_verdict-precedence_example : strongest_verdict candidates ≡ precedence candidates
strongest_verdict-precedence_example = strongest_verdict-precedence candidates (
  Memᴰ.tail (Memᴰ.tail (Memᴰ.tail (Memᴰ.head refl))),
  (Memᴰ.head refl, (Memᴰ.tail (Memᴰ.tail (Memᴰ.head refl)), tt)),
)

strongest_verdict-block_example : strongest_verdict candidates ≡ "block"
strongest_verdict-block_example = strongest_verdict-block candidates (Memᴰ.tail (Memᴰ.head refl))

abbrev limitations : List String
limitations = "sandbox is not an isolation proof" ∷ "raw host path leak" ∷ []

mem-le-highest_limitation_severity_example :
    ((l : String)
      → Memᴰ l limitations
      → severity_order (limitation_severity runtime l end)
        ≤ severity_order (highest_limitation_severity runtime limitations end))
    × ((highest_limitation_severity runtime limitations end ≡ low)
        ⊎ ((l : String) × Memᴰ l limitations
            × (highest_limitation_severity runtime limitations end
                ≡ limitation_severity runtime l end)))
mem-le-highest_limitation_severity_example =
    mem-le-highest_limitation_severity runtime limitations end
