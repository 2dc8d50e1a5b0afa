-- ===== src/Gate/Limitations.antt =====
-- gate/limitation_policy.py: how severe a limitation is, by the policy's patterns or by its words.
use repo_health_doctor.Base.{
  ℕ, ◌≤◌, String, ◌≡◌, ◌⊎◌, inl, inr, refl, Bool, true, false, ◌||◌, none, some, List, [], ◌∷◌,
  Memᴰ, arith, any, has_text, if◌then◌else◌, ltb, Bool-cases,
}
use repo_health_doctor.Json.{Value, list, Fields, items, get, as_dict}
use repo_health_doctor.Json.Runtime.{Runtime, text_of}

-- The keys of SEVERITY_ORDER.
pub data Severity : Type 0 where
  low medium high critical : Severity

abbrev pub severity_name : Severity → String
severity_name low = "low"
severity_name medium = "medium"
severity_name high = "high"
severity_name critical = "critical"

abbrev pub severity_order : Severity → ℕ
severity_order low = 0
severity_order medium = 1
severity_order high = 2
severity_order critical = 3

-- The words that decide where no pattern of the policy does.
pub default_severity : String → Severity
default_severity text =
    if has_text "critical" text || has_text "mismatch" text || has_text "raw output retained" text
    then critical
    else if has_text "runtime observer" text
        || has_text "degraded" text
        || has_text "unavailable" text
    then high
    else if has_text "missing" text || has_text "unverified" text || has_text "parse failed" text
    then medium
    else low

module _ (rt : Runtime) where
  -- one of the patterns that the policy lists under a severity stands in the text
  stands_in : String → Value → Bool
  stands_in text (list patterns) =
      any (λ pattern. has_text (rt.lower (text_of rt pattern)) text) (items patterns)
  stands_in text _ = false

  pub listed : Fields → String → Severity → Bool
  unfolding stands_in
  listed severity_map text severity = stands_in text (get (severity_name severity) severity_map)

  first_listed : Fields → String → List Severity → Severity
  unfolding listed
  first_listed severity_map text [] = default_severity text
  first_listed severity_map text (s ∷ ss) =
      if listed severity_map text s then s else first_listed severity_map text ss

  -- the patterns of the policy, the critical ones first, then the words of the text
  unfoldable pub limitation_severity : String → Fields → Severity
  unfolding first_listed default_severity
  limitation_severity limitation policy = elim (as_dict (get "limitation_severity" policy)) [
    | none ↦ default_severity (rt.lower limitation)
    | some severity_map ↦
        first_listed severity_map (rt.lower limitation) (critical ∷ high ∷ medium ∷ low ∷ [])
  ]

  abbrev higher : Severity → Severity → Severity
  higher a b = if ltb (severity_order a) (severity_order b) then b else a

  highest_from : Severity → List String → Fields → Severity
  highest_from highest [] policy = highest
  highest_from highest (l ∷ ls) policy =
      highest_from (higher highest (limitation_severity l policy)) ls policy

  unfoldable pub highest_limitation_severity : List String → Fields → Severity
  unfolding highest_from
  highest_limitation_severity limitations policy = highest_from low limitations policy

  le-higher_left : (a b : Severity) → severity_order a ≤ severity_order (higher a b)
  le-higher_left a b = ground arith

  le-higher_right : (a b : Severity) → severity_order b ≤ severity_order (higher a b)
  le-higher_right a b = ground arith

  le-highest_from :
      (s : Severity) (ls : List String) (policy : Fields)
      → severity_order s ≤ severity_order (highest_from s ls policy)
  unfolding highest_from
  le-highest_from s [] policy = omega arith
  le-highest_from s (l ∷ ls) policy = omega (
    arith,
    le-higher_left s (limitation_severity l policy),
    le-highest_from (higher s (limitation_severity l policy)) ls policy,
  )

  mem-le-highest_from :
      {l : String} (s : Severity) (ls : List String) (policy : Fields)
      → Memᴰ l ls
      → severity_order (limitation_severity l policy) ≤ severity_order (highest_from s ls policy)
  unfolding highest_from
  mem-le-highest_from s [] policy m = elim m [ ]
  mem-le-highest_from s (k ∷ ls) policy (Memᴰ.head e) = rw e (
      omega (
        arith,
        le-higher_right s (limitation_severity k policy),
        le-highest_from (higher s (limitation_severity k policy)) ls policy,
      ))
  mem-le-highest_from s (k ∷ ls) policy (Memᴰ.tail m) =
      mem-le-highest_from (higher s (limitation_severity k policy)) ls policy m

  abbrev IsReached : Severity → Severity → List String → Fields → Type 0
  IsReached h s ls policy =
      (h ≡ s) ⊎ ((l : String) × Memᴰ l ls × (h ≡ limitation_severity l policy))

  highest_from-IsReached :
      (s : Severity) (ls : List String) (policy : Fields)
      → IsReached (highest_from s ls policy) s ls policy
  unfolding highest_from
  highest_from-IsReached s [] policy = inl refl
  highest_from-IsReached s (l ∷ ls) policy =
      let now = limitation_severity l policy in
      pick (Bool-cases (ltb (severity_order s) (severity_order now)))
        (highest_from-IsReached (higher s now) ls policy)
    where
      pick :
          {h : Severity}
          → (ltb (severity_order s) (severity_order (limitation_severity l policy)) ≡ true)
            ⊎ (ltb (severity_order s) (severity_order (limitation_severity l policy)) ≡ false)
          → IsReached h (higher s (limitation_severity l policy)) ls policy
          → IsReached h s (l ∷ ls) policy
      pick (inl less) (inl e) = inr (l, Memᴰ.head refl, rw less at e)
      pick (inr more) (inl e) = inl (rw more at e)
      pick c (inr (k, m, e)) = inr (k, Memᴰ.tail m, e)

  -- The highest severity of some limitations is at least that of each of them, and it is "low" or
  -- the severity of one of them.
  pub mem-le-highest_limitation_severity :
      (ls : List String) (policy : Fields)
      → ((l : String)
          → Memᴰ l ls
          → severity_order (limitation_severity l policy)
            ≤ severity_order (highest_limitation_severity ls policy))
        × ((highest_limitation_severity ls policy ≡ low)
            ⊎ ((l : String) × Memᴰ l ls
                × (highest_limitation_severity ls policy ≡ limitation_severity l policy)))
  unfolding highest_limitation_severity
  mem-le-highest_limitation_severity ls policy =
      (λ l m. mem-le-highest_from low ls policy m, highest_from-IsReached low ls policy)
