-- ===== src/Examples/Evaluations.antt =====
-- The evaluator, run on samples.
use repo_health_doctor.Base.{◌≡◌, ◌≢◌, refl, true, [], ◌∷◌, Memᴰ}
use repo_health_doctor.Base.Select.{max_by}
use repo_health_doctor.Base.Py.{ok, Returns}
use repo_health_doctor.Json.{nil, bool, dict, Fields, end, field}
use repo_health_doctor.Json.Fingerprint.{fingerprint}
use repo_health_doctor.Json.RawPath.{contains_raw_host_path}
use repo_health_doctor.Evidence.Validation.{validate_evidence}
use repo_health_doctor.Evidence.Validation.Sound.{IsValid}
use repo_health_doctor.Gate.Limitations.{limitation_severity, highest_limitation_severity}
use repo_health_doctor.Gate.Verdict.{strongest_verdict, verdict_order}
use repo_health_doctor.Gate.Evaluator.{Evaluation, evaluate_verdict}
use repo_health_doctor.Gate.Evaluator.Markers.{
  tokens, normalize_token, blocking_marker, quarantine_signal, warn_signal,
}
use repo_health_doctor.Gate.Evaluator.Signals.{Blocking, attempts}
use repo_health_doctor.Gate.Evaluator.Blocks.{
  evaluate_verdict-block, evaluate_verdict-allow_limited,
}
use repo_health_doctor.Gate.Evaluator.Total.{IsReadable, evaluate_verdict-Returns}
use repo_health_doctor.Examples.Artifacts.{runtime, finding, evidence_with}

abbrev pub calm : Fields
calm = evidence_with finding "commit_bound" "evidence_only"

-- an item that claims to authorize its own execution
abbrev presumptuous : Fields
presumptuous = field "execution_authorized" (bool true) end

calm_evaluated :
    (o : Evaluation) × (evaluate_verdict runtime end (calm ∷ []) [] ≡ ok o)
    × (o.verdict ≡ "allow_limited")
unfolding evaluate_verdict validate_evidence contains_raw_host_path fingerprint limitation_severity
    highest_limitation_severity strongest_verdict max_by verdict_order tokens normalize_token
    blocking_marker quarantine_signal warn_signal
calm_evaluated = (_, refl, refl)

evaluate_verdict-allow_limited_example :
    ((calm ∷ []) ≢ [])
    × ((item : Fields)
        → Memᴰ item (calm ∷ [])
        → IsValid (dict item) × ¬ (Blocking runtime end item))
evaluate_verdict-allow_limited_example =
    evaluate_verdict-allow_limited runtime end (calm ∷ []) [] calm_evaluated.0 calm_evaluated.1
      calm_evaluated.2

presumptuous_evaluated :
    (o : Evaluation) × (evaluate_verdict runtime end (calm ∷ presumptuous ∷ []) [] ≡ ok o)
unfolding evaluate_verdict validate_evidence contains_raw_host_path fingerprint limitation_severity
    highest_limitation_severity strongest_verdict max_by verdict_order tokens normalize_token
    blocking_marker quarantine_signal warn_signal
presumptuous_evaluated = (_, refl)

evaluate_verdict-block_example : presumptuous_evaluated.0.verdict ≡ "block"
evaluate_verdict-block_example =
    evaluate_verdict-block runtime end (calm ∷ presumptuous ∷ []) [] presumptuous_evaluated.0
      presumptuous presumptuous_evaluated.1 (Memᴰ.tail (Memᴰ.head refl)) (attempts refl)

empty_policy-IsReadable : IsReadable end
empty_policy-IsReadable = record {
  missing = (nil, refl);
  mandatory = (nil, refl);
  accepted = (nil, refl);
}

calm-IsValid : (item : Fields) → Memᴰ item (calm ∷ []) → IsValid (dict item)
unfolding validate_evidence contains_raw_host_path fingerprint
calm-IsValid item (Memᴰ.head e) = rw e (_, refl, refl)
calm-IsValid item (Memᴰ.tail m) = elim m [ ]

evaluate_verdict-Returns_example : Returns (evaluate_verdict runtime end (calm ∷ []) ("warn" ∷ []))
evaluate_verdict-Returns_example =
    evaluate_verdict-Returns runtime end (calm ∷ []) ("warn" ∷ []) empty_policy-IsReadable
      calm-IsValid
