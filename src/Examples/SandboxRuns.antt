-- ===== src/Examples/SandboxRuns.antt =====
-- Reports of sandbox runs, normalized and judged, and the theorems applied to them.
use repo_health_doctor.Base.{
  ℕ, String, ◌≡◌, refl, true, false, none, some, List, [], ◌∷◌, ◌++◌, Memᴰ,
}
use repo_health_doctor.Base.Select.{max_by}
use repo_health_doctor.Base.Py.{Py, ok, raise, type_error}
use repo_health_doctor.Json.{mapping, Value, bool, str, list, nil, dict, Fields, end}
use repo_health_doctor.Json.Fingerprint.{fingerprint}
use repo_health_doctor.Json.RawPath.{contains_raw_host_path}
use repo_health_doctor.Sandbox.Labels.{observer_label, is_observer_char, begins, is_alphanumeric}
use repo_health_doctor.Evidence.Validation.{validate_evidence}
use repo_health_doctor.Evidence.SandboxRun.Texts.{safe_label, safe_timestamp, safe_image}
use repo_health_doctor.Evidence.SandboxRun.{found, decision_signals}
use repo_health_doctor.Evidence.SandboxRun.Normalized.{
  pairs, normalized, normalize_sandbox_run_evidence,
}
use repo_health_doctor.Gate.Limitations.{limitation_severity, highest_limitation_severity}
use repo_health_doctor.Gate.Verdict.{strongest_verdict, verdict_order}
use repo_health_doctor.Gate.Evaluator.{Evaluation, evaluate_verdict}
use repo_health_doctor.Gate.Evaluator.Markers.{
  tokens, normalize_token, blocking_marker, quarantine_signal, warn_signal,
}
use repo_health_doctor.Gate.Evaluator.Sandbox.{signals_of, add_signal, sandbox_gate_signals}
use repo_health_doctor.Gate.Evaluator.Mismatch.{IsMismatched}
use repo_health_doctor.Gate.Evaluator.SandboxRuns.{
  Refused, mismatched, blocked_by_gate, evaluate_verdict-Refused,
}
use repo_health_doctor.Examples.Artifacts.{runtime}
use repo_health_doctor.Examples.Evaluations.{calm}

texts_read :
    (safe_label (str "/home/me") ≡ none)
    × (safe_label (str "<repo>") ≡ some "<repo>")
    × (safe_label (str "run-1") ≡ some "run-1")
    × (safe_label (str "C:\\x") ≡ none)
    × (safe_timestamp (str "2026-01-01T00:00:00Z") ≡ some "2026-01-01T00:00:00Z")
    × (safe_image (str "python:3.12") ≡ some "python:3.12")
unfolding safe_label safe_timestamp safe_image observer_label is_observer_char begins
    is_alphanumeric
texts_read = (refl, refl, refl, refl, refl, refl)

-- a report of a run in Docker, with more fields
abbrev report_with : List (String × Value) → Value
report_with ps = pairs (
    ("schema_version", str "0.1-draft")
    ∷ ("report_kind", str "sandbox_run")
    ∷ ("run", pairs (("run_id", str "run-1") ∷ ("ended_at", str "2026-01-01T00:00:00Z") ∷ []))
    ∷ ("docker", pairs (("runner", str "docker") ∷ ("docker_invoked", bool true) ∷ []))
    ∷ ps)

abbrev clean : Value
clean = report_with []

abbrev blocked_run : Value
blocked_run = report_with (("gate", pairs (("policy_blocked", bool true) ∷ [])) ∷ [])

-- a run on an approved worktree that was dirty
abbrev dirty_run : Value
dirty_run = report_with (
    ("authorization", pairs (("worktree_binding", pairs (("status", str "dirty") ∷ [])) ∷ [])) ∷ [])

dirty-Refused : Refused runtime (mapping dirty_run)
dirty-Refused = mismatched refl (IsMismatched.status (Memᴰ.tail (Memᴰ.tail (Memᴰ.head refl))))

abbrev pub decimal : ℕ → String
decimal n = "1"

abbrev normal : Value → Fields
normal (dict source) = normalized runtime true source false
normal _ = end

blocked_normalized : normalize_sandbox_run_evidence runtime blocked_run ≡ ok (normal blocked_run)
unfolding normalize_sandbox_run_evidence
blocked_normalized = refl

-- a report_kind that is a list
kind_unhashable :
    normalize_sandbox_run_evidence runtime (pairs (("report_kind", list nil) ∷ []))
    ≡ raise type_error
unfolding normalize_sandbox_run_evidence
kind_unhashable = refl

evaluated : Value → Py Evaluation
evaluated report =
    evaluate_verdict runtime end (calm ∷ [])
      ([] ++ (sandbox_gate_signals decimal (dict (normal report) ∷ [])).verdict_candidates)

blocked_evaluated : (o : Evaluation) × (evaluated blocked_run ≡ ok o)
unfolding evaluated evaluate_verdict validate_evidence contains_raw_host_path fingerprint
    limitation_severity highest_limitation_severity strongest_verdict max_by verdict_order tokens
    normalize_token blocking_marker quarantine_signal warn_signal normalized found decision_signals
    safe_label safe_timestamp safe_image observer_label is_observer_char begins is_alphanumeric
    sandbox_gate_signals signals_of add_signal
blocked_evaluated = (_, refl)

evaluate_verdict-Refused_example : blocked_evaluated.0.verdict ≡ "block"
unfolding evaluated
evaluate_verdict-Refused_example =
    evaluate_verdict-Refused runtime end decimal (calm ∷ []) [] (dict (normal blocked_run) ∷ [])
      blocked_evaluated.0 blocked_run (normal blocked_run) blocked_evaluated.1 blocked_normalized
      (Memᴰ.head refl) (blocked_by_gate refl)
