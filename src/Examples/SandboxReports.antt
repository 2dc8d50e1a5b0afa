-- ===== src/Examples/SandboxReports.antt =====
-- Validated reports of sandbox runs, judged by the gate, and the theorems applied to them.
use repo_health_doctor.Base.{◌≡◌, refl, true, false, none, some, [], ◌∷◌, ◌++◌, Memᴰ}
use repo_health_doctor.Base.Int.{pos}
use repo_health_doctor.Base.Select.{max_by}
use repo_health_doctor.Base.Py.{Py, ok}
use repo_health_doctor.Json.{Value, null, bool, int, str, list, nil, dict, end}
use repo_health_doctor.Json.Fingerprint.{fingerprint}
use repo_health_doctor.Json.RawPath.{contains_raw_host_path}
use repo_health_doctor.Sandbox.Labels.{observer_label, is_observer_char, begins, is_alphanumeric}
use repo_health_doctor.Evidence.Validation.{validate_evidence}
use repo_health_doctor.Evidence.SandboxRun.Texts.{safe_label, safe_timestamp, safe_image}
use repo_health_doctor.Evidence.SandboxRun.{found, decision_signals}
use repo_health_doctor.Evidence.SandboxRun.Normalized.{
  pairs, normalized, normalize_sandbox_run_evidence,
}
use repo_health_doctor.Gate.Limitations.{limitation_severity, highest_limitation_severity}
use repo_health_doctor.Gate.Verdict.{strongest_verdict, verdict_order}
use repo_health_doctor.Gate.Evaluator.{Evaluation, evaluate_verdict}
use repo_health_doctor.Gate.Evaluator.Markers.{
  tokens, normalize_token, blocking_marker, quarantine_signal, warn_signal,
}
use repo_health_doctor.Gate.Evaluator.Sandbox.{signals_of, add_signal, sandbox_gate_signals}
use repo_health_doctor.Gate.Evaluator.SandboxRuns.{IsClean}
use repo_health_doctor.Gate.SandboxEvidence.Shape.{source_shape_errors}
use repo_health_doctor.Gate.SandboxEvidence.Current.{
  IsCurrent, validate_sandbox_run_evidence-IsCurrent,
}
use repo_health_doctor.Gate.SandboxEvidence.Judged.{evaluate_verdict-validated}
use repo_health_doctor.Gate.SandboxEvidence.{
  Expected, SandboxRunEvidenceValidationResult, faults, judged, reasons_of, validated_signals,
  parse_timestamp, safe_run_id, mapping_matches, validate_sandbox_run_evidence,
}
use repo_health_doctor.Examples.Artifacts.{runtime, digest}
use repo_health_doctor.Examples.Evaluations.{calm}
use repo_health_doctor.Examples.SandboxRuns.{decimal}

-- an object where the report has one that does not matter
abbrev empty : Value
empty = dict end

-- a report with all the fields that the gate asks for
abbrev full_report : Value
full_report = pairs (
    ("schema_version", str "0.1-draft")
    ∷ ("report_kind", str "sandbox_run")
    ∷ ("kind", str "sandbox_run")
    ∷ ("tool", str "repo-health-doctor")
    ∷ ("version", str "1")
    ∷ ("experimental", bool true)
    ∷ ("contract", empty)
    ∷ ("run", pairs (("run_id", str "run-1") ∷ ("ended_at", str "2026-01-01T00:00:00Z") ∷ []))
    ∷ ("target", empty)
    ∷ ("verified_snapshot", empty)
    ∷ ("subject_consistency", empty)
    ∷ ("approval", empty)
    ∷ ("gate", pairs (("decision_fingerprint", str digest) ∷ []))
    ∷ ("authorization", empty)
    ∷ ("sandbox_profile", empty)
    ∷ ("seccomp", empty)
    ∷ ("command", empty)
    ∷ ("docker", pairs (("runner", str "docker") ∷ ("docker_invoked", bool true) ∷ []))
    ∷ ("disposable_workspace", empty)
    ∷ ("workspace_diff", empty)
    ∷ ("result", empty)
    ∷ ("policy_blocked", bool false)
    ∷ ("command_started", bool true)
    ∷ ("command_start_state", str "started")
    ∷ ("command_exit_code", int (pos 0))
    ∷ ("sandbox_exit_code", int (pos 0))
    ∷ ("block_reason", null)
    ∷ ("output_summary", pairs (("raw_stdout_stderr_persisted", bool false) ∷ []))
    ∷ ("runtime_write_budget", empty)
    ∷ ("env_policy", empty)
    ∷ ("cleanup_policy", empty)
    ∷ ("boundary_statement", empty)
    ∷ ("limitations", list nil)
    ∷ ("next_actions", list nil)
    ∷ ("safety_statement", str "bounded")
    ∷ [])

-- the clock stands at 1000, a thousand before every time that is read
abbrev expected : Expected
expected = record {
  subject = none;
  policy_version = none;
  now = record { aware = true; ticks = pos 1000 };
  max_age_seconds = pos 86400;
  max_bytes = pos 262144;
  source_size_bytes = some (pos 2048);
  total_over_budget = false;
  seen_fingerprints = [];
}

full_validated :
    (r : SandboxRunEvidenceValidationResult) × (validate_sandbox_run_evidence runtime expected
        full_report
      ≡ ok r)
    × (r.valid ≡ true)
unfolding validate_sandbox_run_evidence normalize_sandbox_run_evidence normalized found
    decision_signals safe_label safe_timestamp safe_image observer_label is_observer_char begins
    is_alphanumeric fingerprint faults judged reasons_of validated_signals parse_timestamp
    safe_run_id mapping_matches source_shape_errors
full_validated = (_, refl, refl)

validate_sandbox_run_evidence-IsCurrent_example : IsCurrent runtime expected full_report
validate_sandbox_run_evidence-IsCurrent_example =
    validate_sandbox_run_evidence-IsCurrent runtime expected full_report full_validated.0
      full_validated.1 full_validated.2

full_evaluated : Py Evaluation
full_evaluated =
    let signals = sandbox_gate_signals decimal (dict full_validated.0.normalized_evidence ∷ []) in
    evaluate_verdict runtime end (calm ∷ []) ([] ++ signals.verdict_candidates)

full_allowed : (o : Evaluation) × (full_evaluated ≡ ok o) × (o.verdict ≡ "allow_limited")
unfolding full_evaluated full_validated evaluate_verdict validate_evidence contains_raw_host_path
    fingerprint limitation_severity highest_limitation_severity strongest_verdict max_by
    verdict_order tokens normalize_token blocking_marker quarantine_signal warn_signal
    sandbox_gate_signals signals_of add_signal normalized found decision_signals safe_label
    safe_timestamp safe_image observer_label is_observer_char begins is_alphanumeric faults judged
    reasons_of validated_signals parse_timestamp safe_run_id mapping_matches source_shape_errors
    validate_sandbox_run_evidence normalize_sandbox_run_evidence
full_allowed = (_, refl, refl)

evaluate_verdict-validated_example : (full_validated.0.valid ≡ true) × IsClean runtime full_report
unfolding full_evaluated
evaluate_verdict-validated_example =
    evaluate_verdict-validated runtime end decimal (calm ∷ []) []
      (dict full_validated.0.normalized_evidence ∷ []) full_allowed.0 expected full_report
      full_validated.0 full_allowed.1 full_allowed.2 full_validated.1 (Memᴰ.head refl)
