-- ===== src/Examples/NormalizedRuns.antt =====
-- Observed runs in the normalized form, judged by a strict policy.
use repo_health_doctor.Base.{
  ℕ, String, ◌≡◌, ◌≢◌, refl, true, false, List, [], ◌∷◌, map, eq_iff, arith,
}
use repo_health_doctor.Base.Int.{pos}
use repo_health_doctor.Base.Py.{ok, raise, overflow_error}
use repo_health_doctor.Json.{
  Value, bool, int, str, list, nil, dict, Fields, end, get, mapping, truth,
}
use repo_health_doctor.Sandbox.Policy.Strict.{IsStrict}
use repo_health_doctor.Sandbox.Policy.Default.{build_default_behavior_policy}
use repo_health_doctor.Sandbox.Behavior.Contained.{IsContained}
use repo_health_doctor.Sandbox.Behavior.Judged.{IsRead, evaluate_behavior_policy-IsContained}
use repo_health_doctor.Sandbox.Behavior.{BehaviorVerdict, evaluate_behavior_policy}
use repo_health_doctor.Evidence.SandboxRun.Normalized.{of_pairs, pairs}
use repo_health_doctor.Examples.Artifacts.{digest}
use repo_health_doctor.Examples.Behavior.{sandbox_runtime, strict_policy}

abbrev none_of : List String → List (String × Value)
none_of names = map (λ name. (name, int (pos 0))) names

abbrev empty_lists : List String → List (String × Value)
empty_lists names = map (λ name. (name, list nil)) names

-- evidence of the policy's command, with the number of executions that were not expected
abbrev normalized_run : ℕ → Fields
normalized_run executions =
    of_pairs
      (("schema_version", str "0.1-draft")
        ∷ ("report_kind", str "sandbox_normalized_observer_evidence")
        ∷ ("evidence_id", str "run-1")
        ∷ (
          "source",
          pairs (
              ("observer_mode", str "strace_runtime_hook")
              ∷ ("strace_available", bool true)
              ∷ ("strace_log_present", bool true)
              ∷ ("strace_parse_success", bool true)
              ∷ ("runtime_hook_available", bool true)
              ∷ ("runtime_hook_active", bool true)
              ∷ ("runtime_hook_parse_success", bool true)
              ∷ ("observer_degraded", bool false)
              ∷ ("degraded_reasons", list nil)
              ∷ []),
        )
        ∷ (
          "command",
          pairs (
              ("phase", str "phase2_install_probe")
              ∷ ("kind", str "install_probe")
              ∷ ("cwd", str "/workspace")
              ∷ ("argv_fingerprint", str digest)
              ∷ ("shell", bool false)
              ∷ ("network_policy", str "none")
              ∷ []),
        )
        ∷ (
          "execution",
          pairs (
              ("return_code", int (pos 0))
              ∷ ("timeout", bool false)
              ∷ ("duration_ms", int (pos 10))
              ∷ ("completed", bool true)
              ∷ []),
        )
        ∷ (
          "counts",
          pairs (
              ("unexpected_exec_count", int (pos executions))
              ∷ none_of (
                  "process_event_count" ∷ "subprocess_event_count" ∷ "network_event_count"
                  ∷ "file_write_event_count" ∷ "outside_allowed_write_count" ∷ "denied_read_count"
                  ∷ "docker_socket_access_count" ∷ "host_home_access_count" ∷ "secret_event_count"
                  ∷ "outside_writable_delete_count" ∷ "strace_parse_error_count"
                  ∷ "runtime_hook_parse_error_count" ∷ [])),
        )
        ∷ (
          "flags",
          pairs (
              ("evidence_complete", bool true)
              ∷ ("raw_logs_included", bool false)
              ∷ ("stdout_included", bool false)
              ∷ ("stderr_included", bool false)
              ∷ ("host_paths_redacted", bool true)
              ∷ ("secrets_redacted", bool true)
              ∷ []),
        )
        ∷ (
          "summaries",
          pairs (
              empty_lists (
                "process_summary" ∷ "file_summary" ∷ "network_summary" ∷ "secret_summary"
                ∷ "limitations" ∷ "residual_risks" ∷ [])),
        )
        ∷ (
          "redaction",
          pairs (
              ("status", str "redacted")
              ∷ ("raw_host_path_present", bool false)
              ∷ ("raw_secret_like_value_present", bool false)
              ∷ []),
        )
        ∷ [])
      end

contained_run :
    (r : BehaviorVerdict) × (evaluate_behavior_policy sandbox_runtime
        (dict strict_policy)
        (dict (normalized_run 0))
      ≡ ok r)
    × (r.verdict ≡ "pass")
unfolding evaluate_behavior_policy build_default_behavior_policy
contained_run = (_, refl, refl)

contained_unblocked : contained_run.0.verdict ≢ "block"
contained_unblocked h = ground (arith, eq_iff "pass" "block", contained_run.2)

evaluate_behavior_policy-IsContained_example :
    (p e c : Fields) × (dict strict_policy ≡ dict p)
    × (dict (normalized_run 0) ≡ dict e)
    × IsStrict p
    × IsRead sandbox_runtime p e c
    × IsContained (truth (get "runtime_hook_required" (mapping (get "observer_requirements" p)))) c
evaluate_behavior_policy-IsContained_example =
    evaluate_behavior_policy-IsContained sandbox_runtime (dict strict_policy)
      (dict (normalized_run 0)) contained_run.0 contained_run.1 contained_unblocked

-- A count that is too large for a list leaves the evaluator as an OverflowError.
uncaught_count :
    evaluate_behavior_policy sandbox_runtime
      (dict strict_policy)
      (dict (normalized_run 1000000000000000000000000000000))
    ≡ raise overflow_error
unfolding evaluate_behavior_policy build_default_behavior_policy
uncaught_count = refl
