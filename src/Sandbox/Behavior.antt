-- ===== src/Sandbox/Behavior.antt =====
-- sandbox/behavior_policy.py: evaluate_behavior_policy, and the evidence that it accepts. A value that
-- validation has shown to be there is read with `get`.
pub mod Names
pub mod Recorded
pub mod Evidence
pub mod Partition
pub mod Contained
pub mod Judged
pub mod Within
pub mod Total
use Prim.Native.String
use repo_health_doctor.Base.{
  String, ◌^◌, Bool, true, false, not, ◌&&◌, ◌||◌, List, [], ◌∷◌, ◌++◌, ◌==◌, if◌then◌else◌, map,
  any, is_empty, Option, none, some, contains, same_set, dedupe, length,
}
use repo_health_doctor.Base.Int.{pos, scaled_ltb}
use repo_health_doctor.Base.Py.{
  Py, ok, raise, type_error, value_error, key_error, attribute_error, overflow_error, ◌>>=◌,
}
use repo_health_doctor.Base.Sort.{sorted}
use repo_health_doctor.Json.{
  Value, null, bool, int, str, dict, list, Fields, end, field, get, keys, items, is_null, is_int,
  is_dict, is_false, is_text, truth, mapping, count_invalid, as_number, string_items,
}
use repo_health_doctor.Json.Equality.{equal}
use repo_health_doctor.Sandbox.Guards.{raise_if, not_exactly, text_that, list_of}
use repo_health_doctor.Sandbox.Labels.{safe_label}
use repo_health_doctor.Sandbox.Observer.{
  flags_not_bool, validate_normalized_observer_evidence,
  normalized_observer_evidence_to_behavior_evidence,
}
use repo_health_doctor.Sandbox.Policy.{validate_behavior_policy}
use repo_health_doctor.Sandbox.Runtime.{SandboxRuntime}
use repo_health_doctor.Sandbox.Behavior.Names.{
  legacy_evidence_fields, evidence_fields, evidence_flags, evidence_counts,
}
use repo_health_doctor.Sandbox.Behavior.Recorded.{recorded, verdict_of}
use repo_health_doctor.Sandbox.Behavior.Evidence.{
  copied, is_normalized, shape_tests, coerce_behavior_evidence,
}

unfoldable pub evidence_summary : Fields → Fields
evidence_summary e =
    copied
      ("observer_available" ∷ "runtime_hook_available" ∷ "runtime_hook_active"
        ∷ "runtime_hook_parse_succeeded" ∷ "observer_degraded" ∷ "strace_log_present"
        ∷ "strace_parse_succeeded" ∷ "evidence_complete" ∷ "network_event_count"
        ∷ "write_outside_allowed_prefix_count" ∷ "docker_socket_access_count"
        ∷ "host_home_access_count" ∷ "denied_read_access_count" ∷ "secret_event_count" ∷ [])
      e
      (field "execve_count" (int (pos (length (string_items (get "execve_binaries" e))))) (
        field "subprocess_count" (int (pos (length (string_items (get "subprocess_binaries" e))))) (
          copied
            ("outside_writable_delete_count" ∷ "strace_parse_error_count"
              ∷ "runtime_hook_parse_error_count" ∷ "timed_out" ∷ "return_code" ∷ [])
            e end)))

-- The fields of the verdict; schema_version, report_kind and redaction are constants.
pub record BehaviorVerdict : Type 0 where
  pub policy_version : Value
  pub verdict : String
  pub reasons : List String
  pub blockers : List String
  pub warnings : List String
  pub evidence_summary : Fields
  pub limitations : List String
  pub residual_risks : List String

unfoldable pub invalid_verdict : String → BehaviorVerdict
invalid_verdict reason = record {
  policy_version = str "unvalidated";
  verdict = "block";
  reasons = reason ∷ [];
  blockers = reason ∷ [];
  warnings = [];
  evidence_summary = field "validation" (str "failed") end;
  limitations =
      "Policy or evidence validation failed closed; no execution decision is produced." ∷ [];
  residual_risks = "unknown_or_unsupported_input" ∷ [];
}

unfoldable pub judge : Fields → Fields → BehaviorVerdict
unfolding recorded verdict_of evidence_summary sorted
judge policy e =
    let r = recorded policy e in
    record {
      policy_version = get "schema_version" policy;
      verdict = verdict_of r;
      reasons = sorted (dedupe (r.blockers ++ (r.warnings ++ r.needs_review)));
      blockers = sorted (dedupe r.blockers);
      warnings = sorted (dedupe r.warnings);
      evidence_summary = evidence_summary e;
      limitations =
          "PASS means observed evidence was within this policy's monitored scope; it is not an unknown-repository safety guarantee."
          ∷ "This static evaluator does not execute a candidate, Docker, or a live sandbox phase."
          ∷ [];
      residual_risks =
          "observed_evidence_is_not_a_safety_guarantee"
          ∷ "unobserved_behavior_remains_outside_this_verdict" ∷ [];
    }

module _ (rt : SandboxRuntime) where
  -- `_normalized_evidence_matches_policy`
  unfoldable pub matches_policy : Fields → Fields → Bool
  unfolding equal
  matches_policy policy e =
      let command = mapping (get "command" e) in
      let binding = mapping (get "binding" policy) in
      equal (get "phase" command) (get "phase" binding)
      && equal (get "kind" command) (get "kind" binding)
      && equal (get "cwd" command) (get "cwd" binding)
      && equal (get "argv_fingerprint" command)
          (str (String.◌++◌ "sha256:" (rt.sha256_hex (rt.compact_dumps (get "argv" binding)))))
      && equal (get "shell" command) (get "shell" binding)
      && equal (get "network_policy" command) (get "network_policy" binding)

  -- whether the evidence is of the command that the policy binds, where it is in the normalized form
  unfoldable pub same_command : Fields → Fields → Bool → Py Bool
  unfolding validate_normalized_observer_evidence matches_policy
  same_command policy e true =
      validate_normalized_observer_evidence rt (dict e) >>= λ _. ok (matches_policy policy e)
  same_command policy e false = ok true

  unfoldable pub read_same : Fields → Bool → Py (Option Fields)
  unfolding coerce_behavior_evidence shape_tests
  read_same e true =
      coerce_behavior_evidence rt e >>= λ c. raise_if (shape_tests c) >>= λ _. ok (some c)
  read_same e false = ok none

  -- The body of the second `try`: none where the evidence is of another command.
  unfoldable pub read_evidence : Fields → Fields → Py (Option Fields)
  unfolding same_command read_same
  read_evidence policy e = same_command policy e (is_normalized e) >>= λ same. read_same e same

  -- what follows the second `try`, and its `except (KeyError, TypeError, ValueError)`
  unfoldable pub after_reading : Fields → Py (Option Fields) → Py BehaviorVerdict
  unfolding judge invalid_verdict
  after_reading policy (ok (some c)) = ok (judge policy c)
  after_reading policy (ok none) =
      ok (invalid_verdict "normalized_evidence_command_binding_mismatch")
  after_reading policy (raise key_error) =
      ok (invalid_verdict "invalid_or_unsupported_behavior_evidence")
  after_reading policy (raise type_error) =
      ok (invalid_verdict "invalid_or_unsupported_behavior_evidence")
  after_reading policy (raise value_error) =
      ok (invalid_verdict "invalid_or_unsupported_behavior_evidence")
  after_reading policy (raise attribute_error) = raise attribute_error
  after_reading policy (raise overflow_error) = raise overflow_error

  -- `evidence.get(...)` raises where the evidence is no dict
  unfoldable pub judge_valid : Fields → Value → Py BehaviorVerdict
  unfolding after_reading read_evidence
  judge_valid policy (dict e) = after_reading policy (read_evidence policy e)
  judge_valid policy _ = raise attribute_error

  -- what follows the first `try`, and its `except ValueError`
  unfoldable pub after_validation : Value → Value → Py {0} Unit → Py BehaviorVerdict
  unfolding judge_valid invalid_verdict
  after_validation policy evidence (ok _) = judge_valid (mapping policy) evidence
  after_validation policy evidence (raise value_error) =
      ok (invalid_verdict "invalid_or_unsupported_behavior_policy")
  after_validation policy evidence (raise e) = raise e

  unfoldable pub evaluate_behavior_policy : Value → Value → Py BehaviorVerdict
  unfolding validate_behavior_policy after_validation
  evaluate_behavior_policy policy evidence =
      after_validation policy evidence (validate_behavior_policy rt policy)
