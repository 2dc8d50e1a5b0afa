-- ===== src/Sandbox/Observer.antt =====
-- sandbox/observer_evidence.py: validate_normalized_observer_evidence, its report, and what the
-- evaluator reads of the evidence.
use Prim.Native.String
use text.Mathlib.Text.{starts_with}
use repo_health_doctor.Base.{
  ℕ, zero, suc, String, Bool, true, false, not, ◌&&◌, ◌||◌, List, [], ◌∷◌, ◌++◌, if◌then◌else◌, map,
  any, is_empty, Option, none, some,
}
use repo_health_doctor.Base.Int.{pos, pos_part}
use repo_health_doctor.Base.Py.{Py, ok, raise, value_error, type_error, overflow_error, ◌>>=◌}
use repo_health_doctor.Json.{
  Value, null, bool, str, list, dict, Items, nil, cons, Fields, end, field, get, is_str, is_bool,
  is_int, is_null, is_true, is_false, is_text, truth, not_member, mapping, count_invalid, as_number,
}
use repo_health_doctor.Json.Fingerprint.{fingerprint}
use repo_health_doctor.Sandbox.Guards.{raise_if, not_exactly, text_that, list_of}
use repo_health_doctor.Sandbox.Labels.{observer_label}
use repo_health_doctor.Sandbox.Policy.{part, logical_cwd}
use repo_health_doctor.Sandbox.Observer.Names.{
  evidence_fields, source_fields, source_flags, command_fields, execution_fields, count_fields,
  flag_fields, summary_fields, redaction_fields, home_path, secret_patterns,
}
use repo_health_doctor.Sandbox.Runtime.{SandboxRuntime}
pub mod Names

abbrev pub observer_labels_invalid : Value → Bool
observer_labels_invalid v = not (list_of (text_that observer_label) v)

-- `not isinstance(d.get(field), bool)`, for each field
abbrev pub flags_not_bool : Fields → List String → List (Py Bool)
flags_not_bool d names = map (λ name. ok (not (is_bool (get name d)))) names

-- `_safe_labels(...)` and `observer_degraded != bool(reasons)`
abbrev pub reasons_tests : Fields → List (Py Bool)
reasons_tests s =
    ok (observer_labels_invalid (get "degraded_reasons" s))
    ∷ ok (elim (truth (get "observer_degraded" s)) [
      | true ↦ not (truth (get "degraded_reasons" s))
      | false ↦ truth (get "degraded_reasons" s)
    ])
    ∷ []

unfoldable pub source_tests : Fields → List (Py Bool)
unfolding observer_label
source_tests s =
    not_member ("strace_runtime_hook" ∷ "strace_only" ∷ "runtime_hook_only" ∷ "none" ∷ [])
      (get "observer_mode" s)
    ∷ (flags_not_bool s source_flags ++ reasons_tests s)

unfoldable pub command_tests : Fields → List (Py Bool)
unfolding observer_label fingerprint
command_tests c =
    not_member ("phase2_install_probe" ∷ "phase3_runtime_probe" ∷ []) (get "phase" c)
    ∷ ok (not (text_that observer_label (get "kind" c)))
    ∷ ok (not (text_that logical_cwd (get "cwd" c)))
    ∷ ok (not (fingerprint (get "argv_fingerprint" c)))
    ∷ ok (not (is_false (get "shell" c)) || not (is_text (get "network_policy" c) "none"))
    ∷ []

unfoldable pub execution_tests : Fields → List (Py Bool)
execution_tests e =
    ok (not (is_null (get "return_code" e)) && not (is_int (get "return_code" e)))
    ∷ (if not (is_bool (get "timeout" e)) || not (is_bool (get "completed" e))
        then ok true
        else count_invalid (get "duration_ms" e))
    ∷ []

-- `any(...)` over the counts, in any order: no test on an int raises
abbrev pub count_tests : Fields → List (Py Bool)
count_tests c = map (λ name. count_invalid (get name c)) count_fields

unfoldable pub flag_tests : Fields → List (Py Bool)
flag_tests f =
    ok (
      not (is_bool (get "evidence_complete" f))
      || not (is_false (get "raw_logs_included" f))
      || not (is_false (get "stdout_included" f))
      || not (is_false (get "stderr_included" f))
      || not (is_true (get "host_paths_redacted" f))
      || not (is_true (get "secrets_redacted" f)))
    ∷ []

abbrev pub summary_tests : Fields → List (Py Bool)
summary_tests s = map (λ name. ok (observer_labels_invalid (get name s))) summary_fields

unfoldable pub redaction_tests : Fields → List (Py Bool)
redaction_tests r =
    ok (
      not (is_text (get "status" r) "redacted")
      || not (is_false (get "raw_host_path_present" r))
      || not (is_false (get "raw_secret_like_value_present" r)))
    ∷ []

-- `[label] * count`, of a list that can be built
abbrev pub repeated : String → ℕ → Items
repeated label zero = nil
repeated label (suc n) = cons (str label) (repeated label n)

-- a count that validation has let through
abbrev pub natural : Value → ℕ
natural v = elim (as_number v) [ none ↦ 0 | some (n, k) ↦ pos_part n ]

unfoldable pub to_behavior : Fields → Fields → Fields → Fields → Fields
to_behavior source counts flags execution =
    field "observer_available" (get "strace_available" source) (
      field "runtime_hook_available" (get "runtime_hook_available" source) (
        field "runtime_hook_active" (get "runtime_hook_active" source) (
          field "runtime_hook_parse_succeeded" (get "runtime_hook_parse_success" source) (
            field "observer_degraded" (get "observer_degraded" source) (
              field "strace_log_present" (get "strace_log_present" source) (
                field "strace_parse_succeeded" (get "strace_parse_success" source) (
                  field "evidence_complete" (get "evidence_complete" flags) (
                    field "network_event_count" (get "network_event_count" counts) (
                      field "write_outside_allowed_prefix_count"
                        (get "outside_allowed_write_count" counts)
                        (field "docker_socket_access_count"
                          (get "docker_socket_access_count" counts)
                          (field "host_home_access_count" (get "host_home_access_count" counts) (
                            field "denied_read_access_count" (get "denied_read_count" counts) (
                              field "secret_event_count" (get "secret_event_count" counts) (
                                field "execve_binaries"
                                  (list (
                                    repeated "observer-unexpected-exec"
                                      (natural (get "unexpected_exec_count" counts))))
                                  (field "subprocess_binaries"
                                    (list (
                                      repeated "observer-subprocess"
                                        (natural (get "subprocess_event_count" counts))))
                                    (field "outside_writable_delete_count"
                                      (get "outside_writable_delete_count" counts)
                                      (field "strace_parse_error_count"
                                        (get "strace_parse_error_count" counts)
                                        (field "runtime_hook_parse_error_count"
                                          (get "runtime_hook_parse_error_count" counts)
                                          (field "timed_out" (get "timeout" execution) (
                                            field "return_code" (get "return_code" execution)
                                              end))))))))))))))))))))

-- what speaks against the use of valid evidence, each with the name that the list gets
abbrev pub blocker_tests : Bool → Fields → Fields → Fields → Fields → List (Bool × String)
blocker_tests hook source counts flags execution =
    (not (truth (get "strace_available" source)), "strace_unavailable")
    ∷ (not (truth (get "strace_log_present" source)), "strace_log_missing")
    ∷ (not (truth (get "strace_parse_success" source)), "strace_parse_failure")
    ∷ (hook && not (truth (get "runtime_hook_available" source)), "runtime_hook_unavailable")
    ∷ (hook && not (truth (get "runtime_hook_active" source)), "runtime_hook_inactive")
    ∷ (hook && not (truth (get "runtime_hook_parse_success" source)), "runtime_hook_parse_failure")
    ∷ (truth (get "observer_degraded" source), "observer_degraded")
    ∷ (not (truth (get "evidence_complete" flags)), "evidence_incomplete")
    ∷ (truth (get "strace_parse_error_count" counts), "strace_parse_errors")
    ∷ (truth (get "runtime_hook_parse_error_count" counts), "runtime_hook_parse_errors")
    ∷ (truth (get "timeout" execution), "execution_timeout")
    ∷ []

-- the names of the tests that hold, in order
abbrev pub holding : List (Bool × String) → List String
holding [] = []
holding ((b, name) ∷ tests) = let rest = holding tests in if b then name ∷ rest else rest

-- The fields of the report that vary; the others are constants.
pub record ObserverReport : Type 0 where
  pub evidence_schema_version : Value
  pub verdict : String
  pub valid : Bool
  pub pass_eligible : Bool
  pub pass_blockers : List String
  pub blockers : List String

abbrev invalid_report : ObserverReport
invalid_report = record {
  evidence_schema_version = str "unvalidated";
  verdict = "block";
  valid = false;
  pass_eligible = false;
  pass_blockers = "invalid_or_unsupported_normalized_observer_evidence" ∷ [];
  blockers = "invalid_or_unsupported_normalized_observer_evidence" ∷ [];
}

module _ (rt : SandboxRuntime) where
  abbrev pub contains_unsafe_value : Value → Bool
  contains_unsafe_value v =
      let rendered = rt.dumps v in
      rt.search home_path rendered || any (λ pattern. rt.search pattern rendered) secret_patterns

  unfoldable pub observer_tests : Value → List (Py Bool)
  unfolding source_tests command_tests execution_tests flag_tests redaction_tests observer_label
  observer_tests evidence =
      ok (contains_unsafe_value evidence)
      ∷ part evidence evidence_fields (λ d.
        ok (not (is_text (get "schema_version" d) "0.1-draft"))
        ∷ ok (not (is_text (get "report_kind" d) "sandbox_normalized_observer_evidence"))
        ∷ ok (not (text_that observer_label (get "evidence_id" d)))
        ∷ (part (get "source" d) source_fields source_tests
            ++ part (get "command" d) command_fields command_tests
            ++ part (get "execution" d) execution_fields execution_tests
            ++ part (get "counts" d) count_fields count_tests
            ++ part (get "flags" d) flag_fields flag_tests
            ++ part (get "summaries" d) summary_fields summary_tests
            ++ part (get "redaction" d) redaction_fields redaction_tests))

  unfoldable pub validate_normalized_observer_evidence : Value → Py {0} Unit
  unfolding observer_tests
  validate_normalized_observer_evidence evidence = raise_if (observer_tests evidence)

  -- the two lists that are repeated as often as the evidence counts
  abbrev pub counts_fit : Fields → Bool
  counts_fit counts =
      rt.fits (natural (get "unexpected_exec_count" counts))
      && rt.fits (natural (get "subprocess_event_count" counts))

  unfoldable pub normalized_observer_evidence_to_behavior_evidence : Value → Py Fields
  unfolding validate_normalized_observer_evidence to_behavior
  normalized_observer_evidence_to_behavior_evidence evidence =
      validate_normalized_observer_evidence evidence >>= λ _.
      let d = mapping evidence in
      let counts = mapping (get "counts" d) in
      if counts_fit counts
      then ok (
          to_behavior (mapping (get "source" d)) counts (mapping (get "flags" d))
            (mapping (get "execution" d)))
      else raise overflow_error

  unfoldable pub normalized_observer_evidence_pass_blockers : Bool → Value → Py (List String)
  unfolding validate_normalized_observer_evidence
  normalized_observer_evidence_pass_blockers runtime_hook_required evidence =
      validate_normalized_observer_evidence evidence >>= λ _.
      let d = mapping evidence in
      ok (
        holding (
          blocker_tests runtime_hook_required (mapping (get "source" d)) (mapping (get "counts" d))
            (mapping (get "flags" d)) (mapping (get "execution" d))))

  -- `except (TypeError, ValueError)`
  abbrev on_refusal : Py {0} Unit → Py ObserverReport → Py ObserverReport
  on_refusal (ok _) rest = rest
  on_refusal (raise type_error) rest = ok invalid_report
  on_refusal (raise value_error) rest = ok invalid_report
  on_refusal (raise e) rest = raise e

  unfoldable pub validate_normalized_observer_evidence_report : Value → Py ObserverReport
  unfolding validate_normalized_observer_evidence normalized_observer_evidence_pass_blockers
  validate_normalized_observer_evidence_report evidence =
      on_refusal (validate_normalized_observer_evidence evidence) (
        normalized_observer_evidence_pass_blockers true evidence >>= λ found. ok record {
          evidence_schema_version = get "schema_version" (mapping evidence);
          verdict = "pass";
          valid = true;
          pass_eligible = is_empty found;
          pass_blockers = found;
          blockers = [];
        })
