-- ===== src/Sandbox/Behavior/Evidence.antt =====
-- sandbox/behavior_policy.py: _coerce_behavior_evidence and _validate_behavior_evidence_shape.
use repo_health_doctor.Base.{
  String, Bool, false, not, ◌&&◌, List, [], ◌∷◌, ◌++◌, if◌then◌else◌, map, same_set,
}
use repo_health_doctor.Base.Int.{pos}
use repo_health_doctor.Base.Py.{Py, ok, raise, value_error, ◌>>=◌}
use repo_health_doctor.Json.{
  Value, bool, int, dict, Fields, end, field, get, keys, is_null, is_int, is_text, count_invalid,
}
use repo_health_doctor.Sandbox.Guards.{raise_if, not_exactly, text_that, list_of}
use repo_health_doctor.Sandbox.Labels.{safe_label}
use repo_health_doctor.Sandbox.Observer.{
  flags_not_bool, normalized_observer_evidence_to_behavior_evidence,
}
use repo_health_doctor.Sandbox.Runtime.{SandboxRuntime}
use repo_health_doctor.Sandbox.Behavior.Names.{
  legacy_evidence_fields, evidence_fields, evidence_flags, evidence_counts,
}

abbrev pub copied : List String → Fields → Fields → Fields
copied [] e rest = rest
copied (name ∷ names) e rest = field name (get name e) (copied names e rest)

-- `not isinstance(value, list) or not all(isinstance(item, str) and _SAFE_LABEL.fullmatch(item) ...)`
abbrev pub binaries_invalid : Value → Bool
binaries_invalid v = not (list_of (text_that safe_label) v)

abbrev pub other_tests : Fields → List (Py Bool)
other_tests e =
    ok (binaries_invalid (get "execve_binaries" e))
    ∷ ok (binaries_invalid (get "subprocess_binaries" e))
    ∷ ok (not (is_null (get "return_code" e)) && not (is_int (get "return_code" e)))
    ∷ []

abbrev pub counts_invalid : Fields → List String → List (Py Bool)
counts_invalid e names = map (λ name. count_invalid (get name e)) names

-- `_validate_behavior_evidence_shape`
unfoldable pub shape_tests : Fields → List (Py Bool)
unfolding safe_label
shape_tests e =
    ok (not_exactly (dict e) evidence_fields)
    ∷ (flags_not_bool e evidence_flags ++ (counts_invalid e evidence_counts ++ other_tests e))

-- `_coerce_behavior_evidence` for the older form of evidence
unfoldable pub upgraded : Fields → Fields
upgraded e = copied legacy_evidence_fields e (
    field "runtime_hook_active" (get "runtime_hook_available" e) (
      field "runtime_hook_parse_succeeded" (get "runtime_hook_available" e) (
        field "observer_degraded" (bool false) (
          field "strace_parse_error_count" (int (pos 0))
            (field "runtime_hook_parse_error_count" (int (pos 0)) end)))))

abbrev pub is_normalized : Fields → Bool
is_normalized e = is_text (get "report_kind" e) "sandbox_normalized_observer_evidence"

module _ (rt : SandboxRuntime) where
  unfoldable pub coerce_behavior_evidence : Fields → Py Fields
  unfolding normalized_observer_evidence_to_behavior_evidence upgraded
  coerce_behavior_evidence e =
      if is_normalized e
      then normalized_observer_evidence_to_behavior_evidence rt (dict e)
      else if not (same_set (keys e) legacy_evidence_fields)
      then raise value_error
      else ok (upgraded e)

  unfoldable pub validate_behavior_evidence : Fields → Py {0} Unit
  unfolding coerce_behavior_evidence shape_tests
  validate_behavior_evidence e = coerce_behavior_evidence e >>= λ c. raise_if (shape_tests c)
