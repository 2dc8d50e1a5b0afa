-- ===== src/Gate/Decision.antt =====
-- gate/validation.py and gate/decision.py: the static validator of a gate decision. Each
-- `if test: errors.append(...)` is a check, in the order of the source; a test may raise.
pub mod Refs
pub mod Accepted
pub mod Sections
pub mod Sound
use repo_health_doctor.Base.{
  String, Bool, true, false, not, ◌&&◌, ◌||◌, List, [], ◌∷◌, ◌++◌, if◌then◌else◌, is_empty, subset,
  same_set, dedupe,
}
use repo_health_doctor.Base.Py.{Py, ok, ◌>>=◌, Check, flag, flag_if, collect}
use repo_health_doctor.Json.{
  Value, list, dict, Fields, keys, get, has_key, is_list, is_bool, is_false, is_text, truth,
  not_member, string_items, non_empty_string, closed_dict, on_dict, count_invalid,
}
use repo_health_doctor.Json.Fingerprint.{fingerprint}
use repo_health_doctor.Json.Runtime.{Runtime}
use repo_health_doctor.Gate.Decision.Refs.{validate_evidence_refs}

pub record GateDecisionValidationResult : Type 0 where
  pub valid : Bool
  pub blocking_errors : List String
  pub warnings : List String
  pub limitations : List String
  pub residual_risks : List String

abbrev pub gate_decision_schema_version : String
gate_decision_schema_version = "0.1-draft"

abbrev pub decision_kind : String
decision_kind = "repo_health_gate_decision"

abbrev pub required_top_level_fields : List String
required_top_level_fields =
    "decision_kind" ∷ "schema_version" ∷ "subject" ∷ "verdict" ∷ "execution_authorized"
    ∷ "confidence" ∷ "confidence_reason" ∷ "explanation" ∷ "evidence_summary" ∷ "required_actions"
    ∷ "limitations" ∷ "policy" ∷ "residual_risks" ∷ []

abbrev pub top_level_fields : List String
top_level_fields = required_top_level_fields ++ "evidence_refs" ∷ []

abbrev pub legacy_subject_fields : List String
legacy_subject_fields = "repo" ∷ "commit" ∷ "tree_hash" ∷ "binding_kind" ∷ []

abbrev pub subject_fields : List String
subject_fields = legacy_subject_fields ++ "snapshot_id" ∷ "manifest_fingerprint" ∷ []

abbrev pub explanation_fields : List String
explanation_fields = "summary" ∷ "key_reasons" ∷ "next_actions" ∷ []

abbrev pub evidence_summary_fields : List String
evidence_summary_fields =
    "findings_count" ∷ "blocking_evidence" ∷ "warning_evidence" ∷ "missing_evidence"
    ∷ "degraded_observers" ∷ []

abbrev pub policy_fields : List String
policy_fields = "policy_version" ∷ "fail_closed" ∷ []

abbrev pub verdicts : List String
verdicts = "allow_limited" ∷ "warn" ∷ "quarantine" ∷ "block" ∷ "unknown" ∷ []

abbrev pub confidences : List String
confidences = "low" ∷ "medium" ∷ "high" ∷ "unknown" ∷ []

abbrev pub binding_kinds : List String
binding_kinds =
    "unbound" ∷ "path_bound" ∷ "commit_bound" ∷ "tree_bound" ∷ "snapshot_bound" ∷ "synthetic" ∷ []

-- `not REQUIRED_TOP_LEVEL_FIELDS.issubset(data) or set(data) - TOP_LEVEL_FIELDS`
abbrev pub top_level_invalid : Fields → Bool
top_level_invalid d =
    not (subset required_top_level_fields (keys d)) || not (subset (keys d) top_level_fields)

pub subject_shape : Value → Check
subject_shape (dict s) =
    flag (not (same_set (keys s) legacy_subject_fields || same_set (keys s) subject_fields))
      "subject_required_or_unknown_field"
subject_shape _ = ok ("subject_must_be_object" ∷ [])

pub explanation_checks : Fields → List Check
explanation_checks e =
    flag (not (non_empty_string (get "summary" e))) "explanation_summary_required"
    ∷ flag (is_empty (string_items (get "key_reasons" e))) "explanation_key_reasons_required"
    ∷ flag (is_empty (string_items (get "next_actions" e))) "explanation_next_actions_required"
    ∷ []

pub snapshot_checks : Fields → List Check
snapshot_checks s =
    if is_text (get "binding_kind" s) "snapshot_bound"
    then flag (not (fingerprint (get "snapshot_id" s))) "subject_snapshot_id_invalid"
      ∷ flag (not (fingerprint (get "manifest_fingerprint" s)))
          "subject_manifest_fingerprint_invalid"
      ∷ []
    else []

pub subject_checks : Fields → List Check
unfolding snapshot_checks
subject_checks s =
    flag (not (non_empty_string (get "repo" s))) "subject_repo_required"
    ∷ flag_if (not_member binding_kinds (get "binding_kind" s)) "subject_binding_kind_invalid"
    ∷ collect (snapshot_checks s)
    ∷ []

pub summary_checks : Fields → List Check
summary_checks e =
    flag_if (count_invalid (get "findings_count" e)) "evidence_summary_findings_count_invalid"
    ∷ flag (not (is_list (get "blocking_evidence" e)))
        "evidence_summary_blocking_evidence_must_be_array"
    ∷ flag (not (is_list (get "warning_evidence" e)))
        "evidence_summary_warning_evidence_must_be_array"
    ∷ flag (not (is_list (get "missing_evidence" e)))
        "evidence_summary_missing_evidence_must_be_array"
    ∷ flag (not (is_list (get "degraded_observers" e)))
        "evidence_summary_degraded_observers_must_be_array"
    ∷ []

pub policy_checks : Fields → List Check
policy_checks p =
    flag (not (is_bool (get "fail_closed" p))) "policy_fail_closed_must_be_boolean" ∷ []

abbrev when : Bool → String → List String
when true message = message ∷ []
when false message = []

abbrev has_missing : Value → Bool
has_missing (dict e) = truth (get "missing_evidence" e)
has_missing _ = false

abbrev is_unbound : Value → Bool
is_unbound (dict s) = is_text (get "binding_kind" s) "unbound"
is_unbound _ = false

decision_warnings : Fields → List String
decision_warnings d =
    when (is_text (get "verdict" d) "allow_limited" && is_false (get "execution_authorized" d))
      "allow_limited_is_not_execution_authorization"
    ++ (when (has_missing (get "evidence_summary" d)) "missing_evidence_present"
        ++ when (is_unbound (get "subject" d)) "gate_decision_subject_unbound")

pub invalid_input : GateDecisionValidationResult
invalid_input = record {
  valid = false;
  blocking_errors = "gate_decision_must_be_object" ∷ [];
  warnings = [];
  limitations = [];
  residual_risks = "invalid_gate_decision_input" ∷ [];
}

pub decision_result : Fields → List String → GateDecisionValidationResult
unfolding decision_warnings
decision_result d errors = record {
  valid = is_empty errors;
  blocking_errors = dedupe errors;
  warnings = dedupe (decision_warnings d);
  limitations = string_items (get "limitations" d);
  residual_risks = string_items (get "residual_risks" d);
}

module _ (rt : Runtime) where
  pub refs_check : Fields → Check
  refs_check d =
      if has_key "evidence_refs" d then validate_evidence_refs rt (get "evidence_refs" d) else ok []

  -- All that `validate_gate_decision` appends to `errors`, in order.
  pub decision_checks : Fields → List Check
  unfolding subject_shape explanation_checks subject_checks summary_checks policy_checks refs_check
  decision_checks d =
      flag (top_level_invalid d) "gate_decision_top_level_required_or_unknown_field"
      ∷ flag (not (is_text (get "schema_version" d) gate_decision_schema_version))
          "gate_decision_schema_version_unsupported"
      ∷ flag (not (is_text (get "decision_kind" d) decision_kind)) "decision_kind_unsupported"
      ∷ flag_if (not_member verdicts (get "verdict" d)) "verdict_invalid"
      ∷ flag (not (is_false (get "execution_authorized" d))) "execution_authorized_must_be_false"
      ∷ flag_if (not_member confidences (get "confidence" d)) "confidence_invalid"
      ∷ flag (not (non_empty_string (get "confidence_reason" d))) "confidence_reason_required"
      ∷ closed_dict (get "explanation" d) explanation_fields "explanation"
      ∷ on_dict (get "explanation" d) explanation_checks
      ∷ subject_shape (get "subject" d)
      ∷ on_dict (get "subject" d) subject_checks
      ∷ closed_dict (get "evidence_summary" d) evidence_summary_fields "evidence_summary"
      ∷ on_dict (get "evidence_summary" d) summary_checks
      ∷ closed_dict (get "policy" d) policy_fields "policy"
      ∷ on_dict (get "policy" d) policy_checks
      ∷ refs_check d
      ∷ flag (not (is_list (get "required_actions" d))) "required_actions_must_be_array"
      ∷ flag (is_empty (string_items (get "limitations" d))) "limitations_empty"
      ∷ flag (not (is_list (get "residual_risks" d))) "residual_risks_must_be_array"
      ∷ []

  unfoldable pub validate_gate_decision : Value → Py GateDecisionValidationResult
  unfolding decision_checks decision_result invalid_input
  validate_gate_decision (dict d) =
      collect (decision_checks d) >>= λ errors. ok (decision_result d errors)
  validate_gate_decision _ = ok invalid_input
