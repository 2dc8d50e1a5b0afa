-- ===== src/Evidence/Validation.antt =====
-- evidence/validation.py and evidence/models.py: the static validator of an evidence item. Each
-- `if test: errors.append(...)` is a check, in the order of the source; a test may raise.
pub mod Accepted
pub mod Sound
pub mod Checks
pub mod Raises
use Prim.Native.Char.{code}
use Prim.Native.String
use text.Mathlib.Text.{starts_with}
use repo_health_doctor.Base.{
  ℕ, String, count, Bool, true, false, not, ◌&&◌, ◌||◌, List, [], ◌∷◌, ◌++◌, ◌==◌, arith, eqb, leb,
  if◌then◌else◌, contains, same_set, is_empty, dedupe,
}
use repo_health_doctor.Base.Int.{pos}
use repo_health_doctor.Base.Py.{Py, ok, raise, ◌>>=◌, Check, flag, flag_if, collect}
use repo_health_doctor.Json.{
  Value, null, bool, int, str, list, dict, Fields, end, keys, get, is_list, is_str, is_bool, is_int,
  is_true, is_false, is_text, le_num, count_invalid, is_num, member, not_member, string_items,
  non_empty_string, closed_dict, on_dict, require_strings,
}
use repo_health_doctor.Json.Fingerprint.{fingerprint}
use repo_health_doctor.Json.RawPath.{contains_raw_host_path}

pub record EvidenceValidationResult : Type 0 where
  pub valid : Bool
  pub blocking_errors : List String
  pub warnings : List String
  pub limitations : List String
  pub residual_risks : List String

abbrev pub evidence_schema_version : String
evidence_schema_version = "0.1-draft"

abbrev pub evidence_kind : String
evidence_kind = "repo_health_evidence"

abbrev pub top_level_fields : List String
top_level_fields =
    "evidence_id" ∷ "schema_version" ∷ "evidence_kind" ∷ "source" ∷ "subject" ∷ "classification"
    ∷ "finding" ∷ "raw_handling" ∷ "trust" ∷ "effects" ∷ "residual_risks" ∷ []

abbrev pub source_fields : List String
source_fields =
    "tool_name" ∷ "tool_version" ∷ "adapter_name" ∷ "adapter_version" ∷ "execution_mode" ∷ []

abbrev pub legacy_subject_fields : List String
legacy_subject_fields =
    "repo_identity" ∷ "commit" ∷ "tree_hash" ∷ "path_scope" ∷ "binding_kind" ∷ []

abbrev pub subject_fields : List String
subject_fields = legacy_subject_fields ++ "snapshot_id" ∷ "manifest_fingerprint" ∷ []

abbrev pub classification_fields : List String
classification_fields =
    "category" ∷ "subcategory" ∷ "severity" ∷ "confidence" ∷ "confidence_reason" ∷ []

abbrev pub finding_fields : List String
finding_fields = "present" ∷ "count" ∷ "locations" ∷ "redacted_summary" ∷ []

abbrev pub raw_handling_fields : List String
raw_handling_fields =
    "raw_output_retained" ∷ "raw_stdout_retained" ∷ "raw_stderr_retained" ∷ "redaction_status"
    ∷ "redaction_failures" ∷ []

abbrev pub trust_fields : List String
trust_fields =
    "level" ∷ "commit_bound" ∷ "signature_verified" ∷ "binary_attested" ∷ "limitations" ∷ []

abbrev pub effects_fields : List String
effects_fields = "can_lower_risk" ∷ "can_authorize_execution" ∷ "recommended_gate_effect" ∷ []

abbrev pub execution_modes : List String
execution_modes =
    "native_static" ∷ "imported_report" ∷ "local_no_network" ∷ "docker_isolated"
    ∷ "sandbox_observer" ∷ "synthetic_fixture" ∷ []

abbrev pub low_trust_levels : List String
low_trust_levels = "untrusted_import" ∷ "schema_validated" ∷ []

abbrev pub trust_levels : List String
trust_levels =
    "untrusted_import" ∷ "schema_validated" ∷ "redaction_validated" ∷ "commit_bound"
    ∷ "policy_bound" ∷ "docker_isolated_reproduced" ∷ "attested_binary_reproduced" ∷ []

abbrev pub categories : List String
categories =
    "secret" ∷ "known_vulnerability" ∷ "sbom" ∷ "ci_cd" ∷ "runtime_behavior" ∷ "repo_posture"
    ∷ "sandbox_observation" ∷ "external_scanner" ∷ "approval" ∷ "limitation" ∷ []

abbrev pub severities : List String
severities = "info" ∷ "warn" ∷ "block" ∷ "unknown" ∷ []

abbrev pub confidences : List String
confidences = "low" ∷ "medium" ∷ "high" ∷ "unknown" ∷ []

abbrev pub gate_effects : List String
gate_effects =
    "evidence_only" ∷ "requires_human_review" ∷ "allow_limited" ∷ "warn" ∷ "quarantine" ∷ "block"
    ∷ []

abbrev pub binding_kinds : List String
binding_kinds =
    "unbound" ∷ "path_bound" ∷ "commit_bound" ∷ "tree_bound" ∷ "snapshot_bound" ∷ "synthetic" ∷ []

pub subject_shape : Value → Check
subject_shape (dict s) =
    flag (not (same_set (keys s) legacy_subject_fields || same_set (keys s) subject_fields))
      "subject_required_or_unknown_field"
subject_shape _ = ok ("subject_must_be_object" ∷ [])

pub source_checks : Fields → List Check
source_checks s =
    flag_if (not_member execution_modes (get "execution_mode" s)) "source_execution_mode_invalid"
    ∷ require_strings s ("tool_name" ∷ "tool_version" ∷ "adapter_name" ∷ "adapter_version" ∷ [])
        "source"

pub snapshot_checks : Fields → List Check
snapshot_checks s =
    if is_text (get "binding_kind" s) "snapshot_bound"
    then flag (not (fingerprint (get "snapshot_id" s))) "subject_snapshot_id_invalid"
      ∷ flag (not (fingerprint (get "manifest_fingerprint" s)))
          "subject_manifest_fingerprint_invalid"
      ∷ []
    else []

pub subject_checks : Fields → List Check
unfolding snapshot_checks
subject_checks s =
    flag_if (not_member binding_kinds (get "binding_kind" s)) "subject_binding_kind_invalid"
    ∷ flag (not (is_list (get "path_scope" s))) "subject_path_scope_must_be_array"
    ∷ flag (not (non_empty_string (get "repo_identity" s))) "subject_repo_identity_required"
    ∷ collect (snapshot_checks s)
    ∷ []

pub classification_checks : Fields → List Check
classification_checks c =
    flag_if (not_member categories (get "category" c)) "classification_category_invalid"
    ∷ flag_if (not_member severities (get "severity" c)) "classification_severity_invalid"
    ∷ flag_if (not_member confidences (get "confidence" c)) "classification_confidence_invalid"
    ∷ require_strings c ("subcategory" ∷ "confidence_reason" ∷ []) "classification"

-- `present is True and count <= 0`; a count that is no number raises
pub present_without_count : Value → Value → Py Bool
present_without_count present n = if is_true present then le_num n (pos 0) else ok false

pub finding_checks : Fields → List Check
unfolding present_without_count
finding_checks f =
    flag (not (is_bool (get "present" f))) "finding_present_must_be_boolean"
    ∷ flag_if (count_invalid (get "count" f)) "finding_count_invalid"
    ∷ flag (is_false (get "present" f) && not (is_num (get "count" f) (pos 0)))
        "finding_absent_count_must_be_zero"
    ∷ flag_if (present_without_count (get "present" f) (get "count" f))
        "finding_present_count_must_be_positive"
    ∷ flag (not (is_list (get "locations" f))) "finding_locations_must_be_array"
    ∷ flag (not (is_str (get "redacted_summary" f))) "finding_redacted_summary_must_be_string"
    ∷ []

-- One of `raw_output_retained`, `raw_stdout_retained`, `raw_stderr_retained`.
pub must_be_false : Fields → String → Check
must_be_false r name =
    if is_true (get name r)
    then ok (String.◌++◌ name "_must_be_false" ∷ [])
    else flag (not (is_false (get name r))) (String.◌++◌ name "_must_be_boolean_false")

pub raw_handling_checks : Fields → List Check
unfolding must_be_false
raw_handling_checks r =
    must_be_false r "raw_output_retained"
    ∷ must_be_false r "raw_stdout_retained"
    ∷ must_be_false r "raw_stderr_retained"
    ∷ flag (is_text (get "redaction_status" r) "failed") "redaction_status_failed"
    ∷ flag (not (is_list (get "redaction_failures" r))) "redaction_failures_must_be_array"
    ∷ []

pub trust_checks : Fields → List Check
trust_checks t =
    flag_if (not_member trust_levels (get "level" t)) "trust_level_invalid"
    ∷ flag (not (is_bool (get "commit_bound" t))) "trust_commit_bound_must_be_boolean"
    ∷ flag (not (is_bool (get "signature_verified" t))) "trust_signature_verified_must_be_boolean"
    ∷ flag (not (is_bool (get "binary_attested" t))) "trust_binary_attested_must_be_boolean"
    ∷ flag (is_empty (string_items (get "limitations" t))) "limitations_empty"
    ∷ []

-- `finding is not None and finding.get("present") is False`
abbrev pub no_finding : Value → Bool
no_finding (dict f) = is_false (get "present" f)
no_finding _ = false

-- `trust is not None and trust.get("level") in LOW_TRUST_LEVELS`
abbrev pub low_trust : Value → Py Bool
low_trust (dict t) = member low_trust_levels (get "level" t)
low_trust _ = ok false

pub lowering_checks : Value → Bool → Fields → List Check
lowering_checks finding low e =
    flag (no_finding finding && is_true (get "can_lower_risk" e)) "no_finding_cannot_lower_risk"
    ∷ flag (low && is_true (get "can_lower_risk" e)) "low_trust_cannot_lower_risk"
    ∷ []

pub effects_checks : Value → Value → Fields → List Check
unfolding lowering_checks
effects_checks finding trust e =
    flag (not (is_false (get "can_authorize_execution" e)))
      "effects_can_authorize_execution_must_be_false"
    ∷ flag (not (is_bool (get "can_lower_risk" e))) "effects_can_lower_risk_must_be_boolean"
    ∷ flag_if (not_member gate_effects (get "recommended_gate_effect" e))
        "effects_recommended_gate_effect_invalid"
    ∷ (low_trust trust >>= λ low. collect (lowering_checks finding low e))
    ∷ []

-- All that `validate_evidence` appends to `errors`, in order.
pub evidence_checks : Fields → List Check
unfolding subject_shape source_checks subject_checks classification_checks finding_checks
    raw_handling_checks trust_checks effects_checks
evidence_checks d =
    flag (not (same_set (keys d) top_level_fields)) "evidence_top_level_required_or_unknown_field"
    ∷ flag (not (is_text (get "schema_version" d) evidence_schema_version))
        "evidence_schema_version_unsupported"
    ∷ flag (not (is_text (get "evidence_kind" d) evidence_kind)) "evidence_kind_unsupported"
    ∷ flag (not (non_empty_string (get "evidence_id" d))) "evidence_id_required"
    ∷ closed_dict (get "source" d) source_fields "source"
    ∷ subject_shape (get "subject" d)
    ∷ closed_dict (get "classification" d) classification_fields "classification"
    ∷ closed_dict (get "finding" d) finding_fields "finding"
    ∷ closed_dict (get "raw_handling" d) raw_handling_fields "raw_handling"
    ∷ closed_dict (get "trust" d) trust_fields "trust"
    ∷ closed_dict (get "effects" d) effects_fields "effects"
    ∷ on_dict (get "source" d) source_checks
    ∷ on_dict (get "subject" d) subject_checks
    ∷ on_dict (get "classification" d) classification_checks
    ∷ on_dict (get "finding" d) finding_checks
    ∷ on_dict (get "raw_handling" d) raw_handling_checks
    ∷ on_dict (get "trust" d) trust_checks
    ∷ on_dict (get "effects" d) (effects_checks (get "finding" d) (get "trust" d))
    ∷ flag (not (is_list (get "residual_risks" d))) "residual_risks_must_be_array"
    ∷ flag (contains_raw_host_path (dict d)) "raw_host_path_pattern_present"
    ∷ []

-- The limitations of the trust section, none where it is no object.
abbrev pub trust_limitations : Value → List String
trust_limitations (dict t) = string_items (get "limitations" t)
trust_limitations _ = []

abbrev pub when : Bool → String → List String
when true message = message ∷ []
when false message = []

abbrev pub field_is : Value → String → String → Bool
field_is (dict d) name text = is_text (get name d) text
field_is _ name text = false

pub evidence_warnings : Fields → List String
evidence_warnings d =
    when (no_finding (get "finding" d)) "no_finding_is_not_safety_proof"
    ++ (when (field_is (get "subject" d) "binding_kind" "unbound") "evidence_subject_unbound"
        ++ when (field_is (get "raw_handling" d) "redaction_status" "unknown")
            "redaction_status_unknown")

pub invalid_input : EvidenceValidationResult
invalid_input = record {
  valid = false;
  blocking_errors = "evidence_must_be_object" ∷ [];
  warnings = [];
  limitations = [];
  residual_risks = "invalid_evidence_input" ∷ [];
}

pub evidence_result : Fields → List String → EvidenceValidationResult
unfolding evidence_warnings
evidence_result d errors = record {
  valid = is_empty errors;
  blocking_errors = dedupe errors;
  warnings = dedupe (evidence_warnings d);
  limitations = trust_limitations (get "trust" d);
  residual_risks = string_items (get "residual_risks" d);
}

unfoldable pub validate_evidence : Value → Py EvidenceValidationResult
unfolding evidence_checks evidence_result invalid_input
validate_evidence (dict d) = collect (evidence_checks d) >>= λ errors. ok (evidence_result d errors)
validate_evidence _ = ok invalid_input
