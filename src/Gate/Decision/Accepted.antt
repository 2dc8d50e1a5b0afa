-- ===== src/Gate/Decision/Accepted.antt =====
-- What a valid gate decision is, section by section.
use repo_health_doctor.Base.{◌≡◌, ◌≢◌, true, false, ◌||◌, [], subset, same_set}
use repo_health_doctor.Base.Py.{ok}
use repo_health_doctor.Json.{
  bool, str, dict, Fields, keys, get, has_key, string_items, count_invalid,
}
use repo_health_doctor.Json.Fingerprint.{fingerprint}
use repo_health_doctor.Json.Runtime.{Runtime}
use repo_health_doctor.Json.Checks.{OneOf, NonEmpty, IsList, IsBoolean}
use repo_health_doctor.Gate.Decision.Refs.{validate_evidence_refs}
use repo_health_doctor.Gate.Decision.{
  gate_decision_schema_version, decision_kind, required_top_level_fields, top_level_fields,
  legacy_subject_fields, subject_fields, explanation_fields, evidence_summary_fields, policy_fields,
  verdicts, confidences, binding_kinds,
}

pub record IsExplanation (e : Fields) : Type 0 where
  pub closed : same_set (keys e) explanation_fields ≡ true
  pub summary : NonEmpty (get "summary" e)
  pub key_reasons : string_items (get "key_reasons" e) ≢ []
  pub next_actions : string_items (get "next_actions" e) ≢ []

pub record IsSubject (s : Fields) : Type 0 where
  pub closed : (same_set (keys s) legacy_subject_fields || same_set (keys s) subject_fields) ≡ true
  pub repo : NonEmpty (get "repo" s)
  pub binding_kind : OneOf binding_kinds (get "binding_kind" s)
  pub snapshot :
      get "binding_kind" s ≡ str "snapshot_bound"
      → (fingerprint (get "snapshot_id" s) ≡ true)
        × (fingerprint (get "manifest_fingerprint" s) ≡ true)

pub record IsSummary (e : Fields) : Type 0 where
  pub closed : same_set (keys e) evidence_summary_fields ≡ true
  -- an integer that is not negative
  pub findings_count : count_invalid (get "findings_count" e) ≡ ok false
  pub blocking : IsList (get "blocking_evidence" e)
  pub warning : IsList (get "warning_evidence" e)
  pub missing : IsList (get "missing_evidence" e)
  pub degraded : IsList (get "degraded_observers" e)

pub record IsPolicy (p : Fields) : Type 0 where
  pub closed : same_set (keys p) policy_fields ≡ true
  pub fail_closed : IsBoolean (get "fail_closed" p)

pub record IsWellFormed (rt : Runtime) (d : Fields) : Type 0 where
  pub fields : subset required_top_level_fields (keys d) ≡ true
  pub no_more : subset (keys d) top_level_fields ≡ true
  pub schema_version : get "schema_version" d ≡ str gate_decision_schema_version
  pub kind : get "decision_kind" d ≡ str decision_kind
  pub verdict : OneOf verdicts (get "verdict" d)
  -- a gate decision never authorizes an execution
  pub no_authorization : get "execution_authorized" d ≡ bool false
  pub confidence : OneOf confidences (get "confidence" d)
  pub confidence_reason : NonEmpty (get "confidence_reason" d)
  pub explanation : (e : Fields) × (get "explanation" d ≡ dict e) × IsExplanation e
  pub subject : (s : Fields) × (get "subject" d ≡ dict s) × IsSubject s
  pub summary : (e : Fields) × (get "evidence_summary" d ≡ dict e) × IsSummary e
  pub policy : (p : Fields) × (get "policy" d ≡ dict p) × IsPolicy p
  pub refs :
      has_key "evidence_refs" d ≡ true → validate_evidence_refs rt (get "evidence_refs" d) ≡ ok []
  pub required_actions : IsList (get "required_actions" d)
  pub limitations : string_items (get "limitations" d) ≢ []
  pub residual_risks : IsList (get "residual_risks" d)
