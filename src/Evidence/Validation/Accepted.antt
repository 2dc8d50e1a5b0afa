-- ===== src/Evidence/Validation/Accepted.antt =====
-- What evidence/validation.py accepts, section by section, apart from the code's checks.
use repo_health_doctor.Base.{ℕ, some, ◌≡◌, ◌<◌, ◌⊎◌, Bool, true, false, [], same_set, ◌≢◌}
use repo_health_doctor.Base.Int.{pos}
use repo_health_doctor.Json.{bool, str, dict, Fields, keys, get, is_int, as_number, string_items}
use repo_health_doctor.Json.Fingerprint.{fingerprint}
use repo_health_doctor.Json.Checks.{OneOf, NonEmpty, IsList, IsText, IsBoolean}
use repo_health_doctor.Json.RawPath.{contains_raw_host_path}
use repo_health_doctor.Evidence.Validation.{
  evidence_schema_version, evidence_kind, top_level_fields, source_fields, legacy_subject_fields,
  subject_fields, classification_fields, finding_fields, raw_handling_fields, trust_fields,
  effects_fields, execution_modes, low_trust_levels, trust_levels, categories, severities,
  confidences, gate_effects, binding_kinds,
}

pub record IsSource (s : Fields) : Type 0 where
  pub mode : OneOf execution_modes (get "execution_mode" s)
  pub tool_name : NonEmpty (get "tool_name" s)
  pub tool_version : NonEmpty (get "tool_version" s)
  pub adapter_name : NonEmpty (get "adapter_name" s)
  pub adapter_version : NonEmpty (get "adapter_version" s)

-- A snapshot binding names the snapshot by two fingerprints.
pub record IsSubject (s : Fields) : Type 0 where
  pub binding : OneOf binding_kinds (get "binding_kind" s)
  pub path_scope : IsList (get "path_scope" s)
  pub repo_identity : NonEmpty (get "repo_identity" s)
  pub snapshot :
      get "binding_kind" s ≡ str "snapshot_bound"
      → (fingerprint (get "snapshot_id" s) ≡ true)
        × (fingerprint (get "manifest_fingerprint" s) ≡ true)

pub record IsClassification (c : Fields) : Type 0 where
  pub category : OneOf categories (get "category" c)
  pub severity : OneOf severities (get "severity" c)
  pub confidence : OneOf confidences (get "confidence" c)
  pub subcategory : NonEmpty (get "subcategory" c)
  pub confidence_reason : NonEmpty (get "confidence_reason" c)

-- A finding is present exactly when its count is not zero.
pub record IsFinding (f : Fields) : Type 0 where
  pub present : Bool
  pub present_is : get "present" f ≡ bool present
  pub count : ℕ
  pub integral : is_int (get "count" f) ≡ true
  pub count_is : as_number (get "count" f) ≡ some (pos count, 0)
  pub counted : (present ≡ true → 0 < count) × (present ≡ false → count ≡ 0)
  pub locations : IsList (get "locations" f)
  pub redacted_summary : IsText (get "redacted_summary" f)

-- No raw output is kept, and the redaction has not failed.
pub record IsRawHandling (r : Fields) : Type 0 where
  pub output : get "raw_output_retained" r ≡ bool false
  pub stdout : get "raw_stdout_retained" r ≡ bool false
  pub stderr : get "raw_stderr_retained" r ≡ bool false
  pub redacted : get "redaction_status" r ≢ str "failed"
  pub redaction_failures : IsList (get "redaction_failures" r)

pub record IsTrust (t : Fields) : Type 0 where
  pub level : OneOf trust_levels (get "level" t)
  pub commit_bound : IsBoolean (get "commit_bound" t)
  pub signature_verified : IsBoolean (get "signature_verified" t)
  pub binary_attested : IsBoolean (get "binary_attested" t)
  pub limitations : string_items (get "limitations" t) ≢ []

-- Evidence authorizes nothing, and neither silence nor a low trust level lowers a risk.
pub record IsEffects (f t e : Fields) : Type 0 where
  pub authorizes : get "can_authorize_execution" e ≡ bool false
  pub lowers : IsBoolean (get "can_lower_risk" e)
  pub effect : OneOf gate_effects (get "recommended_gate_effect" e)
  pub silence : get "present" f ≡ bool false → get "can_lower_risk" e ≡ bool false
  pub low_trust : OneOf low_trust_levels (get "level" t) → get "can_lower_risk" e ≡ bool false

-- The seven sections of an item.
pub record Sections (d : Fields) : Type 0 where
  pub source : Fields
  pub source_at : get "source" d ≡ dict source
  pub subject : Fields
  pub subject_at : get "subject" d ≡ dict subject
  pub classification : Fields
  pub classification_at : get "classification" d ≡ dict classification
  pub finding : Fields
  pub finding_at : get "finding" d ≡ dict finding
  pub raw_handling : Fields
  pub raw_handling_at : get "raw_handling" d ≡ dict raw_handling
  pub trust : Fields
  pub trust_at : get "trust" d ≡ dict trust
  pub effects : Fields
  pub effects_at : get "effects" d ≡ dict effects

-- No object has a field that the schema does not name, and none lacks one.
pub record IsClosed (d : Fields) (p : Sections d) : Type 0 where
  pub top : same_set (keys d) top_level_fields ≡ true
  pub source : same_set (keys p.source) source_fields ≡ true
  pub subject :
      (same_set (keys p.subject) legacy_subject_fields ≡ true)
      ⊎ (same_set (keys p.subject) subject_fields ≡ true)
  pub classification : same_set (keys p.classification) classification_fields ≡ true
  pub finding : same_set (keys p.finding) finding_fields ≡ true
  pub raw_handling : same_set (keys p.raw_handling) raw_handling_fields ≡ true
  pub trust : same_set (keys p.trust) trust_fields ≡ true
  pub effects : same_set (keys p.effects) effects_fields ≡ true

pub record IsAccepted (d : Fields) : Type 0 where
  pub sections : Sections d
  pub closed : IsClosed d sections
  pub schema_version : get "schema_version" d ≡ str evidence_schema_version
  pub kind : get "evidence_kind" d ≡ str evidence_kind
  pub evidence_id : NonEmpty (get "evidence_id" d)
  pub source : IsSource sections.source
  pub subject : IsSubject sections.subject
  pub classification : IsClassification sections.classification
  pub finding : IsFinding sections.finding
  pub raw_handling : IsRawHandling sections.raw_handling
  pub trust : IsTrust sections.trust
  pub effects : IsEffects sections.finding sections.trust sections.effects
  pub residual_risks : IsList (get "residual_risks" d)
  pub no_raw_path : contains_raw_host_path (dict d) ≡ false
