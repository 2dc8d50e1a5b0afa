-- ===== src/Gate/Authorization/Artifact/Grants.antt =====
-- When an artifact authorizes an execution, apart from the code's checks.
use repo_health_doctor.Base.{
  String, ◌≡◌, ◌≢◌, ◌⊎◌, Option, true, false, none, some, List, [], All, subset, same_set,
  if◌then◌else◌,
}
use repo_health_doctor.Base.Int.{ltb_ℤ}
use repo_health_doctor.Json.{
  Value, bool, str, list, dict, Fields, keys, get, has_key, is_text, mapping, string_items,
}
use repo_health_doctor.Json.Checks.{OneOf, NonEmpty}
use repo_health_doctor.Json.Equality.{equal}
use repo_health_doctor.Json.Fingerprint.{fingerprint}
use repo_health_doctor.Json.RawPath.{contains_raw_host_path}
use repo_health_doctor.Json.Runtime.{Runtime, Time}
use repo_health_doctor.Gate.Authorization.Image.{
  approved_image_fields, is_digest_pinned_authorization_reference, is_full_local_image_id,
}
use repo_health_doctor.Gate.Authorization.Forbidden.{contains_forbidden_pattern}
use repo_health_doctor.Gate.Authorization.Subject.{
  GateSubject, subject_dict, legacy_subject_dict, bound_subject, legacy_bound_subject,
  policy_version, gate_subject, gate_reference,
}
use repo_health_doctor.Gate.Authorization.Artifact.{
  Expected, authorization_kind, legacy_schema_version, authorization_schema_versions,
  base_top_level_fields, image_bound_fields, based_on_fields, subject_fields, legacy_subject_fields,
  is_current, text_items, current_time, parsed,
}

-- The current schema binds the snapshot as well.
abbrev pub scope_of : Fields → GateSubject → Fields
scope_of a s = if is_current a then subject_dict s else legacy_subject_dict s

abbrev pub subject_of : Fields → GateSubject → Fields
subject_of a s = if is_current a then bound_subject s else legacy_bound_subject s

-- The image that was approved is pinned by digest, and it is the one that runs.
pub record IsBoundImage (image : Fields) (x : Expected) : Type 0 where
  pub closed : same_set (keys image) approved_image_fields ≡ true
  pub reference : String
  pub requested : get "requested_reference" image ≡ str reference
  pub pinned : is_digest_pinned_authorization_reference (str reference) ≡ true
  pub reference_runs : x.image_reference ≡ some reference
  pub id : String
  pub resolved : get "resolved_image_id" image ≡ str id
  pub full_id : is_full_local_image_id (str id) ≡ true
  pub id_runs : x.image_id ≡ some id

-- What is known of an entry at run time, when it is known, is what the artifact's subject, its scope and
-- the gate's subject say.
abbrev pub IsSameAtRun : String → Fields → Value → Option String → Type 0
IsSameAtRun name a v none = Unit
IsSameAtRun name a v (some s) =
    (get name (mapping (get "subject" a)) ≡ str s)
    × (get name (mapping (get "approved_scope" a)) ≡ str s)
    × (v ≡ str s)

abbrev pub Expects : Option String → Value → Type 0
Expects none v = Unit
Expects (some s) v = v ≡ str s

-- An entry that is the gate's in the subject and in the scope, and what is known at run time of it.
abbrev pub IsSameEntry : String → Fields → Value → Option String → Type 0
IsSameEntry name a v expected =
    (equal (get name (mapping (get "subject" a))) v ≡ true)
    × (equal (get name (mapping (get "approved_scope" a))) v ≡ true)
    × Expects expected (get name (mapping (get "subject" a)))

-- The snapshot is named by fingerprints, in the subject and in the scope, and everything that is known
-- at run time agrees with the artifact and with the gate decision.
pub record IsBoundSnapshot (a : Fields) (s : GateSubject) (x : Expected) : Type 0 where
  pub subject_id : fingerprint (get "snapshot_id" (mapping (get "subject" a))) ≡ true
  pub subject_manifest : fingerprint (get "manifest_fingerprint" (mapping (get "subject" a))) ≡ true
  pub scope_id : fingerprint (get "snapshot_id" (mapping (get "approved_scope" a))) ≡ true
  pub scope_manifest :
      fingerprint (get "manifest_fingerprint" (mapping (get "approved_scope" a))) ≡ true
  pub kind : s.binding_kind ≡ "snapshot_bound"
  pub repository : IsSameAtRun "repo" a (str s.repo) x.repository_identity
  pub commit : IsSameAtRun "commit" a s.commit x.commit
  pub tree : IsSameAtRun "tree_hash" a s.tree_hash x.tree
  pub snapshot_id : IsSameEntry "snapshot_id" a s.snapshot_id x.snapshot_id
  pub manifest : IsSameEntry "manifest_fingerprint" a s.manifest_fingerprint x.manifest_fingerprint

-- The time of expiry is given, and it is later than the current time.
abbrev pub IsUnexpired : Runtime → Value → Time → Type 0
IsUnexpired rt v current =
    (s : String) × (expires : Time) × (v ≡ str s)
    × (s ≢ "")
    × (parsed rt s ≡ some expires)
    × (ltb_ℤ current.ticks expires.ticks ≡ true)

-- The approver is named, and the time of approval can be read.
abbrev pub IsApprovedAt : Runtime → Value → Type 0
IsApprovedAt rt v = (s : String) × (t : Time) × (v ≡ str s) × (s ≢ "") × (parsed rt s ≡ some t)

pub record IsGranted (rt : Runtime) (a gate : Fields) (argv : List String) (x : Expected)
    : Type 0 where
  pub kind : get "authorization_kind" a ≡ str authorization_kind
  pub version : OneOf authorization_schema_versions (get "schema_version" a)
  pub fields : subset base_top_level_fields (keys a) ≡ true
  pub no_more :
      subset (keys a) (
        if is_text (get "schema_version" a) legacy_schema_version
        then base_top_level_fields
        else image_bound_fields)
      ≡ true
  pub approved : get "approved" a ≡ bool true
  pub approved_by : NonEmpty (get "approved_by" a)
  pub approved_at : IsApprovedAt rt (get "approved_at" a)
  pub unexpired : IsUnexpired rt (get "expires_at" a) (current_time x)
  pub verdict : (get "verdict" gate ≡ str "allow_limited") ⊎ (get "verdict" gate ≡ str "warn")
  pub argv_exact : get "approved_argv" a ≡ list (text_items argv)
  pub argv_non_empty : All (λ arg. arg ≢ "") argv
  pub scope :
      equal (dict (mapping (get "approved_scope" a))) (dict (scope_of a (gate_subject rt gate)))
      ≡ true
  pub subject :
      equal (dict (mapping (get "subject" a))) (dict (subject_of a (gate_subject rt gate))) ≡ true
  pub subject_closed :
      same_set
        (keys (mapping (get "subject" a)))
        (if is_current a then subject_fields else legacy_subject_fields)
      ≡ true
  pub policy : equal (get "approved_policy_version" a) (policy_version gate) ≡ true
  pub based_on :
      equal (dict (mapping (get "based_on_gate_decision" a))) (dict (gate_reference rt gate)) ≡ true
  pub based_on_closed :
      same_set (keys (mapping (get "based_on_gate_decision" a))) based_on_fields ≡ true
  pub snapshot : is_current a ≡ true → IsBoundSnapshot a (gate_subject rt gate) x
  pub image :
      has_key "approved_image" a ≡ true
      → (image : Fields) × (get "approved_image" a ≡ dict image) × IsBoundImage image x
  pub limitations : string_items (get "limitations" a) ≢ []
  pub residual_risks : string_items (get "residual_risks" a) ≢ []
  pub no_secret : contains_forbidden_pattern (dict a) ≡ false
  pub no_raw_path : contains_raw_host_path (dict a) ≡ false
