-- ===== src/Gate/Authorization/Subject.antt =====
-- gate/authorization.py: what an authorization must repeat of the gate decision.
use Prim.Native.String
use repo_health_doctor.Base.{String}
use repo_health_doctor.Json.{Value, null, str, dict, Fields, end, field, get, get_or, mapping}
use repo_health_doctor.Json.Runtime.{Runtime, text_of}

-- `value if isinstance(value, str) else None`
abbrev pub string_or_null : Value → Value
string_or_null (str s) = str s
string_or_null _ = null

-- The dict that `_gate_subject` builds.
pub record GateSubject : Type 0 where
  pub repo : String
  pub commit : Value
  pub tree_hash : Value
  pub snapshot_id : Value
  pub manifest_fingerprint : Value
  pub binding_kind : String

abbrev pub subject_dict : GateSubject → Fields
subject_dict s = field "repo" (str s.repo) (
    field "commit" s.commit (
      field "tree_hash" s.tree_hash (
        field "snapshot_id" s.snapshot_id (
          field "manifest_fingerprint" s.manifest_fingerprint
            (field "binding_kind" (str s.binding_kind) end)))))

-- `_legacy_gate_subject`
abbrev pub legacy_subject_dict : GateSubject → Fields
legacy_subject_dict s = field "repo" (str s.repo) (
    field "commit" s.commit
      (field "tree_hash" s.tree_hash (field "binding_kind" (str s.binding_kind) end)))

-- `{key: gate_subject[key] for key in expected_subject_fields}`, for SUBJECT_FIELDS and for
-- LEGACY_SUBJECT_FIELDS
abbrev pub bound_subject : GateSubject → Fields
bound_subject s = field "repo" (str s.repo) (
    field "commit" s.commit (
      field "tree_hash" s.tree_hash (
        field "snapshot_id" s.snapshot_id
          (field "manifest_fingerprint" s.manifest_fingerprint end))))

abbrev pub legacy_bound_subject : GateSubject → Fields
legacy_bound_subject s =
    field "repo" (str s.repo) (field "commit" s.commit (field "tree_hash" s.tree_hash end))

-- `_policy_version`
abbrev pub policy_version : Fields → Value
policy_version gate = string_or_null (get "policy_version" (mapping (get "policy" gate)))

module _ (rt : Runtime) where
  unfoldable pub gate_subject : Fields → GateSubject
  gate_subject gate =
      let subject = mapping (get "subject" gate) in
      record {
        repo = text_of rt (get_or (str "<repo>") "repo" subject);
        commit = string_or_null (get "commit" subject);
        tree_hash = string_or_null (get "tree_hash" subject);
        snapshot_id = string_or_null (get "snapshot_id" subject);
        manifest_fingerprint = string_or_null (get "manifest_fingerprint" subject);
        binding_kind = text_of rt (get_or (str "unbound") "binding_kind" subject);
      }

  unfoldable pub gate_decision_fingerprint : Fields → String
  gate_decision_fingerprint gate = String.◌++◌ "sha256:" (rt.sha256_hex (rt.dumps (dict gate)))

  -- `_gate_reference`
  unfoldable pub gate_reference : Fields → Fields
  gate_reference gate = field "decision_kind" (get "decision_kind" gate) (
      field "schema_version" (get "schema_version" gate) (
        field "verdict" (get "verdict" gate)
          (field "fingerprint" (str (gate_decision_fingerprint gate)) end)))
