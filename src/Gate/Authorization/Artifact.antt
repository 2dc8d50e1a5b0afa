-- ===== src/Gate/Authorization/Artifact.antt =====
-- gate/authorization.py: `validate_execution_authorization`. Each `if test: errors.append(...)` is a
-- check, in the order of the source; a test may raise.
pub mod Grants
pub mod Bound
pub mod Checks
pub mod ImageChecks
pub mod Sound
pub mod Single
use repo_health_doctor.Base.{
  String, Bool, true, false, not, ◌&&◌, ◌||◌, Option, none, some, List, [], ◌∷◌, ◌++◌, ◌==◌,
  if◌then◌else◌, is_empty, all, subset, same_set, contains, dedupe, format,
}
use repo_health_doctor.Base.Int.{pos, ltb_ℤ}
use repo_health_doctor.Base.Py.{Py, ok, raise, type_error, ◌>>=◌, Check, flag, flag_if, collect}
use repo_health_doctor.Json.{
  Value, null, str, list, dict, Items, nil, cons, Fields, items, keys, get, has_key, is_true,
  is_text, is_num, member, not_member, string_items, non_empty_string, mapping,
}
use repo_health_doctor.Json.Equality.{equal}
use repo_health_doctor.Json.Fingerprint.{fingerprint}
use repo_health_doctor.Json.RawPath.{contains_raw_host_path}
use repo_health_doctor.Json.Runtime.{Runtime, Time, replace, text_of}
use repo_health_doctor.Gate.Authorization.Image.{ImageBinding, validate_image_binding}
use repo_health_doctor.Gate.Authorization.Forbidden.{contains_forbidden_pattern}
use repo_health_doctor.Gate.Authorization.Subject.{
  GateSubject, subject_dict, legacy_subject_dict, bound_subject, legacy_bound_subject,
  policy_version, gate_subject, gate_reference,
}

pub record ExecutionAuthorizationValidationResult : Type 0 where
  pub valid : Bool
  pub approved : Bool
  pub execution_authorized : Bool
  pub blocking_errors : List String
  pub warnings : List String
  pub scope_matches : Bool
  pub argv_matches : Bool
  pub policy_matches : Bool
  pub not_expired : Bool
  pub based_on_gate_decision_matches : Bool
  pub image_binding_present : Bool
  pub image_reference_matches : Bool
  pub image_id_matches : Bool
  pub snapshot_binding_present : Bool
  pub snapshot_id_matches : Bool
  pub manifest_fingerprint_matches : Bool
  pub limitations : List String
  pub residual_risks : List String

-- The keyword arguments; `clock` is what `datetime.now` gives where no time is passed.
pub record Expected : Type 0 where
  pub now : Option Time
  pub clock : Time
  pub image_reference : Option String
  pub image_id : Option String
  pub repository_identity : Option String
  pub commit : Option String
  pub tree : Option String
  pub snapshot_id : Option String
  pub manifest_fingerprint : Option String

abbrev pub authorization_kind : String
authorization_kind = "repo_health_execution_authorization"

abbrev pub legacy_schema_version : String
legacy_schema_version = "0.1-draft"

abbrev pub image_bound_schema_version : String
image_bound_schema_version = "0.2-draft"

abbrev pub authorization_schema_version : String
authorization_schema_version = "0.3-draft"

abbrev pub authorization_schema_versions : List String
authorization_schema_versions =
    legacy_schema_version ∷ image_bound_schema_version ∷ authorization_schema_version ∷ []

abbrev pub base_top_level_fields : List String
base_top_level_fields =
    "authorization_kind" ∷ "schema_version" ∷ "approved" ∷ "approved_by" ∷ "approved_at"
    ∷ "expires_at" ∷ "approved_scope" ∷ "approved_argv" ∷ "approved_policy_version"
    ∷ "based_on_gate_decision" ∷ "subject" ∷ "limitations" ∷ "residual_risks" ∷ []

abbrev pub image_bound_fields : List String
image_bound_fields = base_top_level_fields ++ "approved_image" ∷ []

abbrev pub based_on_fields : List String
based_on_fields = "decision_kind" ∷ "schema_version" ∷ "verdict" ∷ "fingerprint" ∷ []

abbrev pub legacy_subject_fields : List String
legacy_subject_fields = "repo" ∷ "commit" ∷ "tree_hash" ∷ []

abbrev pub subject_fields : List String
subject_fields = "repo" ∷ "commit" ∷ "tree_hash" ∷ "snapshot_id" ∷ "manifest_fingerprint" ∷ []

abbrev pub disallowed_gate_verdicts : List String
disallowed_gate_verdicts = "block" ∷ "quarantine" ∷ "unknown" ∷ []

-- `TOP_LEVEL_FIELDS_BY_VERSION.get(schema_version, BASE_TOP_LEVEL_FIELDS)`
pub version_fields : Value → Py (List String)
version_fields (list vs) = raise type_error
version_fields (dict d) = raise type_error
version_fields v = ok (
    if is_text v image_bound_schema_version || is_text v authorization_schema_version
    then image_bound_fields
    else base_top_level_fields)

pub top_level_invalid : Fields → Py Bool
top_level_invalid a = version_fields (get "schema_version" a) >>= λ allowed.
    ok (not (subset base_top_level_fields (keys a)) || not (subset (keys a) allowed))

-- `v in {True, False}`: the numbers 0 and 1 are in that set
pub boolean_like : Value → Py Bool
boolean_like (list vs) = raise type_error
boolean_like (dict d) = raise type_error
boolean_like v = ok (is_num v (pos 1) || is_num v (pos 0))

abbrev pub is_current : Fields → Bool
is_current a = is_text (get "schema_version" a) authorization_schema_version

abbrev pub text_items : List String → Items
text_items [] = nil
text_items (s ∷ ss) = cons (str s) (text_items ss)

-- `approved_argv == list(argv) and all(isinstance(item, str) and item ...)`
pub same_argv : List String → Value → Bool
same_argv argv (list vs) =
    equal (list vs) (list (text_items argv)) && all non_empty_string (items vs)
same_argv argv _ = false

pub argv_matches : Fields → List String → Bool
unfolding same_argv
argv_matches a argv = same_argv argv (get "approved_argv" a)

pub scope_matches : Fields → GateSubject → Bool
scope_matches a s =
    equal (dict (mapping (get "approved_scope" a)))
      (dict (if is_current a then subject_dict s else legacy_subject_dict s))

pub policy_matches : Fields → Fields → Bool
policy_matches a gate = equal (get "approved_policy_version" a) (policy_version gate)

pub subject_fields_match : Fields → Bool
subject_fields_match a =
    same_set (keys (mapping (get "subject" a)))
      (if is_current a then subject_fields else legacy_subject_fields)

pub subject_matches : Fields → GateSubject → Bool
subject_matches a s =
    equal (dict (mapping (get "subject" a)))
      (dict (if is_current a then bound_subject s else legacy_bound_subject s))

pub snapshot_binding_present : Fields → Bool
snapshot_binding_present a =
    let subject = mapping (get "subject" a) in
    let scope = mapping (get "approved_scope" a) in
    is_current a
    && (fingerprint (get "snapshot_id" subject)
        && (fingerprint (get "manifest_fingerprint" subject)
            && (fingerprint (get "snapshot_id" scope)
                && fingerprint (get "manifest_fingerprint" scope))))

-- `expected is None or value == expected`
abbrev pub unless_expected : Option String → Value → Bool
unless_expected none v = true
unless_expected (some s) v = is_text v s

-- One entry, the same in the subject, the scope and the gate's subject, and as expected at run time.
pub entry_matches : String → Fields → Value → Option String → Bool
entry_matches name a gate_value expected =
    let subject = get name (mapping (get "subject" a)) in
    let scope = get name (mapping (get "approved_scope" a)) in
    equal subject gate_value && (equal scope gate_value && unless_expected expected subject)

-- `expected is None or (subject == expected and scope == expected and gate == expected)`
pub runtime_matches : String → Fields → Value → Option String → Bool
runtime_matches name a gate_value none = true
runtime_matches name a gate_value (some s) =
    is_text (get name (mapping (get "subject" a))) s
    && (is_text (get name (mapping (get "approved_scope" a))) s && is_text gate_value s)

pub snapshot_id_matches : Fields → GateSubject → Expected → Bool
unfolding entry_matches snapshot_binding_present
snapshot_id_matches a s x =
    snapshot_binding_present a && entry_matches "snapshot_id" a s.snapshot_id x.snapshot_id

pub manifest_matches : Fields → GateSubject → Expected → Bool
unfolding entry_matches snapshot_binding_present
manifest_matches a s x =
    snapshot_binding_present a
    && entry_matches "manifest_fingerprint" a s.manifest_fingerprint x.manifest_fingerprint

pub snapshot_matches : Fields → GateSubject → Expected → Bool
unfolding runtime_matches snapshot_id_matches manifest_matches
snapshot_matches a s x =
    runtime_matches "repo" a (str s.repo) x.repository_identity
    && (runtime_matches "commit" a s.commit x.commit
        && (runtime_matches "tree_hash" a s.tree_hash x.tree
            && (snapshot_id_matches a s x && manifest_matches a s x)))

abbrev pub unresolved_reason : String
unresolved_reason = "authorization_snapshot_binding_unresolved"

abbrev pub mismatch_reason : String
mismatch_reason = "authorization_snapshot_binding_mismatch"

pub snapshot_check : Fields → GateSubject → Expected → Check
snapshot_check a s x =
    if is_current a
    then (if not (snapshot_binding_present a) || not (s.binding_kind == "snapshot_bound")
        then ok (unresolved_reason ∷ [])
        else flag (not (snapshot_matches a s x)) mismatch_reason)
    else ok []

abbrev pub current_time : Expected → Time
current_time x = elim x.now [ none ↦ x.clock | some t ↦ t ]

pub image_binding : Fields → Expected → ImageBinding
image_binding a x =
    if has_key "approved_image" a
      && (is_text (get "schema_version" a) image_bound_schema_version || is_current a)
    then validate_image_binding (get "approved_image" a) x.image_reference x.image_id
    else record { errors = []; reference_matches = false; id_matches = false }

-- `limitations`, with a note where no image is bound
authorization_limitations : Fields → List String
authorization_limitations a =
    let given = string_items (get "limitations" a) in
    if not (has_key "approved_image" a) && not (contains given "authorization_not_image_bound")
    then given ++ "authorization_not_image_bound" ∷ []
    else given

module _ (rt : Runtime) where
  -- `datetime.fromisoformat(text.replace("Z", "+00:00"))`
  abbrev pub parsed : String → Option Time
  parsed s = rt.parse_time (replace b'Z' "+00:00" s)

  -- What `_not_expired` appends; it returns True where it appends nothing.
  pub expiry_errors : Value → Time → List String
  expiry_errors (str s) current = if s == "" then "expires_at_required" ∷ [] else elim (parsed s) [
    | none ↦ "expires_at_invalid" ∷ []
    | some expires ↦
        if not (ltb_ℤ current.ticks expires.ticks) then "authorization_expired" ∷ [] else []
  ]
  expiry_errors _ current = "expires_at_required" ∷ []

  pub approved_at_errors : Value → List String
  approved_at_errors (str s) =
      if s == ""
      then "approved_at_required" ∷ []
      else elim (parsed s) [ none ↦ "approved_at_invalid" ∷ [] | some t ↦ [] ]
  approved_at_errors _ = "approved_at_required" ∷ []

  -- `_approved_metadata_valid`
  pub metadata_errors : Fields → List String
  unfolding approved_at_errors
  metadata_errors a =
      if is_true (get "approved" a)
      then (if non_empty_string (get "approved_by" a) then [] else "approved_by_required" ∷ [])
        ++ approved_at_errors (get "approved_at" a)
      else []

  pub based_on_matches : Fields → Fields → Bool
  based_on_matches a gate =
      equal (dict (mapping (get "based_on_gate_decision" a))) (dict (gate_reference rt gate))

  pub verdict_check : Value → Check
  verdict_check v = member disallowed_gate_verdicts v >>= λ disallowed.
      if disallowed
      then ok (format ("gate_verdict_" ∷ text_of rt v ∷ "_cannot_be_authorized" ∷ []) ∷ [])
      else flag (not (is_text v "warn") && not (is_text v "allow_limited"))
          "gate_verdict_invalid_for_authorization"

  -- All that `validate_execution_authorization` appends to `errors`, in order.
  pub authorization_checks : Fields → Fields → List String → Expected → List Check
  unfolding version_fields top_level_invalid boolean_like argv_matches scope_matches policy_matches
      subject_fields_match subject_matches snapshot_binding_present snapshot_matches snapshot_check
      image_binding expiry_errors metadata_errors based_on_matches verdict_check
  authorization_checks a gate argv x =
      let s = gate_subject rt gate in
      flag_if (top_level_invalid a) "authorization_top_level_required_or_unknown_field"
      ∷ flag (not (is_text (get "authorization_kind" a) authorization_kind))
          "authorization_kind_unsupported"
      ∷ flag_if (not_member authorization_schema_versions (get "schema_version" a))
          "authorization_schema_version_unsupported"
      ∷ flag (not (is_true (get "approved" a))) "approval_missing"
      ∷ flag_if (boolean_like (get "approved" a) >>= λ b. ok (not b)) "approved_must_be_boolean"
      ∷ flag (is_empty (string_items (get "limitations" a))) "limitations_empty"
      ∷ flag (is_empty (string_items (get "residual_risks" a))) "residual_risks_empty"
      ∷ flag (not (scope_matches a s)) "approved_scope_mismatch"
      ∷ flag (not (argv_matches a argv)) "approved_argv_mismatch"
      ∷ flag (not (policy_matches a gate)) "approved_policy_version_mismatch"
      ∷ flag (not (same_set (keys (mapping (get "based_on_gate_decision" a))) based_on_fields))
          "based_on_gate_decision_required_or_unknown_field"
      ∷ flag (not (based_on_matches a gate)) "based_on_gate_decision_mismatch"
      ∷ flag (not (subject_fields_match a)) "authorization_subject_required_or_unknown_field"
      ∷ flag (not (subject_matches a s)) "authorization_subject_mismatch"
      ∷ snapshot_check a s x
      ∷ ok (expiry_errors (get "expires_at" a) (current_time x))
      ∷ ok (metadata_errors a)
      ∷ ok ((image_binding a x).errors)
      ∷ verdict_check (get "verdict" gate)
      ∷ flag (contains_forbidden_pattern (dict a)) "authorization_contains_forbidden_raw_pattern"
      ∷ flag (contains_raw_host_path (dict a)) "authorization_contains_raw_host_path"
      ∷ []

  pub must_be_object : ExecutionAuthorizationValidationResult
  must_be_object = record {
    valid = false;
    approved = false;
    execution_authorized = false;
    blocking_errors = "authorization_must_be_object" ∷ [];
    warnings = [];
    scope_matches = false;
    argv_matches = false;
    policy_matches = false;
    not_expired = false;
    based_on_gate_decision_matches = false;
    image_binding_present = false;
    image_reference_matches = false;
    image_id_matches = false;
    snapshot_binding_present = false;
    snapshot_id_matches = false;
    manifest_fingerprint_matches = false;
    limitations = [];
    residual_risks = "invalid_authorization_input" ∷ [];
  }

  -- `_result`, of what the function has computed beside its errors
  pub authorization_result :
      Fields
      → Fields
      → List String
      → Expected
      → List String
      → ExecutionAuthorizationValidationResult
  unfolding authorization_limitations
  authorization_result a gate argv x errors =
      let s = gate_subject rt gate in
      record {
        valid = is_empty errors;
        approved = is_true (get "approved" a);
        execution_authorized = is_empty errors && is_true (get "approved" a);
        blocking_errors = dedupe errors;
        warnings =
            if is_text (get "verdict" gate) "warn"
            then "warn_verdict_authorization_requires_explicit_human_acceptance" ∷ []
            else [];
        scope_matches = scope_matches a s;
        argv_matches = argv_matches a argv;
        policy_matches = policy_matches a gate;
        not_expired = is_empty (expiry_errors (get "expires_at" a) (current_time x));
        based_on_gate_decision_matches = based_on_matches a gate;
        image_binding_present = has_key "approved_image" a;
        image_reference_matches = (image_binding a x).reference_matches;
        image_id_matches = (image_binding a x).id_matches;
        snapshot_binding_present = snapshot_binding_present a;
        snapshot_id_matches = snapshot_id_matches a s x;
        manifest_fingerprint_matches = manifest_matches a s x;
        limitations = authorization_limitations a;
        residual_risks = string_items (get "residual_risks" a);
      }

  unfoldable pub validate_execution_authorization :
      Value → Fields → List String → Expected → Py ExecutionAuthorizationValidationResult
  unfolding authorization_checks authorization_result must_be_object
  validate_execution_authorization (dict a) gate argv x =
      collect (authorization_checks a gate argv x) >>= λ errors.
      ok (authorization_result a gate argv x errors)
  validate_execution_authorization _ gate argv x = ok must_be_object
