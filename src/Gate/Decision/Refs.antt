-- ===== src/Gate/Decision/Refs.antt =====
-- gate/validation.py: the references to external evidence and to sandbox runs in a gate decision.
use Prim.Native.Char.{code}
use repo_health_doctor.Base.{
  String, count, Bool, true, false, not, ◌&&◌, ◌||◌, none, some, List, [], ◌∷◌, ◌==◌, eqb, ltb, leb,
  if◌then◌else◌, length, is_empty, all, subset, dedupe,
}
use repo_health_doctor.Base.Int.{pos}
use repo_health_doctor.Base.Py.{Py, ok, Check, flag, flag_if, collect}
use repo_health_doctor.Json.{
  Value, null, int, str, list, dict, Fields, end, field, items, keys, get, is_null, is_str, is_bool,
  is_text, not_member, strings, closed_dict,
}
use repo_health_doctor.Json.Fingerprint.{fingerprint, all_hex}
use repo_health_doctor.Json.Runtime.{Runtime, replace}

abbrev pub external_evidence_ref_fields : List String
external_evidence_ref_fields =
    "report_kind" ∷ "report_fingerprint" ∷ "generated_at" ∷ "subject" ∷ "size_bytes" ∷ "truncated"
    ∷ "validation_status" ∷ "reasons" ∷ []

abbrev pub sandbox_evidence_ref_fields : List String
sandbox_evidence_ref_fields =
    "report_kind" ∷ "report_fingerprint" ∷ "run_id" ∷ "gate_decision_fingerprint" ∷ "snapshot_id"
    ∷ "manifest_fingerprint" ∷ "validation_status" ∷ "reasons" ∷ []

abbrev evidence_ref_subject_fields : List String
evidence_ref_subject_fields = "repo_commit" ∷ "dirty_state" ∷ []

abbrev pub evidence_ref_reasons : List String
evidence_ref_reasons =
    "external_evidence_invalid" ∷ "external_evidence_fingerprint_mismatch"
    ∷ "external_evidence_stale" ∷ "external_evidence_subject_mismatch"
    ∷ "external_evidence_over_budget" ∷ "external_evidence_duplicate"
    ∷ "external_evidence_truncated" ∷ []

abbrev pub sandbox_evidence_ref_reasons : List String
sandbox_evidence_ref_reasons =
    "sandbox_evidence_invalid" ∷ "sandbox_evidence_fingerprint_mismatch" ∷ "sandbox_evidence_stale"
    ∷ "sandbox_evidence_subject_mismatch" ∷ "sandbox_evidence_policy_mismatch"
    ∷ "sandbox_evidence_over_budget" ∷ "sandbox_evidence_duplicate" ∷ "sandbox_evidence_truncated"
    ∷ []

-- not a list, too long, with a value that is no string, with a repetition, or with an unknown reason
pub reasons_invalid : List String → Value → Bool
reasons_invalid allowed (list vs) =
    ltb (length allowed) (length (items vs))
    || not (all is_str (items vs))
    || not (eqb (length (items vs)) (length (dedupe (strings (items vs)))))
    || not (subset (strings (items vs)) allowed)
reasons_invalid allowed _ = true

-- `value is not None and not test(value)`
abbrev pub present_and_not : (Value → Bool) → Value → Bool
present_and_not test v = not (is_null v) && not (test v)

commit_like : Value → Bool
commit_like (str s) = (eqb (count s) 40 || eqb (count s) 64) && all_hex s
commit_like _ = false

-- `isinstance(v, int) and not isinstance(v, bool) and v >= 0`
natural : Value → Bool
natural (int (pos n)) = true
natural _ = false

-- `report_kind not in {"real_scanner_suite", None}`
report_kind_invalid : Value → Py Bool
report_kind_invalid null = ok false
report_kind_invalid v = not_member ("real_scanner_suite" ∷ []) v

ref_subject_checks : Value → Check
unfolding commit_like
ref_subject_checks (dict end) = ok []
ref_subject_checks (dict (field k v d)) =
    let s = field k v d in
    if not (subset (keys s) evidence_ref_subject_fields)
    then ok ("evidence_ref_subject_invalid" ∷ [])
    else collect (
        flag (present_and_not commit_like (get "repo_commit" s))
          "evidence_ref_subject_repo_commit_invalid"
        ∷ flag_if
            (not_member ("clean" ∷ "dirty" ∷ "unknown" ∷ "not_applicable" ∷ [])
              (get "dirty_state" s))
            "evidence_ref_subject_dirty_state_invalid"
        ∷ [])
ref_subject_checks _ = ok ("evidence_ref_subject_invalid" ∷ [])

module _ (rt : Runtime) where
  -- `_is_timestamp`
  is_timestamp : Value → Bool
  is_timestamp (str s) =
      not (s == "")
      && elim (rt.parse_time (replace b'Z' "+00:00" s)) [ none ↦ false | some t ↦ t.aware ]
  is_timestamp _ = false

  -- `character.isalnum() or character in "._:-"`
  run_id_chars : String → Bool
  run_id_chars String.[] = true
  run_id_chars (String.◌∷◌ ch s) =
      let c = code ch in
      (rt.is_alnum c || eqb c b'.' || eqb c b'_' || eqb c b':' || eqb c b'-') && run_id_chars s

  run_id : Value → Bool
  unfolding run_id_chars
  run_id (str s) = not (s == "") && leb (count s) 128 && run_id_chars s
  run_id _ = false

  pub external_ref_checks : Fields → List Check
  unfolding is_timestamp reasons_invalid natural report_kind_invalid ref_subject_checks
  external_ref_checks r =
      flag_if (report_kind_invalid (get "report_kind" r)) "evidence_ref_report_kind_invalid"
      ∷ flag (present_and_not fingerprint (get "report_fingerprint" r))
          "evidence_ref_fingerprint_invalid"
      ∷ flag (present_and_not is_timestamp (get "generated_at" r))
          "evidence_ref_generated_at_invalid"
      ∷ ref_subject_checks (get "subject" r)
      ∷ flag (present_and_not natural (get "size_bytes" r)) "evidence_ref_size_bytes_invalid"
      ∷ flag (not (is_bool (get "truncated" r))) "evidence_ref_truncated_invalid"
      ∷ flag_if (not_member ("valid" ∷ "invalid" ∷ []) (get "validation_status" r))
          "evidence_ref_validation_status_invalid"
      ∷ flag (reasons_invalid evidence_ref_reasons (get "reasons" r)) "evidence_ref_reasons_invalid"
      ∷ []

  -- `_validate_sandbox_evidence_ref`
  pub sandbox_ref_checks : Fields → List Check
  unfolding run_id reasons_invalid
  sandbox_ref_checks r =
      flag (present_and_not fingerprint (get "report_fingerprint" r))
        "evidence_ref_report_fingerprint_invalid"
      ∷ flag (present_and_not fingerprint (get "gate_decision_fingerprint" r))
          "evidence_ref_gate_decision_fingerprint_invalid"
      ∷ flag (not (fingerprint (get "snapshot_id" r))) "evidence_ref_snapshot_id_invalid"
      ∷ flag (not (fingerprint (get "manifest_fingerprint" r)))
          "evidence_ref_manifest_fingerprint_invalid"
      ∷ flag (present_and_not run_id (get "run_id" r)) "evidence_ref_run_id_invalid"
      ∷ flag_if (not_member ("valid" ∷ "invalid" ∷ []) (get "validation_status" r))
          "evidence_ref_validation_status_invalid"
      ∷ flag (reasons_invalid sandbox_evidence_ref_reasons (get "reasons" r))
          "evidence_ref_reasons_invalid"
      ∷ []

  -- one round of the loop of `_validate_evidence_refs`
  pub ref_check : Value → Check
  unfolding external_ref_checks sandbox_ref_checks
  ref_check (dict r) =
      if is_text (get "report_kind" r) "sandbox_run"
      then collect (
          closed_dict (dict r) sandbox_evidence_ref_fields "evidence_ref"
          ∷ collect (sandbox_ref_checks r)
          ∷ [])
      else collect (
          closed_dict (dict r) external_evidence_ref_fields "evidence_ref"
          ∷ collect (external_ref_checks r)
          ∷ [])
  ref_check _ = ok ("evidence_ref_must_be_object" ∷ [])

  ref_checks : List Value → List Check
  unfolding ref_check
  ref_checks [] = []
  ref_checks (v ∷ vs) = ref_check v ∷ ref_checks vs

  unfoldable pub validate_evidence_refs : Value → Check
  unfolding ref_checks
  validate_evidence_refs (list vs) =
      if is_empty (items vs) || ltb 16 (length (items vs))
      then ok ("evidence_refs_invalid" ∷ [])
      else collect (ref_checks (items vs))
  validate_evidence_refs _ = ok ("evidence_refs_invalid" ∷ [])
