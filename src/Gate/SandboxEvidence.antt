-- ===== src/Gate/SandboxEvidence.antt =====
-- gate/sandbox_evidence.py: validate_sandbox_run_evidence. The evidence_ref of the result is left out.
pub mod Shape
pub mod WellFormed
pub mod Current
pub mod Judged
use repo_health_doctor.Base.{
  ℕ, ◌*◌, String, Bool, true, false, not, ◌&&◌, ◌||◌, Option, none, some, List, [], ◌∷◌, ◌++◌, ◌==◌,
  all, contains, dedupe, is_empty, if◌then◌else◌,
}
use repo_health_doctor.Base.Int.{ℤ, pos, negsuc, pos_part, ltb_ℤ, ◌+ℤ◌}
use repo_health_doctor.Base.Py.{Py, ok, raise, value_error, ◌>>=◌}
use repo_health_doctor.Json.{
  Value, str, list, dict, Fields, end, field, get, is_dict, is_null, is_text, mapping, string_items,
}
use repo_health_doctor.Json.Equality.{equal}
use repo_health_doctor.Json.Fingerprint.{fingerprint}
use repo_health_doctor.Json.Runtime.{Runtime, Time}
use repo_health_doctor.Sandbox.Labels.{observer_label}
use repo_health_doctor.Sandbox.Policy.Default.{texts}
use repo_health_doctor.Gate.Authorization.Artifact.{parsed}
use repo_health_doctor.Evidence.SandboxRun.{flagged, report_fingerprint}
use repo_health_doctor.Evidence.SandboxRun.Normalized.{normalize_sandbox_run_evidence}
use repo_health_doctor.Gate.SandboxEvidence.Shape.{source_shape_errors}

-- the arguments beside the report; `now` is the clock where the caller gives no time
pub record Expected : Type 0 where
  pub subject : Option Fields
  pub policy_version : Option String
  pub now : Time
  pub max_age_seconds : ℤ
  pub max_bytes : ℤ
  pub source_size_bytes : Option ℤ
  pub total_over_budget : Bool
  pub seen_fingerprints : List String

pub record SandboxRunEvidenceValidationResult : Type 0 where
  pub valid : Bool
  pub status : String
  pub reasons : List String
  pub validation_errors : List String
  pub normalized_evidence : Fields

-- what stands against the report
pub record Faults : Type 0 where
  pub validation_errors : List String
  pub fingerprint_mismatch : Bool
  pub stale : Bool
  pub subject_mismatch : Bool
  pub policy_mismatch : Bool
  pub over_budget : Bool
  pub duplicate : Bool
  pub truncated : Bool

abbrev pub is_invalid : Faults → Bool
is_invalid f = not (is_empty f.validation_errors) || f.fingerprint_mismatch

abbrev pub reason_flags : Faults → List (Bool × String)
reason_flags f =
    (is_invalid f, "sandbox_evidence_invalid")
    ∷ (f.fingerprint_mismatch, "sandbox_evidence_fingerprint_mismatch")
    ∷ (f.stale, "sandbox_evidence_stale")
    ∷ (f.subject_mismatch, "sandbox_evidence_subject_mismatch")
    ∷ (f.policy_mismatch, "sandbox_evidence_policy_mismatch")
    ∷ (f.over_budget, "sandbox_evidence_over_budget")
    ∷ (f.duplicate, "sandbox_evidence_duplicate")
    ∷ (f.truncated, "sandbox_evidence_truncated")
    ∷ []

unfoldable pub reasons_of : Faults → List String
reasons_of f = dedupe (flagged (reason_flags f))

-- what validation appends to the decision signals, of the reasons
abbrev pub signal_flags : List String → List (Bool × String)
signal_flags reasons =
    (
      contains reasons "sandbox_evidence_invalid"
          || contains reasons "sandbox_evidence_duplicate"
          || contains reasons "sandbox_evidence_policy_mismatch",
      "sandbox_evidence_invalid",
    )
    ∷ (contains reasons "sandbox_evidence_stale", "sandbox_evidence_stale")
    ∷ (contains reasons "sandbox_evidence_subject_mismatch", "subject_binding_mismatch")
    ∷ (contains reasons "sandbox_evidence_over_budget", "sandbox_evidence_over_budget")
    ∷ (contains reasons "sandbox_evidence_truncated", "sandbox_evidence_truncated")
    ∷ []

unfoldable pub validated_signals : List String → List String → List String
validated_signals signals reasons = signals ++ flagged (signal_flags reasons)

-- `d[key] = value`
abbrev pub set_item : String → Value → Fields → Fields
set_item k v end = field k v end
set_item k v (field j w d) =
    let rest = set_item k v d in if j == k then field k v d else field j w rest

abbrev pub matched_fields : List String
matched_fields =
    "repo" ∷ "commit" ∷ "tree_hash" ∷ "snapshot_id" ∷ "manifest_fingerprint" ∷ "binding_kind" ∷ []

-- `_mapping_matches`
unfoldable pub mapping_matches : Fields → Fields → Bool
mapping_matches actual expected = all (λ k. equal (get k actual) (get k expected)) matched_fields

abbrev pub when : Bool → String → List String
when true s = s ∷ []
when false s = []

-- `_SAFE_RUN_ID.fullmatch` of a text
unfoldable pub safe_run_id : Value → Bool
unfolding observer_label
safe_run_id (str s) = observer_label s
safe_run_id _ = false

abbrev pub subject_differs : Value → Option Fields → Bool
subject_differs subject none = false
subject_differs subject (some expected) =
    not (is_dict subject) || not (mapping_matches (mapping subject) expected)

abbrev pub version_differs : Value → Option String → Bool
version_differs version none = false
version_differs version (some expected) = not (is_text version expected)

abbrev pub exceeds : Option ℤ → ℤ → Bool
exceeds none max_bytes = false
exceeds (some size) max_bytes = ltb_ℤ max_bytes size

module _ (rt : Runtime) where
  -- `_parse_timestamp`, of a time that UTC can represent
  unfoldable pub parse_timestamp : Value → Option Time
  parse_timestamp (str s) =
      if s == ""
      then none
      else elim (parsed rt s) [ none ↦ none | some t ↦ if t.aware then some t else none ]
  parse_timestamp _ = none

  -- times in microseconds
  abbrev pub is_stale : Option Time → Time → ℤ → Bool
  is_stale none now max_age = false
  is_stale (some t) now max_age = ltb_ℤ (t.ticks +ℤ pos (pos_part max_age * 1000000)) now.ticks

  abbrev pub time_errors : Option Time → Time → List String
  time_errors none now = "generated_at_invalid" ∷ []
  time_errors (some t) now =
      when (ltb_ℤ (now.ticks +ℤ pos (300 * 1000000)) t.ticks) "generated_at_in_future"

  abbrev pub claimed_errors : Value → List String
  claimed_errors v = when (not (is_null v) && not (fingerprint v)) "report_fingerprint_invalid"

  abbrev pub source_errors : Value → List String
  source_errors (dict source) = source_shape_errors source
  source_errors _ = "schema_input_must_be_object" ∷ []

  -- the faults of a report and of its normalized form
  unfoldable pub faults : Expected → Value → Fields → Faults
  unfolding parse_timestamp
  faults o report evidence =
      let claimed = get "report_fingerprint" (mapping report) in
      let computed = report_fingerprint rt (mapping report) in
      let signals = string_items (get "decision_signals" evidence) in
      let generated_at = parse_timestamp (get "generated_at" evidence) in
      record {
        validation_errors =
            source_errors report
            ++ (claimed_errors claimed
                ++ (when (contains signals "sandbox_evidence_invalid")
                      "sandbox_report_shape_invalid"
                    ++ (when (not (safe_run_id (get "run_id" evidence))) "run_id_invalid"
                        ++ (when
                              (not (
                                fingerprint
                                  (get "decision_fingerprint" (mapping (get "gate" evidence)))))
                              "gate_decision_fingerprint_invalid"
                            ++ time_errors generated_at o.now))));
        fingerprint_mismatch =
            is_dict report && fingerprint claimed && not (is_text claimed computed);
        stale = is_stale generated_at o.now o.max_age_seconds;
        subject_mismatch = subject_differs (get "subject" evidence) o.subject;
        policy_mismatch =
            version_differs (get "version" (mapping (get "policy" evidence))) o.policy_version;
        over_budget = o.total_over_budget || exceeds o.source_size_bytes o.max_bytes;
        duplicate = is_dict report && contains o.seen_fingerprints computed;
        truncated = contains signals "sandbox_evidence_truncated";
      }

  unfoldable pub judged : Faults → Fields → SandboxRunEvidenceValidationResult
  unfolding reasons_of validated_signals
  judged f evidence =
      let reasons = reasons_of f in
      let signals = string_items (get "decision_signals" evidence) in
      record {
        valid = is_empty reasons;
        status = if is_empty reasons then "valid" else "invalid";
        reasons = reasons;
        validation_errors = dedupe f.validation_errors;
        normalized_evidence =
            set_item "decision_signals" (list (texts (dedupe (validated_signals signals reasons))))
              evidence;
      }

  -- `raise ValueError` on a bound or a size that makes no sense
  abbrev pub senseless : Expected → Bool
  senseless o =
      not (ltb_ℤ (pos 0) o.max_age_seconds)
      || not (ltb_ℤ (pos 0) o.max_bytes)
      || negative o.source_size_bytes
    where
      negative : Option ℤ → Bool
      negative none = false
      negative (some size) = ltb_ℤ size (pos 0)

  unfoldable pub validate_sandbox_run_evidence :
      Expected → Value → Py SandboxRunEvidenceValidationResult
  unfolding faults judged
  validate_sandbox_run_evidence o report =
      let result = normalize_sandbox_run_evidence rt report >>= λ evidence.
      ok (judged (faults o report evidence) evidence) in
      if senseless o then raise value_error else result
