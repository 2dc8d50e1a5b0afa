-- ===== src/Evidence/SandboxRun.antt =====
-- evidence/sandbox_run.py: normalize_sandbox_run_evidence.
pub mod Texts
pub mod Normalized
use Prim.Native.String
use text.Mathlib.Text.{starts_with}
use repo_health_doctor.Base.{
  String, Bool, true, false, not, ◌&&◌, ◌||◌, Option, none, some, List, [], ◌∷◌, ◌++◌, ◌==◌, any,
  contains, has_text, if◌then◌else◌,
}
use repo_health_doctor.Base.Int.{ℤ, pos}
use repo_health_doctor.Base.Py.{Py, ok, ◌>>=◌}
use repo_health_doctor.Json.{
  Value, null, bool, int, str, list, dict, Items, nil, cons, Fields, end, field, get, get_or,
  is_dict, is_int, is_null, is_true, is_text, is_num, truth, items, mapping, not_member,
}
use repo_health_doctor.Json.Fingerprint.{fingerprint}
use repo_health_doctor.Json.Runtime.{Runtime, text_of}
use repo_health_doctor.Sandbox.Policy.{drop_key}
use repo_health_doctor.Sandbox.Policy.Default.{texts}
use repo_health_doctor.Evidence.SandboxRun.Texts.{
  safe_label, safe_timestamp, safe_image, object_id, first_fingerprint, label_of, or_else, or_text,
  or_null,
}

-- `next((item for item in candidates if item), {})`
abbrev pub first_filled : List Fields → Fields
first_filled [] = end
first_filled (end ∷ ds) = first_filled ds
first_filled (field k v d ∷ ds) = field k v d

abbrev pub is_end : Fields → Bool
is_end end = true
is_end (field k v d) = false

abbrev pub runner_kind : Fields → Fields → String
runner_kind run docker =
    if is_true (get "dry_run" run) then "dry_run" else runner_label (get "runner" docker)
  where
    runner_label : Value → String
    runner_label (str s) =
        if starts_with s "fake" then "fake" else or_text (label_of (str s)) "unknown"
    runner_label _ = "unknown"

-- `_observer_status`
abbrev pub observer_of : Fields → Fields
observer_of source = first_filled (
    mapping (get "observer" source)
    ∷ mapping (get "observer_evidence" source)
    ∷ mapping (get "observer" (mapping (get "sandbox" source)))
    ∷ [])

abbrev pub observer_degraded : Fields → Bool
observer_degraded source =
    is_text (get "status" (observer_of source)) "degraded"
    || is_true (get "observer_degraded" (observer_of source))
    || is_true (get "observer_degraded" source)

abbrev pub observer_status : Fields → String
observer_status source =
    if observer_degraded source
    then "degraded"
    else if is_end (observer_of source)
    then "not_recorded"
    else or_text (label_of (get "status" (observer_of source))) "recorded"

-- `_execution_category`
abbrev pub execution_category : Value → Bool → Bool → Bool → Bool → Bool → Bool → Value → String
execution_category status policy_blocked timed_out cleanup_failed degraded dry_run started code =
    if policy_blocked
    then "policy_blocked"
    else if timed_out
    then "timeout"
    else if cleanup_failed
    then "cleanup"
    else if degraded || is_text status "observer_degraded"
    then "observer"
    else if dry_run
    then "dry_run"
    else if is_text status "completed" && started && is_num code (pos 0)
    then "success"
    else if not started
    then "not_started"
    else "failure"

abbrev pub subject_candidate : Fields → Fields → Fields → Fields
subject_candidate source target gate =
    first_filled (mapping (get "subject" source) ∷ mapping (get "subject" gate) ∷ target ∷ [])

abbrev pub snapshot_fields : Option String → Option String → Fields
snapshot_fields (some id) (some manifest) =
    field "snapshot_id" (str id) (field "manifest_fingerprint" (str manifest) end)
snapshot_fields _ _ = end

-- `_non_negative_int`
abbrev pub non_negative_int : Value → Value
non_negative_int (int (pos n)) = int (pos n)
non_negative_int _ = int (pos 0)

-- `policy`, `gate` and the policy's version
abbrev pub policy_version : Fields → Fields → Option String
policy_version source gate =
    let policy = mapping (get "policy" source) in
    or_else (label_of (get "version" policy))
      (or_else (label_of (get "policy_version" policy)) (label_of (get "policy_version" gate)))

-- What normalize_sandbox_run_evidence finds before it writes the evidence.
pub record Run : Type 0 where
  pub invalid : Bool
  pub policy_blocked : Bool
  pub binding_mismatch : Bool
  pub timed_out : Bool
  pub cleanup_failed : Bool
  pub observer_degraded : Bool
  pub not_real : Bool
  pub stale : Bool
  pub truncated : Bool

-- `if flag: decision_signals.append(signal)`, for each flag and its signal
abbrev pub flagged : List (Bool × String) → List String
flagged [] = []
flagged ((flag, signal) ∷ rest) = if flag then signal ∷ flagged rest else flagged rest

abbrev pub flags : Run → List (Bool × String)
flags r =
    (r.policy_blocked, "execution_policy_blocked")
    ∷ (r.binding_mismatch, "subject_binding_mismatch")
    ∷ (r.timed_out, "execution_timeout")
    ∷ (r.cleanup_failed, "workspace_cleanup_failed")
    ∷ (r.observer_degraded, "observer_degraded")
    ∷ (r.not_real, "not_real_execution_evidence")
    ∷ (r.invalid, "sandbox_evidence_invalid")
    ∷ (r.stale, "sandbox_evidence_stale")
    ∷ (r.truncated, "sandbox_evidence_truncated")
    ∷ []

unfoldable pub decision_signals : Run → List String
decision_signals r = flagged (flags r)

module _ (rt : Runtime) where
  -- `sandbox_run_report_fingerprint`; `json.dumps` of a JSON-like value does not raise
  abbrev pub report_fingerprint : Fields → String
  report_fingerprint source =
      String.◌++◌ "sha256:" (rt.sha256_hex (rt.dumps (dict (drop_key "report_fingerprint" source))))

  -- a fingerprint that the report claims, and that is not its own
  abbrev pub fingerprint_wrong : Fields → Bool
  fingerprint_wrong source =
      not (is_null (get "report_fingerprint" source))
      && (not (fingerprint (get "report_fingerprint" source))
          || not (is_text (get "report_fingerprint" source) (report_fingerprint source)))

  abbrev pub binding_of : Fields → Fields → Fields
  binding_of authorization source = first_filled (
      mapping (get "snapshot_binding" authorization)
      ∷ mapping (get "worktree_binding" authorization)
      ∷ mapping (get "binding" source)
      ∷ [])

  abbrev pub names_mismatch : Value → Bool
  names_mismatch (list vs) = any (λ v. has_text "mismatch" (text_of rt v)) (items vs)
  names_mismatch _ = false

  -- `_binding_status`, for a binding that is not empty
  abbrev pub status_of_binding : Fields → String × Bool
  status_of_binding binding =
      let checked = is_true (get "checked" binding) in
      let matched = is_true (get "matched" binding) in
      let status = text_of rt (get_or (str "") "status" binding) in
      let refused = contains ("mismatch" ∷ "unresolved" ∷ "dirty" ∷ []) status in
      if checked && (not matched || refused)
      then ("mismatch", true)
      else if checked && matched
      then ("matched", false)
      else if refused
      then ("mismatch", true)
      else if names_mismatch (get "refusal_reasons" binding)
      then ("mismatch", true)
      else ("not_checked", false)

  abbrev pub binding_status : Fields → Fields → String × Bool
  binding_status authorization source =
      let binding = binding_of authorization source in
      if is_end binding then ("not_checked", false) else status_of_binding binding

  abbrev pub timed_out : Fields → Bool
  timed_out result = is_true (get "timed_out" result) || is_text (get "status" result) "timed_out"

  abbrev pub cleanup_status : Fields → String
  cleanup_status source =
      or_text (label_of (get "cleanup" (mapping (get "disposable_workspace" source))))
        "not_recorded"

  abbrev pub is_dry : Fields → Fields → Bool
  is_dry run result = is_true (get "dry_run" run) || is_text (get "status" result) "dry_run"

  abbrev pub run_times : Fields → Option String
  run_times run =
      or_else (safe_timestamp (get "ended_at" run)) (safe_timestamp (get "started_at" run))

  abbrev pub is_missing : Option String → Bool
  is_missing none = true
  is_missing (some s) = false

  -- `report` is a dict or not, with what `_mapping` makes of it, and the answer of the test on report_kind
  unfoldable pub found : Bool → Fields → Bool → Run
  unfolding fingerprint safe_label safe_timestamp label_of
  found given source other_kind =
      let run = mapping (get "run" source) in
      let result = mapping (get "result" source) in
      let gate = mapping (get "gate" source) in
      let docker = mapping (get "docker" source) in
      record {
        invalid =
            not given
            || not (is_text (get "schema_version" source) "0.1-draft")
            || other_kind
            || fingerprint_wrong source
            || is_missing (safe_label (get "run_id" run))
            || is_missing (run_times run);
        policy_blocked =
            is_true (get "policy_blocked" source) || is_true (get "policy_blocked" gate);
        binding_mismatch = (binding_status (mapping (get "authorization" source)) source).1;
        timed_out = timed_out result;
        cleanup_failed =
            cleanup_status source == "failed" || is_text (get "status" result) "cleanup_uncertain";
        observer_degraded = observer_degraded source;
        not_real = runner_kind run docker == "fake" || is_dry run result;
        stale = is_true (get "stale" source);
        truncated =
            is_true (get "truncated" source)
            || is_true (get "truncated" (mapping (get "workspace_diff" source)));
      }
