-- ===== src/Evidence/SandboxRun/Normalized.antt =====
-- evidence/sandbox_run.py: the evidence that normalize_sandbox_run_evidence returns.
use repo_health_doctor.Base.{
  String, Bool, not, ◌&&◌, Option, some, List, [], ◌∷◌, ◌==◌, if◌then◌else◌,
}
use repo_health_doctor.Base.Py.{Py, ok, ◌>>=◌}
use repo_health_doctor.Json.{
  Value, null, bool, str, list, dict, Fields, end, field, get, is_dict, is_int, is_text, is_true,
  truth, mapping, not_member,
}
use repo_health_doctor.Json.Runtime.{Runtime}
use repo_health_doctor.Sandbox.Policy.Default.{texts}
use repo_health_doctor.Evidence.SandboxRun.Texts.{
  safe_label, safe_image, object_id, first_fingerprint, or_else, or_text, or_null,
}
use repo_health_doctor.Evidence.SandboxRun.{
  found, decision_signals, subject_candidate, snapshot_fields, policy_version, runner_kind, is_dry,
  observer_status, cleanup_status, binding_status, execution_category, report_fingerprint,
  run_times, non_negative_int,
}

-- a dict from its items, before those of `rest`
abbrev pub of_pairs : List (String × Value) → Fields → Fields
of_pairs [] rest = rest
of_pairs ((k, v) ∷ ps) rest = field k v (of_pairs ps rest)

abbrev pub pairs : List (String × Value) → Value
pairs ps = dict (of_pairs ps end)

-- `_subject`
unfoldable pub subject_of : Fields → Fields → Fields → Fields → Fields
unfolding safe_label object_id first_fingerprint
subject_of source target gate snapshot =
    let candidate = subject_candidate source target gate in
    let id = first_fingerprint (get "snapshot_id" candidate ∷ get "snapshot_id" snapshot ∷ []) in
    let manifest =
      first_fingerprint
        (get "manifest_fingerprint" candidate ∷ get "manifest_fingerprint" snapshot ∷ []) in
    field "repo"
      (str (
        or_text
          (or_else (safe_label (get "repo" candidate)) (
            or_else (safe_label (get "repo_identity" candidate))
              (safe_label (get "identity" target))))
          "<repo>"))
      (field "commit"
        (or_null
          (or_else (object_id (get "commit" candidate)) (object_id (get "source_commit" snapshot))))
        (field "tree_hash"
          (or_null (
            or_else (object_id (get "tree_hash" candidate)) (
              or_else (object_id (get "tree" candidate)) (object_id (get "source_tree" snapshot)))))
          (field "binding_kind"
            (str (
              or_text (safe_label (get "binding_kind" candidate)) (
                if is_text (get "source_kind" snapshot) "git_commit"
                then "snapshot_bound"
                else (bound id manifest))))
            (snapshot_fields id manifest))))
  where
    bound : Option String → Option String → String
    bound (some id) (some manifest) = "path_bound"
    bound _ _ = "unbound"

-- `normalized["verified_snapshot"]`, where the subject has both fields
abbrev pub verified_snapshot : Fields → Fields
verified_snapshot end = end
verified_snapshot snapshot = field "verified_snapshot" (dict snapshot) end

abbrev pub exit_code : Fields → Fields → Value
exit_code source result =
    if not (is_int (get "exit_code" result)) && is_int (get "command_exit_code" source)
    then get "command_exit_code" source
    else get "exit_code" result

module _ (rt : Runtime) where
  unfoldable pub normalized : Bool → Fields → Bool → Fields
  unfolding found decision_signals subject_of safe_label safe_image first_fingerprint
  normalized given source other_kind =
      let r = found rt given source other_kind in
      let run = mapping (get "run" source) in
      let target = mapping (get "target" source) in
      let gate = mapping (get "gate" source) in
      let docker = mapping (get "docker" source) in
      let result = mapping (get "result" source) in
      let snapshot = mapping (get "verified_snapshot" source) in
      let diff = mapping (get "workspace_diff" source) in
      let dry_run = is_dry rt run result in
      let started = is_true (get "command_started" source) in
      let code = exit_code source result in
      let candidate = subject_candidate source target gate in
      of_pairs
        (("schema_version", str "0.1-draft")
          ∷ ("report_kind", str "sandbox_normalized_evidence")
          ∷ ("run_id", or_null (safe_label (get "run_id" run)))
          ∷ ("report_fingerprint", str (report_fingerprint rt source))
          ∷ ("subject", dict (subject_of source target gate snapshot))
          ∷ (
            "policy",
            pairs (
                ("version", or_null (policy_version source gate))
                ∷ ("blocked", bool r.policy_blocked)
                ∷ []),
          )
          ∷ (
            "gate",
            pairs (
                (
                  "decision_fingerprint",
                  or_null (
                      first_fingerprint (
                        get "decision_fingerprint" gate
                        ∷ get "fingerprint" gate
                        ∷ get "gate_decision_fingerprint" source
                        ∷ [])),
                )
                ∷ []),
          )
          ∷ ("generated_at", or_null (run_times rt run))
          ∷ (
            "runner",
            pairs (
                ("kind", str (runner_kind run docker))
                ∷ (
                  "real_execution",
                  bool (
                      runner_kind run docker == "docker"
                      && not dry_run
                      && truth (get "docker_invoked" docker)),
                )
                ∷ []),
          )
          ∷ (
            "execution",
            pairs (
                ("command_started", bool started)
                ∷ (
                  "exit_category",
                  str (
                      execution_category (get "status" result) r.policy_blocked r.timed_out
                        r.cleanup_failed r.observer_degraded dry_run started code),
                )
                ∷ ("exit_code", if is_int code then code else null)
                ∷ ("timed_out", bool r.timed_out)
                ∷ []),
          )
          ∷ ("cleanup", pairs (("status", str (cleanup_status rt source)) ∷ []))
          ∷ ("observer", pairs (("status", str (observer_status source)) ∷ []))
          ∷ (
            "binding",
            pairs (
                ("status", str (binding_status rt (mapping (get "authorization" source)) source).0)
                ∷ ("mismatch", bool r.binding_mismatch)
                ∷ []),
          )
          ∷ (
            "sandbox",
            pairs (
                (
                  "seccomp_profile",
                  or_null (safe_label (get "profile" (mapping (get "seccomp" source)))),
                )
                ∷ ("image", or_null (safe_image (get "image" docker)))
                ∷ []),
          )
          ∷ (
            "workspace_diff",
            pairs (
                ("created_count", non_negative_int (get "created_count" diff))
                ∷ ("modified_count", non_negative_int (get "modified_count" diff))
                ∷ ("deleted_count", non_negative_int (get "deleted_count" diff))
                ∷ []),
          )
          ∷ ("informational_notes", list (texts ("successful_execution_is_not_safety" ∷ [])))
          ∷ ("decision_signals", list (texts (decision_signals r)))
          ∷ (
            "limitations",
            list (
                texts (
                  "sandbox_run_report_is_bounded_evidence" ∷ "execution_result_is_not_safety_proof"
                  ∷ [])),
          )
          ∷ [])
        (verified_snapshot (
          snapshot_fields
            (first_fingerprint (get "snapshot_id" candidate ∷ get "snapshot_id" snapshot ∷ []))
            (first_fingerprint
              (get "manifest_fingerprint" candidate ∷ get "manifest_fingerprint" snapshot ∷ []))))

  -- what is no dict is read as an empty one
  unfoldable pub normalize_sandbox_run_evidence : Value → Py Fields
  unfolding normalized
  normalize_sandbox_run_evidence report =
      not_member ("sandbox_run" ∷ "sandbox_run_report" ∷ []) (get "report_kind" (mapping report))
      >>= λ other_kind. ok (normalized (is_dict report) (mapping report) other_kind)
