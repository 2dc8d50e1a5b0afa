-- ===== src/Examples/Artifacts.antt =====
-- Sample artifacts: an item of evidence, a gate decision, an approved authorization.
use repo_health_doctor.Base.{String, true, false, none, some, List, [], ◌∷◌}
use repo_health_doctor.Base.Int.{pos}
use repo_health_doctor.Json.{Value, null, bool, int, str, list, dict, nil, cons, Fields, end, field}
use repo_health_doctor.Json.Runtime.{Runtime}
use repo_health_doctor.Gate.Authorization.Artifact.{Expected}
use repo_health_doctor.Gate.Authorization.Snapshot.{Observed}

-- A runtime whose digests are one digest and whose every timestamp is one time.
abbrev pub runtime : Runtime
runtime = record {
  lower = λ s. s;
  repr = λ v. "";
  is_alnum = λ c. true;
  dumps = λ v. "";
  sha256_hex = λ s. "0123456789abcdef0123456789abcdef0123456789abcdef0123456789abcdef";
  parse_time = λ s. some (record { aware = true; ticks = pos 2000 });
}

abbrev pub digest : String
digest = "sha256:0123456789abcdef0123456789abcdef0123456789abcdef0123456789abcdef"

abbrev one : String → Value
one s = list (cons (str s) nil)

abbrev pub finding : Fields
finding = field "present" (bool true) (
    field "count" (int (pos 2))
      (field "locations" (list nil) (field "redacted_summary" (str "two findings") end)))

-- a count that is no number
abbrev pub broken_finding : Fields
broken_finding =
    field "present" (bool true)
      (field "count" null (field "locations" (list nil) (field "redacted_summary" (str "") end)))

abbrev pub evidence_with : Fields → String → String → Fields
evidence_with f level effect = field "evidence_id" (str "evidence-1") (
    field "schema_version" (str "0.1-draft") (
      field "evidence_kind" (str "repo_health_evidence") (
        field "source"
          (dict (
            field "tool_name" (str "gitleaks") (
              field "tool_version" (str "8") (
                field "adapter_name" (str "gitleaks") (
                  field "adapter_version" (str "1")
                    (field "execution_mode" (str "imported_report") end))))))
          (field "subject"
            (dict (
              field "repo_identity" (str "<repo>") (
                field "commit" null (
                  field "tree_hash" null (
                    field "path_scope" (list nil) (field "binding_kind" (str "path_bound") end))))))
            (field "classification"
              (dict (
                field "category" (str "secret") (
                  field "subcategory" (str "token") (
                    field "severity" (str "warn") (
                      field "confidence" (str "low")
                        (field "confidence_reason" (str "imported") end))))))
              (field "finding" (dict f) (
                field "raw_handling"
                  (dict (
                    field "raw_output_retained" (bool false) (
                      field "raw_stdout_retained" (bool false) (
                        field "raw_stderr_retained" (bool false) (
                          field "redaction_status" (str "redacted")
                            (field "redaction_failures" (list nil) end))))))
                  (field "trust"
                    (dict (
                      field "level" (str level) (
                        field "commit_bound" (bool false) (
                          field "signature_verified" (bool false) (
                            field "binary_attested" (bool false)
                              (field "limitations" (one "imported") end))))))
                    (field "effects"
                      (dict (
                        field "can_lower_risk" (bool false) (
                          field "can_authorize_execution" (bool false)
                            (field "recommended_gate_effect" (str effect) end))))
                      (field "residual_risks" (list nil) end))))))))))

abbrev pub subject : Fields
subject = field "repo" (str digest) (
    field "commit" (str "c0ffee") (
      field "tree_hash" (str "f00d") (
        field "snapshot_id" (str digest) (
          field "manifest_fingerprint" (str digest)
            (field "binding_kind" (str "snapshot_bound") end)))))

abbrev pub decision : Fields
decision = field "decision_kind" (str "repo_health_gate_decision") (
    field "schema_version" (str "0.1-draft") (
      field "subject" (dict subject) (
        field "verdict" (str "allow_limited") (
          field "execution_authorized" (bool false) (
            field "confidence" (str "medium") (
              field "confidence_reason" (str "evidence is bound") (
                field "explanation"
                  (dict (
                    field "summary" (str "nothing found")
                      (field "key_reasons" (one "none") (field "next_actions" (one "review") end))))
                  (field "evidence_summary"
                    (dict (
                      field "findings_count" (int (pos 0)) (
                        field "blocking_evidence" (list nil) (
                          field "warning_evidence" (list nil) (
                            field "missing_evidence" (list nil)
                              (field "degraded_observers" (list nil) end))))))
                    (field "required_actions" (list nil) (
                      field "limitations" (one "no_finding_is_not_safety_proof") (
                        field "policy"
                          (dict (
                            field "policy_version" (str "1") (field "fail_closed" (bool true) end)))
                          (field "residual_risks" (list nil) end))))))))))))

abbrev pub command : List String
command = "pytest" ∷ "-q" ∷ []

abbrev pub approval : Fields
approval = field "authorization_kind" (str "repo_health_execution_authorization") (
    field "schema_version" (str "0.3-draft") (
      field "approved" (bool true) (
        field "approved_by" (str "reviewer") (
          field "approved_at" (str "2026-01-01T00:00:00Z") (
            field "expires_at" (str "2026-01-02T00:00:00Z") (
              field "approved_scope" (dict subject) (
                field "approved_argv" (list (cons (str "pytest") (cons (str "-q") nil))) (
                  field "approved_policy_version" (str "1") (
                    field "based_on_gate_decision"
                      (dict (
                        field "decision_kind" (str "repo_health_gate_decision") (
                          field "schema_version" (str "0.1-draft") (
                            field "verdict" (str "allow_limited")
                              (field "fingerprint" (str digest) end)))))
                      (field "subject"
                        (dict (
                          field "repo" (str digest) (
                            field "commit" (str "c0ffee") (
                              field "tree_hash" (str "f00d") (
                                field "snapshot_id" (str digest)
                                  (field "manifest_fingerprint" (str digest) end))))))
                        (field "limitations" (one "one command")
                          (field "residual_risks" (one "reviewed once") end))))))))))))

abbrev pub expected : Expected
expected = record {
  now = some (record { aware = true; ticks = pos 1000 });
  clock = record { aware = true; ticks = pos 0 };
  image_reference = none;
  image_id = none;
  repository_identity = some digest;
  commit = some "c0ffee";
  tree = some "f00d";
  snapshot_id = some digest;
  manifest_fingerprint = some digest;
}

abbrev pub observed_snapshot : Observed
observed_snapshot = record {
  repository_identity = some digest;
  commit = some "c0ffee";
  tree = some "f00d";
  snapshot_id = some digest;
  manifest_fingerprint = some digest;
}

abbrev pub observed_worktree : Fields
observed_worktree = field "git_available" (bool true) (
    field "repo_root_matches_target" (bool true) (
      field "dirty_state" (str "clean") (
        field "repo_identity" (str digest)
          (field "commit" (str "c0ffee") (field "tree_hash" (str "f00d") end)))))
