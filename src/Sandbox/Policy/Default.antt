-- ===== src/Sandbox/Policy/Default.antt =====
-- sandbox/behavior_policy.py: build_default_behavior_policy and behavior_policy_binding_fingerprint.
use Prim.Native.String
use repo_health_doctor.Base.{String, true, false, List, [], ◌∷◌, dedupe, if◌then◌else◌}
use repo_health_doctor.Base.Int.{pos}
use repo_health_doctor.Base.Py.{Py, ok, raise, value_error, ◌>>=◌}
use repo_health_doctor.Base.Sort.{sorted}
use repo_health_doctor.Json.{
  Value, bool, int, str, list, dict, Items, nil, cons, Fields, end, field, get, is_text,
}
use repo_health_doctor.Sandbox.Policy.Names.{severity_fields}
use repo_health_doctor.Sandbox.Policy.{policy_id, validate_behavior_policy}
use repo_health_doctor.Sandbox.Runtime.{SandboxRuntime}

-- The arguments of build_default_behavior_policy.
pub record PolicyArguments : Type 0 where
  pub candidate_key : String
  pub repo_identity : String
  pub commit : String
  pub phase : String
  pub kind : String
  pub cwd : String
  pub argv : List String
  pub env_allowlist : List String
  pub allow_subprocess : Value
  pub limited_subprocess_binaries : List String
  pub image_policy_schema_version : String

abbrev pub texts : List String → Items
texts [] = nil
texts (s ∷ ss) = cons (str s) (texts ss)

-- `sorted(dict.fromkeys(...))`
unfoldable pub distinct : List String → Value
unfolding sorted
distinct names = list (texts (sorted (dedupe names)))

abbrev pub all_blocking : List String → Fields
all_blocking [] = end
all_blocking (name ∷ names) = field name (str "block") (all_blocking names)

unfoldable pub default_binding : PolicyArguments → Fields
unfolding distinct
default_binding a = field "candidate_key" (str a.candidate_key) (
    field "repo_identity" (str a.repo_identity) (
      field "commit" (str a.commit) (
        field "phase" (str a.phase) (
          field "kind" (str a.kind) (
            field "cwd" (str a.cwd) (
              field "argv" (list (texts a.argv)) (
                field "env_allowlist" (distinct a.env_allowlist) (
                  field "shell" (bool false) (
                    field "network_policy" (str "none") (
                      field "image_policy_schema_version" (str a.image_policy_schema_version)
                        end))))))))))

unfoldable pub default_expected : PolicyArguments → Fields
unfolding distinct
default_expected a = field "network" (dict (field "allowed" (bool false) end)) (
    field "allowed_write_prefixes" (list (texts ("/workspace" ∷ "/tmp/tmp" ∷ []))) (
      field "denied_read_prefixes" (list (texts ("<host-home>" ∷ "<credential-paths>" ∷ []))) (
        field "denied_socket_paths" (list (texts ("/var/run/docker.sock" ∷ []))) (
          field "max_process_events"
            (int (if is_text a.allow_subprocess "limited" then pos 1 else pos 0))
            (field "allowed_exec_binaries" (list (texts ("python" ∷ []))) (
              field "allow_subprocess" a.allow_subprocess (
                field "limited_subprocess_binaries" (distinct a.limited_subprocess_binaries) (
                  field "max_secret_events" (int (pos 0)) (
                    field "max_outside_writable_delete" (int (pos 0)) (
                      field "allowed_env_keys" (distinct ("HOME" ∷ "PYTHONPATH" ∷ "TMPDIR" ∷ [])) (
                        field "timeout_seconds" (int (pos 60)) (
                          field "expected_return_codes" (list (cons (int (pos 0)) nil))
                            end))))))))))))

abbrev pub default_observers : Fields
default_observers = field "strace_required" (bool true) (
    field "runtime_hook_required" (bool true) (
      field "evidence_required" (bool true)
        (field "default_verdict_on_missing_evidence" (str "block") end)))

-- the policy before its id; `rest` is what follows its fields
abbrev pub default_fields : PolicyArguments → Fields → Fields
default_fields a rest = field "schema_version" (str "0.1-draft") (
    field "report_kind" (str "sandbox_command_behavior_policy") (
      field "binding" (dict (default_binding a)) (
        field "expected_behavior" (dict (default_expected a)) (
          field "severity_rules" (dict (all_blocking (sorted severity_fields))) (
            field "observer_requirements" (dict default_observers) (
              field "redaction"
                (dict (
                  field "raw_host_paths_redacted" (bool true)
                    (field "secret_like_values_redacted" (bool true) end)))
                rest))))))

module _ (rt : SandboxRuntime) where
  unfoldable pub default_policy : PolicyArguments → Fields
  unfolding default_binding default_expected sorted policy_id
  default_policy a =
      default_fields a (field "policy_id" (str (policy_id rt (default_fields a end))) end)

  unfoldable pub build_default_behavior_policy : PolicyArguments → Py Fields
  unfolding default_policy validate_behavior_policy
  build_default_behavior_policy a =
      validate_behavior_policy rt (dict (default_policy a)) >>= λ _. ok (default_policy a)

  -- `behavior_policy_binding_fingerprint`
  unfoldable pub binding_fingerprint : Fields → Py String
  binding_fingerprint policy = fingerprint_of (get "binding" policy)
    where
      fingerprint_of : Value → Py String
      fingerprint_of (dict b) =
          ok (String.◌++◌ "sha256:" (rt.sha256_hex (rt.compact_dumps (dict b))))
      fingerprint_of _ = raise value_error
