-- ===== src/Examples/Behavior.antt =====
-- Behavior policies and observed runs, and the theorems applied to them.
use repo_health_doctor.Base.{String, ◌≡◌, refl, inl, true, false, [], ◌∷◌, has_text, ltb, List}
use repo_health_doctor.Base.Int.{pos}
use repo_health_doctor.Base.Py.{ok, raise, type_error, Returns}
use repo_health_doctor.Json.{Value, bool, int, list, nil, dict, Fields, end, field, get, mapping}
use repo_health_doctor.Sandbox.Runtime.{SandboxRuntime}
use repo_health_doctor.Sandbox.Observer.{holding}
use repo_health_doctor.Sandbox.Policy.{validate_behavior_policy}
use repo_health_doctor.Sandbox.Policy.Default.{
  PolicyArguments, build_default_behavior_policy, default_policy, texts,
}
use repo_health_doctor.Sandbox.Policy.Strict.{IsStrict, validate_behavior_policy-IsStrict}
use repo_health_doctor.Sandbox.Behavior.Recorded.{observations}
use repo_health_doctor.Sandbox.Behavior.Partition.{strongest}
use repo_health_doctor.Sandbox.Behavior.Judged.{IsRead, judge-strongest}
use repo_health_doctor.Sandbox.Behavior.Within.{IsWithin, evaluate_behavior_policy-IsWithin}
use repo_health_doctor.Sandbox.Behavior.Total.{evaluate_behavior_policy-Returns}
use repo_health_doctor.Sandbox.Behavior.{judge, BehaviorVerdict, evaluate_behavior_policy}

abbrev pub sandbox_runtime : SandboxRuntime
sandbox_runtime = record {
  compact_dumps = λ v. "{}";
  dumps = λ v. "{}";
  sha256_hex = λ s. "0123456789abcdef0123456789abcdef0123456789abcdef0123456789abcdef";
  search = λ pattern text. has_text pattern text;
  fits = λ n. ltb n 9223372036854775808;
}

abbrev digest : String
digest = "sha256:0123456789abcdef0123456789abcdef0123456789abcdef0123456789abcdef"

abbrev pub arguments : Value → List String → PolicyArguments
arguments mode binaries = record {
  candidate_key = digest;
  repo_identity = digest;
  commit = "unavailable_static";
  phase = "phase2_install_probe";
  kind = "install_probe";
  cwd = "/workspace";
  argv = "python" ∷ "-m" ∷ "build" ∷ [];
  env_allowlist = "PYTHONPATH" ∷ [];
  allow_subprocess = mode;
  limited_subprocess_binaries = binaries;
  image_policy_schema_version = "unconfigured";
}

abbrev pub strict_policy : Fields
strict_policy = default_policy sandbox_runtime (arguments (bool false) [])

-- evidence in the older form, with the number of network events and the subprocesses
abbrev pub observed : Value → List String → Fields
observed network subprocesses = field "observer_available" (bool true) (
    field "runtime_hook_available" (bool true) (
      field "strace_log_present" (bool true) (
        field "strace_parse_succeeded" (bool true) (
          field "evidence_complete" (bool true) (
            field "network_event_count" network (
              field "write_outside_allowed_prefix_count" (int (pos 0)) (
                field "docker_socket_access_count" (int (pos 0)) (
                  field "host_home_access_count" (int (pos 0)) (
                    field "denied_read_access_count" (int (pos 0)) (
                      field "secret_event_count" (int (pos 0)) (
                        field "execve_binaries" (list (texts ("python" ∷ []))) (
                          field "subprocess_binaries" (list (texts subprocesses)) (
                            field "outside_writable_delete_count" (int (pos 0)) (
                              field "timed_out" (bool false)
                                (field "return_code" (int (pos 0)) end)))))))))))))))

default_accepted :
    build_default_behavior_policy sandbox_runtime (arguments (bool false) []) ≡ ok strict_policy
unfolding build_default_behavior_policy
default_accepted = refl

quiet_run :
    (r : BehaviorVerdict) × (evaluate_behavior_policy sandbox_runtime
        (dict strict_policy)
        (dict (observed (int (pos 0)) []))
      ≡ ok r)
    × (r.verdict ≡ "pass")
unfolding evaluate_behavior_policy build_default_behavior_policy
quiet_run = (_, refl, refl)

-- One network event blocks.
connected_run :
    (r : BehaviorVerdict) × (evaluate_behavior_policy sandbox_runtime
        (dict strict_policy)
        (dict (observed (int (pos 1)) []))
      ≡ ok r)
    × (r.verdict ≡ "block")
    × (r.reasons ≡ "network_event" ∷ [])
unfolding evaluate_behavior_policy build_default_behavior_policy
connected_run = (_, refl, refl, refl)

-- A subprocess breaks a policy whose mode is False, and passes under one whose mode is the number 0:
-- the set {False, "limited"} has 0 in it, and neither `is False` nor `== "limited"` holds of it.
spawning_run :
    (r : BehaviorVerdict) × (evaluate_behavior_policy sandbox_runtime
        (dict strict_policy)
        (dict (observed (int (pos 0)) ("bash" ∷ [])))
      ≡ ok r)
    × (r.verdict ≡ "block")
unfolding evaluate_behavior_policy build_default_behavior_policy
spawning_run = (_, refl, refl)

mode_zero :
    (r : BehaviorVerdict) × (evaluate_behavior_policy sandbox_runtime
        (dict (default_policy sandbox_runtime (arguments (int (pos 0)) [])))
        (dict (observed (int (pos 0)) ("bash" ∷ [])))
      ≡ ok r)
    × (r.verdict ≡ "pass")
unfolding evaluate_behavior_policy build_default_behavior_policy
mode_zero = (_, refl, refl)

-- A mode that is a list is not hashable: the evaluator raises TypeError.
mode_unhashable :
    evaluate_behavior_policy sandbox_runtime
      (dict (default_policy sandbox_runtime (arguments (list nil) [])))
      (dict (observed (int (pos 0)) []))
    ≡ raise type_error
unfolding evaluate_behavior_policy build_default_behavior_policy
mode_unhashable = refl

strict_policy-accepted : validate_behavior_policy sandbox_runtime (dict strict_policy) ≡ ok tt
unfolding build_default_behavior_policy
strict_policy-accepted = refl

validate_behavior_policy-IsStrict_example :
    (p : Fields) × (dict strict_policy ≡ dict p) × IsStrict p
validate_behavior_policy-IsStrict_example =
    validate_behavior_policy-IsStrict sandbox_runtime (dict strict_policy) strict_policy-accepted

judge-strongest_example :
    (judge strict_policy (observed (int (pos 1)) [])).verdict
    ≡ strongest (mapping (get "severity_rules" strict_policy)) (
        holding (
          observations
            (mapping (get "expected_behavior" strict_policy))
            (mapping (get "observer_requirements" strict_policy))
            (observed (int (pos 1)) [])))
judge-strongest_example = judge-strongest strict_policy (observed (int (pos 1)) [])

evaluate_behavior_policy-IsWithin_example :
    (p e c : Fields) × (dict strict_policy ≡ dict p)
    × (dict (observed (int (pos 0)) []) ≡ dict e)
    × IsStrict p
    × IsRead sandbox_runtime p e c
    × IsWithin (mapping (get "expected_behavior" p)) c
evaluate_behavior_policy-IsWithin_example =
    evaluate_behavior_policy-IsWithin sandbox_runtime (dict strict_policy)
      (dict (observed (int (pos 0)) [])) quiet_run.0 quiet_run.1 quiet_run.2

evaluate_behavior_policy-Returns_example :
    Returns (evaluate_behavior_policy sandbox_runtime (dict strict_policy) (dict end))
evaluate_behavior_policy-Returns_example =
    evaluate_behavior_policy-Returns sandbox_runtime (dict strict_policy) end refl
      (inl strict_policy-accepted)
