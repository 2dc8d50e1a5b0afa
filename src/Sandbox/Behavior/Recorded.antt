-- ===== src/Sandbox/Behavior/Recorded.antt =====
-- sandbox/behavior_policy.py: the observations of evaluate_behavior_policy, and its `record`.
use repo_health_doctor.Base.{
  String, ◌^◌, Bool, true, false, not, ◌&&◌, ◌||◌, List, [], ◌∷◌, ◌++◌, if◌then◌else◌, any,
  is_empty, none, some, contains, length,
}
use repo_health_doctor.Base.Int.{pos, scaled_ltb}
use repo_health_doctor.Json.{
  Value, int, list, Fields, get, items, is_false, is_text, truth, mapping, as_number, string_items,
}
use repo_health_doctor.Json.Equality.{equal}

-- the rules that evidence has broken, by the level that the policy gives each
pub record Recorded : Type 0 where
  pub blockers : List String
  pub warnings : List String
  pub needs_review : List String

-- `record(rule)`
unfoldable pub record_rule : Fields → String → Recorded → Recorded
record_rule severity rule r =
    if is_text (get rule severity) "block"
    then record {
      blockers = r.blockers ++ (rule ∷ []);
      warnings = r.warnings;
      needs_review = r.needs_review;
    }
    else if is_text (get rule severity) "warn"
    then record {
      blockers = r.blockers;
      warnings = r.warnings ++ (rule ∷ []);
      needs_review = r.needs_review;
    }
    else record {
      blockers = r.blockers;
      warnings = r.warnings;
      needs_review = r.needs_review ++ (rule ∷ []);
    }

-- `if test: record(rule)`, in order
unfoldable pub record_all : Fields → List (Bool × String) → Recorded → Recorded
unfolding record_rule
record_all severity [] r = r
record_all severity ((test, rule) ∷ tests) r =
    record_all severity tests (if test then record_rule severity rule r else r)

-- `v > w` of two numbers
abbrev pub more_than : Value → Value → Bool
more_than v w = elim (as_number v) [
  | none ↦ false
  | some (n, k) ↦ elim (as_number w) [ none ↦ false | some (m, j) ↦ scaled_ltb m (2 ^ k) n (2 ^ j) ]
]

-- `any(item not in allowed for item in found)`
abbrev pub any_outside : Value → Value → Bool
any_outside found allowed = any (λ s. not (contains (string_items allowed) s)) (string_items found)

-- the test for `subprocess_spawn`
abbrev pub subprocess_spawned : Fields → Value → Bool
subprocess_spawned expected found =
    if is_false (get "allow_subprocess" expected) && truth found
    then true
    else if is_text (get "allow_subprocess" expected) "limited"
    then more_than (int (pos (length (string_items found)))) (get "max_process_events" expected)
      || any_outside found (get "limited_subprocess_binaries" expected)
    else false

-- `return_code not in expected_return_codes`
unfoldable pub code_unexpected : Value → Value → Bool
unfolding equal
code_unexpected code (list codes) = not (any (equal code) (items codes))
code_unexpected code _ = true

unfoldable pub observations : Fields → Fields → Fields → List (Bool × String)
unfolding code_unexpected
observations expected observers e =
    (not (truth (get "observer_available" e)), "observer_unavailable")
    ∷ (
      truth (get "runtime_hook_required" observers) && not (truth (get "runtime_hook_available" e)),
      "observer_unavailable",
    )
    ∷ (
      truth (get "runtime_hook_required" observers) && not (truth (get "runtime_hook_active" e)),
      "observer_unavailable",
    )
    ∷ (
      truth (get "runtime_hook_required" observers)
          && not (truth (get "runtime_hook_parse_succeeded" e)),
      "observer_unavailable",
    )
    ∷ (truth (get "observer_degraded" e), "observer_unavailable")
    ∷ (
      truth (get "strace_required" observers) && not (truth (get "strace_log_present" e)),
      "strace_log_missing",
    )
    ∷ (
      truth (get "strace_required" observers) && not (truth (get "strace_parse_succeeded" e)),
      "strace_parse_failure",
    )
    ∷ (truth (get "strace_parse_error_count" e), "strace_parse_failure")
    ∷ (truth (get "runtime_hook_parse_error_count" e), "observer_unavailable")
    ∷ (
      truth (get "evidence_required" observers) && not (truth (get "evidence_complete" e)),
      "evidence_missing",
    )
    ∷ (truth (get "network_event_count" e), "network_event")
    ∷ (truth (get "write_outside_allowed_prefix_count" e), "write_outside_allowed_prefix")
    ∷ (truth (get "docker_socket_access_count" e), "docker_socket_access")
    ∷ (truth (get "host_home_access_count" e), "host_home_access")
    ∷ (truth (get "denied_read_access_count" e), "denied_read_access")
    ∷ (more_than (get "secret_event_count" e) (get "max_secret_events" expected), "secret_event")
    ∷ (
      more_than (get "outside_writable_delete_count" e)
          (get "max_outside_writable_delete" expected),
      "outside_writable_delete",
    )
    ∷ (
      any_outside (get "execve_binaries" e) (get "allowed_exec_binaries" expected),
      "unexpected_execve",
    )
    ∷ (subprocess_spawned expected (get "subprocess_binaries" e), "subprocess_spawn")
    ∷ (truth (get "timed_out" e), "timeout")
    ∷ (
      code_unexpected (get "return_code" e) (get "expected_return_codes" expected),
      "return_code_mismatch",
    )
    ∷ []

unfoldable pub verdict_of : Recorded → String
verdict_of r =
    if not (is_empty r.blockers)
    then "block"
    else if not (is_empty r.needs_review)
    then "needs_review"
    else if not (is_empty r.warnings)
    then "warn"
    else "pass"

-- the rules that valid evidence breaks under a valid policy
unfoldable pub recorded : Fields → Fields → Recorded
unfolding record_all observations
recorded policy e =
    record_all (mapping (get "severity_rules" policy))
      (observations (mapping (get "expected_behavior" policy))
        (mapping (get "observer_requirements" policy)) e)
      record { blockers = []; warnings = []; needs_review = [] }
