-- ===== src/Sandbox/Policy.antt =====
-- sandbox/behavior_policy.py: validate_behavior_policy. A test reads the policy where the earlier tests
-- have shown it to be a dict with the keys in question.
pub mod Names
pub mod Strict
pub mod Default
use Prim.Native.String
use text.Mathlib.Text.{starts_with}
use repo_health_doctor.Base.{
  String, Bool, true, false, not, ◌&&◌, ◌||◌, List, [], ◌∷◌, ◌++◌, ◌==◌, if◌then◌else◌, map, subset,
}
use repo_health_doctor.Base.Int.{pos}
use repo_health_doctor.Base.Py.{Py, ok, raise, type_error, ◌>>=◌}
use repo_health_doctor.Json.{
  Value, str, list, dict, nil, cons, Fields, end, field, get, is_str, is_bool, is_int, is_true,
  is_false, is_text, is_num, le_num, truth, not_member, string_items, mapping, count_invalid,
}
use repo_health_doctor.Json.Equality.{equal}
use repo_health_doctor.Json.Fingerprint.{fingerprint}
use repo_health_doctor.Sandbox.Guards.{raise_if, not_exactly, text_that, list_of, non_empty_list}
use repo_health_doctor.Sandbox.Labels.{safe_label, safe_env, policy_id_text, write_prefix}
use repo_health_doctor.Sandbox.Policy.Names.{
  policy_fields, binding_fields, expected_fields, severity_fields, mandatory_blockers,
  observer_fields, redaction_fields, logical_write_prefixes,
}
use repo_health_doctor.Sandbox.Runtime.{SandboxRuntime}

-- `not isinstance(value, Mapping) or set(value) != fields`, as the first test of a part
abbrev pub part : Value → List String → (Fields → List (Py Bool)) → List (Py Bool)
part v fields tests = ok (not_exactly v fields) ∷ tests (mapping v)

-- `_validate_safe_labels`
abbrev pub labels_invalid : (String → Bool) → Value → Bool
labels_invalid pattern v = not (non_empty_list v && list_of (text_that pattern) v)

abbrev pub logical_cwd : String → Bool
logical_cwd s = s == "/workspace" || starts_with s "/workspace/"

abbrev pub binding_argument : String → Bool
binding_argument s = not (s == "") && not (starts_with s "/")

unfoldable pub binding_tests : Fields → List (Py Bool)
unfolding fingerprint safe_label safe_env
binding_tests b =
    ok (not (fingerprint (get "candidate_key" b)) || not (fingerprint (get "repo_identity" b)))
    ∷ (not_member ("phase2_install_probe" ∷ "phase3_runtime_probe" ∷ []) (get "phase" b)
        >>= λ other. ok (other || not (is_str (get "commit" b))))
    ∷ ok (not (text_that safe_label (get "kind" b)))
    ∷ ok (not (text_that logical_cwd (get "cwd" b)))
    ∷ ok
        (not (non_empty_list (get "argv" b) && list_of (text_that binding_argument) (get "argv" b)))
    ∷ ok (not (list_of (text_that safe_env) (get "env_allowlist" b)))
    ∷ (if not (is_false (get "shell" b)) || not (is_text (get "network_policy" b) "none")
        then ok true
        else not_member ("unconfigured" ∷ "0.1-draft" ∷ []) (get "image_policy_schema_version" b))
    ∷ []

-- `mode not in {False, "limited"}`: every number that equals 0 is in the set
abbrev pub mode_unknown : Value → Py Bool
mode_unknown (str s) = ok (not (s == "limited"))
mode_unknown (list vs) = raise type_error
mode_unknown (dict d) = raise type_error
mode_unknown v = ok (not (is_num v (pos 0)))

-- the limits that the mode of subprocesses asks for
abbrev pub subprocess_limits_invalid : Value → Value → Value → Py Bool
subprocess_limits_invalid mode limited most =
    if is_false mode && (truth limited || not (is_num most (pos 0)))
    then ok true
    else if is_text mode "limited"
    then if not (truth limited) then ok true else le_num most (pos 0)
    else ok false

-- `not isinstance(limit, int) or limit < 0 or (required and limit == 0)`
abbrev pub limit_invalid : Bool → Value → Py Bool
limit_invalid required v = count_invalid v >>= λ bad. ok (bad || (required && is_num v (pos 0)))

unfoldable pub expected_tests : Fields → List (Py Bool)
unfolding safe_label safe_env write_prefix equal
expected_tests e =
    ok (
      not_exactly (get "network" e) ("allowed" ∷ [])
      || not (is_false (get "allowed" (mapping (get "network" e)))))
    ∷ ok (labels_invalid write_prefix (get "allowed_write_prefixes" e))
    ∷ ok (not (subset (string_items (get "allowed_write_prefixes" e)) logical_write_prefixes))
    ∷ ok (
        not (
          equal (get "denied_read_prefixes" e)
            (list (cons (str "<host-home>") (cons (str "<credential-paths>") nil))))
        || not (equal (get "denied_socket_paths" e) (list (cons (str "/var/run/docker.sock") nil))))
    ∷ count_invalid (get "max_process_events" e)
    ∷ ok (labels_invalid safe_label (get "allowed_exec_binaries" e))
    ∷ (mode_unknown (get "allow_subprocess" e) >>= λ unknown.
        ok (unknown || not (list_of (text_that safe_label) (get "limited_subprocess_binaries" e))))
    ∷ subprocess_limits_invalid (get "allow_subprocess" e) (get "limited_subprocess_binaries" e)
        (get "max_process_events" e)
    ∷ limit_invalid false (get "max_secret_events" e)
    ∷ limit_invalid false (get "max_outside_writable_delete" e)
    ∷ limit_invalid true (get "timeout_seconds" e)
    ∷ ok (
        not (is_num (get "max_secret_events" e) (pos 0))
        || not (is_num (get "max_outside_writable_delete" e) (pos 0)))
    ∷ ok (not (list_of (text_that safe_env) (get "allowed_env_keys" e)))
    ∷ ok (
        not (
          non_empty_list (get "expected_return_codes" e)
          && list_of is_int (get "expected_return_codes" e)))
    ∷ []

abbrev pub values : Fields → List Value
values end = []
values (field k v d) = v ∷ values d

-- `any(value not in {"block", "warn", "needs_review"} for value in severity.values())`
abbrev pub any_not_level : List Value → Py Bool
any_not_level [] = ok false
any_not_level (v ∷ vs) = not_member ("block" ∷ "warn" ∷ "needs_review" ∷ []) v >>= λ other.
    let rest = any_not_level vs in if other then ok true else rest

-- `severity[rule] != "block"`, for each rule in turn
abbrev pub relaxed : Fields → String → Py Bool
relaxed s rule = ok (not (is_text (get rule s) "block"))

unfoldable pub severity_tests : Fields → List (Py Bool)
severity_tests s = any_not_level (values s) ∷ map (relaxed s) mandatory_blockers

unfoldable pub observer_tests : Fields → List (Py Bool)
observer_tests o =
    ok (
      not (is_true (get "strace_required" o))
      || not (is_true (get "evidence_required" o))
      || not (is_text (get "default_verdict_on_missing_evidence" o) "block")
      || not (is_bool (get "runtime_hook_required" o)))
    ∷ []

unfoldable pub redaction_tests : Fields → List (Py Bool)
redaction_tests r =
    ok (
      not (is_true (get "raw_host_paths_redacted" r))
      || not (is_true (get "secret_like_values_redacted" r)))
    ∷ []

-- the items of a dict whose key is another
abbrev pub drop_key : String → Fields → Fields
drop_key k end = end
drop_key k (field j v d) = let rest = drop_key k d in if j == k then rest else field j v rest

module _ (rt : SandboxRuntime) where
  -- `_policy_id` of the policy without its id
  unfoldable pub policy_id : Fields → String
  policy_id d =
      String.◌++◌ "behavior-policy:sha256:"
        (rt.sha256_hex (rt.compact_dumps (dict (drop_key "policy_id" d))))

  unfoldable pub header_tests : Fields → List (Py Bool)
  unfolding policy_id policy_id_text
  header_tests d =
      ok (not (is_text (get "schema_version" d) "0.1-draft"))
      ∷ ok (not (is_text (get "report_kind" d) "sandbox_command_behavior_policy"))
      ∷ ok (not (text_that policy_id_text (get "policy_id" d)))
      ∷ ok (not (is_text (get "policy_id" d) (policy_id d)))
      ∷ []

  unfoldable pub policy_tests : Value → List (Py Bool)
  unfolding header_tests binding_tests expected_tests severity_tests observer_tests redaction_tests
  policy_tests policy = part policy policy_fields (λ d.
      header_tests d
      ++ part (get "binding" d) binding_fields binding_tests
      ++ part (get "expected_behavior" d) expected_fields expected_tests
      ++ part (get "severity_rules" d) severity_fields severity_tests
      ++ part (get "observer_requirements" d) observer_fields observer_tests
      ++ part (get "redaction" d) redaction_fields redaction_tests)

  unfoldable pub validate_behavior_policy : Value → Py {0} Unit
  unfolding policy_tests
  validate_behavior_policy policy = raise_if (policy_tests policy)
