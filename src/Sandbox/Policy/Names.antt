-- ===== src/Sandbox/Policy/Names.antt =====
-- The closed sets of keys and names of sandbox/behavior_policy.py.
use repo_health_doctor.Base.{String, List, [], ◌∷◌}

abbrev pub policy_fields : List String
policy_fields =
    "schema_version" ∷ "report_kind" ∷ "policy_id" ∷ "binding" ∷ "expected_behavior"
    ∷ "severity_rules" ∷ "observer_requirements" ∷ "redaction" ∷ []

abbrev pub binding_fields : List String
binding_fields =
    "candidate_key" ∷ "repo_identity" ∷ "commit" ∷ "phase" ∷ "kind" ∷ "cwd" ∷ "argv"
    ∷ "env_allowlist" ∷ "shell" ∷ "network_policy" ∷ "image_policy_schema_version" ∷ []

abbrev pub expected_fields : List String
expected_fields =
    "network" ∷ "allowed_write_prefixes" ∷ "denied_read_prefixes" ∷ "denied_socket_paths"
    ∷ "max_process_events" ∷ "allowed_exec_binaries" ∷ "allow_subprocess"
    ∷ "limited_subprocess_binaries" ∷ "max_secret_events" ∷ "max_outside_writable_delete"
    ∷ "allowed_env_keys" ∷ "timeout_seconds" ∷ "expected_return_codes" ∷ []

abbrev pub severity_fields : List String
severity_fields =
    "network_event" ∷ "write_outside_allowed_prefix" ∷ "docker_socket_access" ∷ "host_home_access"
    ∷ "denied_read_access" ∷ "secret_event" ∷ "unexpected_execve" ∷ "subprocess_spawn"
    ∷ "observer_unavailable" ∷ "strace_log_missing" ∷ "strace_parse_failure" ∷ "evidence_missing"
    ∷ "timeout" ∷ "return_code_mismatch" ∷ "outside_writable_delete" ∷ []

abbrev pub mandatory_blockers : List String
mandatory_blockers =
    "network_event" ∷ "write_outside_allowed_prefix" ∷ "docker_socket_access" ∷ "host_home_access"
    ∷ "denied_read_access" ∷ "observer_unavailable" ∷ "strace_log_missing" ∷ "strace_parse_failure"
    ∷ "evidence_missing" ∷ "outside_writable_delete" ∷ []

abbrev pub observer_fields : List String
observer_fields =
    "strace_required" ∷ "runtime_hook_required" ∷ "evidence_required"
    ∷ "default_verdict_on_missing_evidence" ∷ []

abbrev pub redaction_fields : List String
redaction_fields = "raw_host_paths_redacted" ∷ "secret_like_values_redacted" ∷ []

abbrev pub logical_write_prefixes : List String
logical_write_prefixes =
    "/workspace" ∷ "/tmp/home" ∷ "/tmp/npm-cache" ∷ "/tmp/pip-cache" ∷ "/tmp/xdg-cache" ∷ "/tmp/tmp"
    ∷ []
