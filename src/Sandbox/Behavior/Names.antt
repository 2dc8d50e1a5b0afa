-- ===== src/Sandbox/Behavior/Names.antt =====
-- The closed sets of keys of evidence in sandbox/behavior_policy.py.
use repo_health_doctor.Base.{String, List, [], ◌∷◌}

abbrev pub legacy_evidence_fields : List String
legacy_evidence_fields =
    "observer_available" ∷ "runtime_hook_available" ∷ "strace_log_present"
    ∷ "strace_parse_succeeded" ∷ "evidence_complete" ∷ "network_event_count"
    ∷ "write_outside_allowed_prefix_count" ∷ "docker_socket_access_count" ∷ "host_home_access_count"
    ∷ "denied_read_access_count" ∷ "secret_event_count" ∷ "execve_binaries" ∷ "subprocess_binaries"
    ∷ "outside_writable_delete_count" ∷ "timed_out" ∷ "return_code" ∷ []

abbrev pub evidence_fields : List String
evidence_fields =
    "observer_available" ∷ "runtime_hook_available" ∷ "strace_log_present"
    ∷ "strace_parse_succeeded" ∷ "evidence_complete" ∷ "network_event_count"
    ∷ "write_outside_allowed_prefix_count" ∷ "docker_socket_access_count" ∷ "host_home_access_count"
    ∷ "denied_read_access_count" ∷ "secret_event_count" ∷ "execve_binaries" ∷ "subprocess_binaries"
    ∷ "outside_writable_delete_count" ∷ "timed_out" ∷ "return_code" ∷ "runtime_hook_active"
    ∷ "runtime_hook_parse_succeeded" ∷ "observer_degraded" ∷ "strace_parse_error_count"
    ∷ "runtime_hook_parse_error_count" ∷ []

abbrev pub evidence_flags : List String
evidence_flags =
    "observer_available" ∷ "runtime_hook_available" ∷ "runtime_hook_active"
    ∷ "runtime_hook_parse_succeeded" ∷ "observer_degraded" ∷ "strace_log_present"
    ∷ "strace_parse_succeeded" ∷ "evidence_complete" ∷ "timed_out" ∷ []

abbrev pub evidence_counts : List String
evidence_counts =
    "network_event_count" ∷ "write_outside_allowed_prefix_count" ∷ "docker_socket_access_count"
    ∷ "host_home_access_count" ∷ "denied_read_access_count" ∷ "secret_event_count"
    ∷ "outside_writable_delete_count" ∷ "strace_parse_error_count"
    ∷ "runtime_hook_parse_error_count" ∷ []
