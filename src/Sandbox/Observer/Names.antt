-- ===== src/Sandbox/Observer/Names.antt =====
-- The closed sets of keys of sandbox/observer_evidence.py and its patterns, with the secret patterns of
-- sandbox/workspace.py; the flags of `re.compile` are written before a pattern.
use repo_health_doctor.Base.{String, List, [], ◌∷◌}

abbrev pub evidence_fields : List String
evidence_fields =
    "schema_version" ∷ "report_kind" ∷ "evidence_id" ∷ "source" ∷ "command" ∷ "execution" ∷ "counts"
    ∷ "flags" ∷ "summaries" ∷ "redaction" ∷ []

abbrev pub source_fields : List String
source_fields =
    "observer_mode" ∷ "strace_available" ∷ "strace_log_present" ∷ "strace_parse_success"
    ∷ "runtime_hook_available" ∷ "runtime_hook_active" ∷ "runtime_hook_parse_success"
    ∷ "observer_degraded" ∷ "degraded_reasons" ∷ []

-- `_SOURCE_FIELDS - {"observer_mode", "degraded_reasons"}`
abbrev pub source_flags : List String
source_flags =
    "strace_available" ∷ "strace_log_present" ∷ "strace_parse_success" ∷ "runtime_hook_available"
    ∷ "runtime_hook_active" ∷ "runtime_hook_parse_success" ∷ "observer_degraded" ∷ []

abbrev pub command_fields : List String
command_fields = "phase" ∷ "kind" ∷ "cwd" ∷ "argv_fingerprint" ∷ "shell" ∷ "network_policy" ∷ []

abbrev pub execution_fields : List String
execution_fields = "return_code" ∷ "timeout" ∷ "duration_ms" ∷ "completed" ∷ []

abbrev pub count_fields : List String
count_fields =
    "process_event_count" ∷ "unexpected_exec_count" ∷ "subprocess_event_count"
    ∷ "network_event_count" ∷ "file_write_event_count" ∷ "outside_allowed_write_count"
    ∷ "denied_read_count" ∷ "docker_socket_access_count" ∷ "host_home_access_count"
    ∷ "secret_event_count" ∷ "outside_writable_delete_count" ∷ "strace_parse_error_count"
    ∷ "runtime_hook_parse_error_count" ∷ []

abbrev pub flag_fields : List String
flag_fields =
    "evidence_complete" ∷ "raw_logs_included" ∷ "stdout_included" ∷ "stderr_included"
    ∷ "host_paths_redacted" ∷ "secrets_redacted" ∷ []

abbrev pub summary_fields : List String
summary_fields =
    "process_summary" ∷ "file_summary" ∷ "network_summary" ∷ "secret_summary" ∷ "limitations"
    ∷ "residual_risks" ∷ []

abbrev pub redaction_fields : List String
redaction_fields = "status" ∷ "raw_host_path_present" ∷ "raw_secret_like_value_present" ∷ []

abbrev pub home_path : String
home_path = "(?:^|[\\s\"'])/(?:home|Users)/"

abbrev pub secret_patterns : List String
secret_patterns =
    "(?is)-----BEGIN(?: [A-Z0-9]+)* PRIVATE KEY-----.*?-----END(?: [A-Z0-9]+)* PRIVATE KEY-----"
    ∷ "(?<![A-Za-z0-9_-])sk-[A-Za-z0-9_-]{8,}(?![A-Za-z0-9_-])"
    ∷ "(?<![A-Za-z0-9])ghp_[A-Za-z0-9]{20,}(?![A-Za-z0-9])"
    ∷ "(?<![A-Z0-9])AKIA[0-9A-Z]{16}(?![A-Z0-9])"
    ∷ "(?ix)\\b(?:password|token|api[_-]?key|secret)\\b\\s*['\\\"]?\\s*[:=]\\s*['\\\"]?[^\\s,;}\\]\\r\\n]+"
    ∷ []
