-- ===== src/Gate/SandboxEvidence/Shape.antt =====
-- gate/sandbox_evidence.py: _validate_source_shape.
use repo_health_doctor.Base.{String, Bool, not, ◌&&◌, ◌||◌, List, [], ◌∷◌, ◌++◌, subset, format}
use repo_health_doctor.Json.{
  Value, Fields, get, keys, is_bool, is_dict, is_false, is_int, is_null, is_str, is_text, mapping,
}
use repo_health_doctor.Sandbox.Guards.{list_of}
use repo_health_doctor.Evidence.SandboxRun.{flagged}

-- `_SANDBOX_OBJECT_FIELDS`, a set, in the order of the source
abbrev pub object_fields : List String
object_fields =
    "contract" ∷ "run" ∷ "target" ∷ "verified_snapshot" ∷ "subject_consistency" ∷ "approval"
    ∷ "gate" ∷ "authorization" ∷ "sandbox_profile" ∷ "seccomp" ∷ "command" ∷ "docker"
    ∷ "disposable_workspace" ∷ "workspace_diff" ∷ "result" ∷ "output_summary"
    ∷ "runtime_write_budget" ∷ "env_policy" ∷ "cleanup_policy" ∷ "boundary_statement" ∷ []

abbrev pub required_fields : List String
required_fields =
    "schema_version" ∷ "report_kind" ∷ "kind" ∷ "tool" ∷ "version" ∷ "experimental"
    ∷ "policy_blocked" ∷ "command_started" ∷ "command_start_state" ∷ "command_exit_code"
    ∷ "sandbox_exit_code" ∷ "block_reason" ∷ "limitations" ∷ "next_actions" ∷ "safety_statement"
    ∷ object_fields

abbrev pub allowed_fields : List String
allowed_fields = "report_fingerprint" ∷ required_fields

-- an int that is no bool
abbrev pub is_whole : Value → Bool
is_whole v = is_int v && not (is_bool v)

abbrev pub each_field : (Value → Bool) → String → List String → Fields → List (Bool × String)
each_field test suffix [] d = []
each_field test suffix (k ∷ ks) d =
    (not (test (get k d)), format (k ∷ suffix ∷ [])) ∷ each_field test suffix ks d

abbrev pub head_flags : Fields → List (Bool × String)
head_flags d =
    (
      not (subset required_fields (keys d)) || not (subset (keys d) allowed_fields),
      "schema_top_level_required_or_unknown_field",
    )
    ∷ (not (is_text (get "schema_version" d) "0.1-draft"), "schema_version_unsupported")
    ∷ (
      not (is_text (get "report_kind" d) "sandbox_run")
          || not (is_text (get "kind" d) "sandbox_run"),
      "report_kind_unsupported",
    )
    ∷ (not (is_text (get "tool" d) "repo-health-doctor"), "tool_invalid")
    ∷ (not (is_bool (get "experimental" d)), "experimental_must_be_boolean")
    ∷ []

abbrev pub object_flags : Fields → List (Bool × String)
object_flags d = each_field is_dict "_must_be_object" object_fields d

abbrev pub switch_flags : Fields → List (Bool × String)
switch_flags d = each_field is_bool "_must_be_boolean" ("policy_blocked" ∷ "command_started" ∷ []) d

abbrev pub code_flags : Fields → List (Bool × String)
code_flags d =
    (
      not (is_null (get "command_exit_code" d)) && not (is_whole (get "command_exit_code" d)),
      "command_exit_code_invalid",
    )
    ∷ (
      not (is_null (get "block_reason" d)) && not (is_str (get "block_reason" d)),
      "block_reason_invalid",
    )
    ∷ (not (is_whole (get "sandbox_exit_code" d)), "sandbox_exit_code_invalid")
    ∷ []

abbrev pub last_flags : Fields → List (Bool × String)
last_flags d =
    each_field (list_of is_str) "_invalid" ("limitations" ∷ "next_actions" ∷ []) d
    ++ ((not (is_str (get "safety_statement" d)), "safety_statement_invalid")
        ∷ (
          is_dict (get "output_summary" d)
              && not
                  (is_false (get "raw_stdout_stderr_persisted" (mapping (get "output_summary" d)))),
          "raw_stdout_stderr_persisted_must_be_false",
        )
        ∷ [])

abbrev pub shape_flags : Fields → List (Bool × String)
shape_flags d =
    head_flags d ++ (object_flags d ++ (switch_flags d ++ (code_flags d ++ last_flags d)))

-- `_validate_source_shape`
unfoldable pub source_shape_errors : Fields → List String
source_shape_errors d = flagged (shape_flags d)
