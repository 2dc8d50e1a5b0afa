-- ===== src/Lib.antt =====
-- The pre-execution safety gate of repo-health-doctor.
--
-- The program decides whether a command may run on a repository that is not trusted. Tools deliver items
-- of evidence, which a validator checks (src/repo_health_doctor/evidence/validation.py). The gate combines
-- them into a decision with a verdict (gate/verdict.py, gate/limitation_policy.py), whose form a second
-- validator checks (gate/validation.py) and which never authorizes an execution. A person approves an
-- authorization artifact for one decision and one argv (gate/authorization.py): the program drafts it,
-- checks the approved one against the decision, against the Git worktree and against the snapshot that is
-- to run, and consumes it by creating a marker file. What observers report of a run in the sandbox is
-- judged by a behavior policy (sandbox/behavior_policy.py), whose verdict the gate reads as evidence.
-- The report of a run is normalized (evidence/sandbox_run.py) and validated (gate/sandbox_evidence.py),
-- and its signals are candidates for the verdict.
--
-- Which file models which part (paths below src/repo_health_doctor/):
--   Base               Boolean tests, lists, texts, integers, and Python's exceptions (Py)
--   Json               values as `json.loads` gives them, with get, isinstance, ==, truth and `in`; the
--                      helpers that the validators share (_mapping, _string_items, _fingerprint,
--                      RAW_HOST_PATH); Json/Runtime names what is taken from Python's own library
--   Evidence           evidence/validation.py: validate_evidence, with the result of evidence/models.py
--   Evidence/SandboxRun   evidence/sandbox_run.py: normalize_sandbox_run_evidence; Texts is _safe_label
--                      and the like
--   Gate/Verdict       gate/verdict.py: VERDICT_ORDER, strongest_verdict
--   Gate/Limitations   gate/limitation_policy.py: limitation_severity, highest_limitation_severity
--   Gate/Evaluator     gate/evaluator.py: evaluate_gate_decision up to its verdict; Markers is _tokens,
--                      _has_any and the signals, Sandbox is _sandbox_gate_signals
--   Gate/Decision      gate/validation.py and gate/decision.py: validate_gate_decision; Refs is
--                      _validate_evidence_refs
--   Gate/Authorization gate/authorization.py: Subject is _gate_subject, _gate_reference and
--                      gate_decision_fingerprint; Image is sandbox/image_binding.py and
--                      _validate_image_binding; Forbidden is _contains_forbidden_pattern; Artifact is
--                      validate_execution_authorization; Worktree and Snapshot are
--                      validate_execution_authorization_worktree_binding and
--                      validate_execution_authorization_snapshot_binding; Reservation is
--                      reserve_execution_authorization; Draft is build_execution_authorization_draft
--   ControlFile        control_file.py: read_bounded_control_file; Loop is _bounded_read
--   Gate/Discovery     gate/authorization_discovery.py: discover_execution_authorization
--   Gate/SandboxEvidence  gate/sandbox_evidence.py: validate_sandbox_run_evidence; Shape is
--                      _validate_source_shape
--   Sandbox/Docker     sandbox/docker.py: build_docker_spec, resolve_docker_argv and
--                      build_container_command_argv; Image is evaluate_image_policy
--   Sandbox/Policy     sandbox/behavior_policy.py: validate_behavior_policy; Default is
--                      build_default_behavior_policy
--   Sandbox/Observer   sandbox/observer_evidence.py
--   Sandbox/Behavior   sandbox/behavior_policy.py: evaluate_behavior_policy; Evidence is
--                      _coerce_behavior_evidence with the shape of evidence, Recorded the observations and
--                      `record`
--   Sandbox/Labels, Sandbox/Guards   the label patterns, and tests that raise ValueError in order
--   Examples           sample artifacts, and the theorems applied to them
-- Beside a model, Accepted, Grants, WellFormed or Mismatch describes what it should let through or
-- refuse, apart from the code's tests; Checks, Sections and Bound treat one part of it each, and
-- Sound (Once, Single, Raises, Unapproved, Blocks, Total, Strict, Judged, Within, Sanctioned,
-- Hardened, Argv, Safe, Bounded, Ends, Untracked, SandboxRuns, Current, Judged) has the theorem.
--
-- How the code is modelled. A validator is the list of its `if test: errors.append(...)` in the order of
-- the source; a test that can raise (`in` on an unhashable value, `<` on a value that is no number) is a
-- value of Py, and the first exception ends the run. A dict is an association list in insertion order, a
-- set a list without regard to order, a float a finite double m / 2^k; NaN and the infinities are left
-- out. `==` compares numbers by value (True == 1 == 1.0) and dicts without regard to order. A regular
-- expression is a recursive function on the text.
--
-- Parameters. Runtime has str.lower, str of a value that is no string, str.isalnum, json.dumps, the
-- SHA-256 digest and datetime.fromisoformat, of times that UTC can represent; nothing else is assumed of
-- them. The clock is a field of Expected.
-- FileSystem has the answers to lstat, open, fstat and read of a control file; that discovery ends is
-- shown where a read of a negative length fails, as os.read does.
-- SandboxRuntime has json.dumps, the digest, the search for a regular expression, and which counts a list
-- can be repeated by; beyond them Python raises OverflowError or MemoryError, which one exception stands for.
-- In Reservation the operating system answers through System: whether it opens, what each os.write
-- returns, whether os.fsync fails. Of the file system the model assumes that O_CREAT | O_EXCL creates a
-- file exactly where there is none and that the attempts are made one after the other.
--
-- Fuel. The loop of os.write has as much fuel as the payload has bytes: each round writes a byte or ends.
-- That of _bounded_read has max_bytes + 2 rounds: each but the last takes a byte from max_bytes + 1, or makes
-- the rest negative.
--
-- Not modelled: what gate/evaluator.py makes of its verdict (subject, explanation, decision object), the
-- validator of external suite evidence and _external_suite_gate_signals, whose verdict candidates are an
-- argument of evaluate_verdict and whose other results are left out, the loading of the policy,
-- the external scanners, the workspaces and the runner of the sandbox, the static doctor and the command
-- line; the to_dict methods, except for the status of a reservation.
pub mod Base
pub mod Json
pub mod ControlFile
pub mod Evidence
pub mod Gate
pub mod Sandbox
pub mod Examples
