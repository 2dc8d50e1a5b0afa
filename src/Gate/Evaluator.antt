-- ===== src/Gate/Evaluator.antt =====
-- gate/evaluator.py: `evaluate_gate_decision` up to its verdict. The loop over the evidence is a fold of
-- a tally; what the external suites and the sandbox runs contribute is an argument.
pub mod Markers
pub mod Signals
pub mod Steps
pub mod Blocks
pub mod Total
pub mod Sandbox
pub mod Candidates
pub mod Normalized
pub mod Mismatch
pub mod SandboxRuns
use repo_health_doctor.Base.{
  String, Bool, true, false, not, ◌&&◌, ◌||◌, List, [], ◌∷◌, ◌++◌, any, is_empty, format, has_text,
  contains, if◌then◌else◌,
}
use repo_health_doctor.Base.Int.{ℤ, pos, ◌+ℤ◌}
use repo_health_doctor.Base.Py.{Py, ok, ◌>>=◌}
use repo_health_doctor.Json.{
  Value, bool, int, str, list, dict, nil, Fields, get, get_or, is_true, is_false, is_text, mapping,
  member,
}
use repo_health_doctor.Json.Runtime.{Runtime, text_of}
use repo_health_doctor.Evidence.Validation.{
  EvidenceValidationResult, validate_evidence, low_trust_levels,
}
use repo_health_doctor.Gate.Limitations.{
  Severity, low, medium, high, critical, highest_limitation_severity,
}
use repo_health_doctor.Gate.Verdict.{strongest_verdict}
use repo_health_doctor.Gate.Evaluator.Markers.{
  iterated, tokens, blocking_marker, quarantine_signal, warn_signal,
}

-- Where the evidence of a signal is recorded.
pub data Place : Type 0 where
  blocking_evidence warning_evidence nowhere : Place

-- One `verdict_candidates.append`, with the reason and the place that are appended beside it.
pub record Signal : Type 0 where
  pub verdict : String
  pub reason : String
  pub place : Place
  pub evidence_id : String

-- What an item of evidence appends, or all of them.
pub record Tally : Type 0 where
  pub signals : List Signal
  pub missing_evidence : List String
  pub degraded_observers : List String
  pub limitations : List String
  pub residual_risks : List String
  pub findings_count : ℤ
  pub any_runtime_observation : Bool
  pub any_binding_acceptable : Bool
  pub all_low_trust : Bool

abbrev pub verdicts_of : List Signal → List String
verdicts_of [] = []
verdicts_of (s ∷ ss) = s.verdict ∷ verdicts_of ss

-- `if test: ...append(...)`, for each test and its signal
abbrev pub select : List (Bool × Signal) → List Signal
select [] = []
select ((test, s) ∷ rest) = if test then s ∷ select rest else select rest

abbrev pub signal : String → String → Place → String → Signal
signal verdict reason place id = record {
  verdict = verdict;
  reason = format (reason ∷ ":" ∷ id ∷ []);
  place = place;
  evidence_id = id;
}

pub record Evaluation : Type 0 where
  pub verdict : String
  pub verdict_candidates : List String
  pub missing_evidence : List String
  pub tally : Tally

abbrev pub when : Bool → String → List String
when true name = name ∷ []
when false name = []

-- the names that are not in `accepted`
abbrev pub others : List String → List String → List String
others accepted [] = []
others accepted (name ∷ names) =
    if contains accepted name then others accepted names else name ∷ others accepted names

-- each name is appended unless it is there
abbrev pub add_missing : List String → List String → List String
add_missing missing [] = missing
add_missing missing (name ∷ names) =
    if contains missing name
    then add_missing missing names
    else add_missing (missing ++ name ∷ []) names

-- `int(count)` for an integer
abbrev counted : Value → Value → ℤ
counted present (int n) = if is_true present then n else pos 0
counted present (bool b) = if is_true present && b then pos 1 else pos 0
counted present _ = pos 0

abbrev bound_kinds : List String
bound_kinds = "path_bound" ∷ "commit_bound" ∷ "tree_bound" ∷ "snapshot_bound" ∷ "synthetic" ∷ []

-- what the loop over the limitations appends for one of this severity
abbrev pub severity_signal : String → String → Severity → List Signal
severity_signal id limitation critical =
    record {
      verdict = "block";
      reason = format ("critical_limitation:" ∷ limitation ∷ []);
      place = blocking_evidence;
      evidence_id = id;
    }
    ∷ []
severity_signal id limitation high =
    record {
      verdict = "quarantine";
      reason = format ("high_limitation:" ∷ limitation ∷ []);
      place = warning_evidence;
      evidence_id = id;
    }
    ∷ []
severity_signal id limitation medium =
    record {
      verdict = "warn";
      reason = format ("medium_limitation:" ∷ limitation ∷ []);
      place = warning_evidence;
      evidence_id = id;
    }
    ∷ []
severity_signal id limitation low = []

module _ (rt : Runtime) (policy : Fields) where
  -- The signals that do not come from limitations, in the order of the source.
  abbrev pub item_tests : Fields → String → Bool → Bool → List String → Bool → List (Bool × Signal)
  item_tests item id valid trusted_little ts warns =
      let finding = mapping (get "finding" item) in
      let raw_handling = mapping (get "raw_handling" item) in
      let effects = mapping (get "effects" item) in
      (not valid, signal "block" "invalid_evidence" blocking_evidence id)
      ∷ (
        is_true (get "execution_authorized" item)
            || is_true (get "can_authorize_execution" effects),
        signal "block" "execution_authorization_attempt" blocking_evidence id,
      )
      ∷ (
        is_true (get "raw_output_retained" raw_handling)
            || is_true (get "raw_stdout_retained" raw_handling)
            || is_true (get "raw_stderr_retained" raw_handling),
        signal "block" "raw_output_retained" blocking_evidence id,
      )
      ∷ (
        is_text (get "redaction_status" raw_handling) "failed",
        signal "block" "redaction_failed" blocking_evidence id,
      )
      ∷ (
        is_text (get "recommended_gate_effect" effects) "block",
        signal "block" "recommended_block" blocking_evidence id,
      )
      ∷ (
        is_text (get "recommended_gate_effect" effects) "quarantine",
        signal "quarantine" "recommended_quarantine" warning_evidence id,
      )
      ∷ (
        is_text (get "recommended_gate_effect" effects) "warn",
        signal "warn" "recommended_warn" warning_evidence id,
      )
      ∷ (blocking_marker rt ts, signal "block" "blocking_marker" blocking_evidence id)
      ∷ (
        quarantine_signal rt ts (mapping (get "classification" item)),
        signal "quarantine" "quarantine_signal" warning_evidence id,
      )
      ∷ (warns, signal "warn" "warning_signal" warning_evidence id)
      ∷ (
        is_false (get "present" finding),
        signal "warn" "no_finding_not_safety_proof" warning_evidence id,
      )
      ∷ (
        trusted_little && is_false (get "present" finding),
        signal "warn" "low_trust_no_finding" warning_evidence id,
      )
      ∷ (
        is_text (get "binding_kind" (mapping (get "subject" item))) "unbound",
        signal "unknown" "unbound_evidence" nowhere id,
      )
      ∷ []

  -- `_is_observer_limitation`
  abbrev is_observer_limitation : String → Bool
  is_observer_limitation limitation =
      let text = rt.lower limitation in
      has_text "observer" text
      && (has_text "missing" text || has_text "degraded" text || has_text "unavailable" text)

  -- `_limitation_verdict`
  pub limitation_signal : String → String → List Signal
  limitation_signal id limitation =
      severity_signal id limitation (highest_limitation_severity rt (limitation ∷ []) policy)

  pub limitation_observers : String → List String
  limitation_observers limitation =
      (if is_observer_limitation limitation then limitation ∷ [] else [])
      ++ (elim (highest_limitation_severity rt (limitation ∷ []) policy) [
        | high ↦ if has_text "observer" (rt.lower limitation) then limitation ∷ [] else []
        | _ ↦ []
      ])

  pub limitation_signals : String → List String → List Signal
  unfolding limitation_signal
  limitation_signals id [] = []
  limitation_signals id (l ∷ ls) = limitation_signal id l ++ limitation_signals id ls

  pub observers_of : List String → List String
  unfolding limitation_observers
  observers_of [] = []
  observers_of (l ∷ ls) = limitation_observers l ++ observers_of ls

  -- One round of the loop over the evidence.
  unfoldable pub evaluate_item : Fields → Py Tally
  unfolding limitation_signals observers_of
  evaluate_item item =
      let id = text_of rt (get_or (str "unknown_evidence") "evidence_id" item) in
      let finding = mapping (get "finding" item) in
      validate_evidence (dict item) >>= λ validation.
      member ("sandbox_observer" ∷ "docker_isolated" ∷ [])
        (get "execution_mode" (mapping (get "source" item)))
      >>= λ runtime.
          member bound_kinds (get "binding_kind" (mapping (get "subject" item))) >>= λ bound.
          member low_trust_levels (get "level" (mapping (get "trust" item))) >>= λ trusted_little.
          tokens rt item >>= λ ts.
          warn_signal rt ts (mapping (get "classification" item)) >>= λ warns. ok record {
            signals =
                select (item_tests item id validation.valid trusted_little ts warns)
                ++ limitation_signals id validation.limitations;
            missing_evidence =
                if is_text (get "binding_kind" (mapping (get "subject" item))) "unbound"
                then "commit_or_tree_binding" ∷ []
                else [];
            degraded_observers = observers_of validation.limitations;
            limitations = validation.limitations;
            residual_risks = validation.residual_risks;
            findings_count = counted (get "present" finding) (get "count" finding);
            any_runtime_observation = runtime;
            any_binding_acceptable = bound;
            all_low_trust = trusted_little;
          }

  abbrev pub absorb : Tally → Tally → Tally
  absorb t u = record {
    signals = t.signals ++ u.signals;
    missing_evidence = t.missing_evidence ++ u.missing_evidence;
    degraded_observers = t.degraded_observers ++ u.degraded_observers;
    limitations = t.limitations ++ u.limitations;
    residual_risks = t.residual_risks ++ u.residual_risks;
    findings_count = t.findings_count +ℤ u.findings_count;
    any_runtime_observation = t.any_runtime_observation || u.any_runtime_observation;
    any_binding_acceptable = t.any_binding_acceptable || u.any_binding_acceptable;
    all_low_trust = t.all_low_trust && u.all_low_trust;
  }

  pub evaluate_items : List Fields → Tally → Py Tally
  unfolding evaluate_item
  evaluate_items [] t = ok t
  evaluate_items (item ∷ rest) t = evaluate_item item >>= λ u. evaluate_items rest (absorb t u)

  -- before the first item
  abbrev pub start : List Fields → Tally
  start items = record {
    signals = [];
    missing_evidence = [];
    degraded_observers = [];
    limitations =
        "not_execution_authorization"
        ∷ "allow_limited_is_not_safety_proof"
        ∷ when (is_empty items) "no evidence available";
    residual_risks = "execution_authorization_not_implemented" ∷ [];
    findings_count = pos 0;
    any_runtime_observation = false;
    any_binding_acceptable = false;
    all_low_trust = not (is_empty items);
  }

  -- `[name for name in names if name not in _accepted_missing(policy)]`
  abbrev pub not_accepted : List String → Py (List String)
  not_accepted [] = ok []
  not_accepted (name ∷ names) =
      iterated (get_or (list nil) "accepted_missing_evidence" policy) >>= λ accepted.
      ok (others accepted (name ∷ names))

  pub runtime_named : List String → Bool
  runtime_named names = any (λ name. has_text "runtime" name || has_text "observer" name) names

  -- The verdict candidates, from those of the evidence and of the reports on.
  pub candidates_of : Bool → Tally → List String → List String → List String → List String
  unfolding runtime_named
  candidates_of none_given t reported missing_mandatory missing =
      let given =
        (if none_given then "unknown" ∷ [] else []) ++ (verdicts_of t.signals ++ reported) in
      let all =
        given
        ++ (when
              (t.all_low_trust && not none_given && not t.any_runtime_observation && is_empty given)
              "unknown"
            ++ (when (not t.any_binding_acceptable && not none_given) "unknown"
                ++ (when (not (is_empty missing_mandatory)) "unknown"
                    ++ (if is_empty missing
                        then []
                        else (if is_true (get "requested_dynamic_judgment" policy)
                              && runtime_named missing
                            then "quarantine" ∷ []
                            else "warn" ∷ []))))) in
      if is_empty all then "allow_limited" ∷ [] else all

  -- `evaluate_gate_decision` up to `verdict`, under the active policy. The reports' candidates are those
  -- of `_external_suite_gate_signals` and `_sandbox_gate_signals`, one after the other.
  unfoldable pub evaluate_verdict : List Fields → List String → Py Evaluation
  unfolding evaluate_items candidates_of
  evaluate_verdict items reported =
      iterated (get_or (list nil) "missing_evidence" policy) >>= λ known_missing.
      evaluate_items items (start items) >>= λ t.
      iterated (get_or (list nil) "mandatory_evidence" policy) >>= λ mandatory.
      not_accepted mandatory >>= λ missing_mandatory.
      (let missing_evidence =
          add_missing
            (known_missing ++ (when (is_empty items) "all_evidence" ++ t.missing_evidence))
            missing_mandatory in
        not_accepted missing_evidence >>= λ missing.
        (let candidates = candidates_of (is_empty items) t reported missing_mandatory missing in
          ok record {
            verdict = strongest_verdict candidates;
            verdict_candidates = candidates;
            missing_evidence = missing_evidence;
            tally = t;
          }))
