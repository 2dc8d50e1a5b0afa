-- ===== src/Gate/Evaluator/Sandbox.antt =====
-- gate/evaluator.py: _sandbox_gate_signals.
use repo_health_doctor.Base.{
  ℕ, suc, String, ◌&&◌, ◌||◌, List, [], ◌∷◌, ◌++◌, ◌==◌, contains, dedupe, format, if◌then◌else◌,
}
use repo_health_doctor.Json.{Value, list, dict, get, is_text, items, strings}
use repo_health_doctor.Sandbox.Guards.{list_of, text_that}

-- the keys of `_SANDBOX_SIGNAL_VERDICTS`
abbrev pub sandbox_signals : List String
sandbox_signals =
    "execution_policy_blocked" ∷ "subject_binding_mismatch" ∷ "workspace_cleanup_failed"
    ∷ "execution_timeout" ∷ "observer_degraded" ∷ "not_real_execution_evidence"
    ∷ "sandbox_evidence_invalid" ∷ "sandbox_evidence_stale" ∷ "sandbox_evidence_truncated"
    ∷ "sandbox_evidence_over_budget" ∷ []

-- `_SANDBOX_SIGNAL_VERDICTS[signal]`, of one of its keys
abbrev pub sandbox_signal_verdict : String → String
sandbox_signal_verdict signal =
    if signal == "execution_policy_blocked" || signal == "subject_binding_mismatch"
    then "block"
    else if signal == "workspace_cleanup_failed"
    then "quarantine"
    else "unknown"

-- The signals of one item: its own, each once, or sandbox_evidence_invalid.
unfoldable pub signals_of : Value → List String
signals_of (dict d) =
    if is_text (get "schema_version" d) "0.1-draft"
      && is_text (get "report_kind" d) "sandbox_normalized_evidence"
      && list_of (text_that (contains sandbox_signals)) (get "decision_signals" d)
    then dedupe (listed (get "decision_signals" d))
    else "sandbox_evidence_invalid" ∷ []
  where
    listed : Value → List String
    listed (list vs) = strings (items vs)
    listed _ = []
signals_of _ = "sandbox_evidence_invalid" ∷ []

pub record SandboxGateSignals : Type 0 where
  pub verdict_candidates : List String
  pub verdict_reasons : List String
  pub blocking_evidence : List String
  pub warning_evidence : List String

abbrev pub nothing : SandboxGateSignals
nothing = record {
  verdict_candidates = [];
  verdict_reasons = [];
  blocking_evidence = [];
  warning_evidence = [];
}

-- one signal of the item with this ID
unfoldable pub add_signal : String → String → SandboxGateSignals → SandboxGateSignals
add_signal id signal g =
    let candidate = sandbox_signal_verdict signal in
    record {
      verdict_candidates = g.verdict_candidates ++ (candidate ∷ []);
      verdict_reasons =
          g.verdict_reasons ++ (format ("sandbox_signal:" ∷ signal ∷ ":" ∷ id ∷ []) ∷ []);
      blocking_evidence =
          if candidate == "block" then g.blocking_evidence ++ (id ∷ []) else g.blocking_evidence;
      warning_evidence =
          if candidate == "block" then g.warning_evidence else g.warning_evidence ++ (id ∷ []);
    }

unfoldable pub add_signals : String → List String → SandboxGateSignals → SandboxGateSignals
unfolding add_signal
add_signals id [] g = g
add_signals id (signal ∷ signals) g = add_signals id signals (add_signal id signal g)

module _ (decimal : ℕ → String) where
  -- the items from `index` on; `str` of an int is an argument
  unfoldable pub add_items : ℕ → List Value → SandboxGateSignals → SandboxGateSignals
  unfolding add_signals signals_of
  add_items index [] g = g
  add_items index (item ∷ rest) g =
      add_items (suc index) rest
        (add_signals (format ("sandbox_evidence:" ∷ decimal index ∷ [])) (signals_of item) g)

  unfoldable pub sandbox_gate_signals : List Value → SandboxGateSignals
  unfolding add_items
  sandbox_gate_signals given = add_items 1 given nothing
