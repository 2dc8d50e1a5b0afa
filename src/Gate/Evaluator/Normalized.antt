-- ===== src/Gate/Evaluator/Normalized.antt =====
-- evidence/sandbox_run.py and gate/evaluator.py: the signals of evidence that
-- normalize_sandbox_run_evidence returns, as `_sandbox_gate_signals` reads them.
use repo_health_doctor.Base.{
  String, ◌≡◌, refl, ap, Bool, true, false, List, [], ◌∷◌, all, contains, dedupe, and-eq-true_iff,
}
use repo_health_doctor.Json.{str, list, dict, Fields, get, items, strings}
use repo_health_doctor.Json.Runtime.{Runtime}
use repo_health_doctor.Sandbox.Policy.Default.{texts}
use repo_health_doctor.Sandbox.Guards.{text_that}
use repo_health_doctor.Evidence.SandboxRun.{flags, flagged, found, decision_signals}
use repo_health_doctor.Evidence.SandboxRun.Normalized.{normalized}
use repo_health_doctor.Gate.Evaluator.Sandbox.{sandbox_signals, signals_of}

pub flagged-all :
    (p : String → Bool) (fs : List (Bool × String))
    → all (λ f. p f.1) fs ≡ true
    → all (text_that p) (items (texts (flagged fs))) ≡ true
flagged-all p [] h = refl
flagged-all p ((true, s) ∷ fs) h =
    let (e, k) = (and-eq-true_iff (p s) _).0 h in rw e (flagged-all p fs k)
flagged-all p ((false, s) ∷ fs) h = flagged-all p fs ((and-eq-true_iff (p s) _).0 h).1

pub strings-texts : (ss : List String) → strings (items (texts ss)) ≡ ss
strings-texts [] = refl
strings-texts (s ∷ ss) = ap (λ t. s ∷ t) (strings-texts ss)

pub signals_of-list :
    (d : Fields) (ss : List String)
    → get "schema_version" d ≡ str "0.1-draft"
    → get "report_kind" d ≡ str "sandbox_normalized_evidence"
    → get "decision_signals" d ≡ list (texts ss)
    → all (text_that (contains sandbox_signals)) (items (texts ss)) ≡ true
    → signals_of (dict d) ≡ dedupe ss
unfolding signals_of
signals_of-list d ss h k l m = rw h (rw k (rw l (rw m (ap dedupe (strings-texts ss)))))

-- The gate reads of a normalized report the signals that its normalization has found.
pub signals_of-normalized :
    (rt : Runtime) (given : Bool) (source : Fields) (other_kind : Bool)
    → signals_of (dict (normalized rt given source other_kind))
      ≡ dedupe (decision_signals (found rt given source other_kind))
unfolding normalized decision_signals
signals_of-normalized rt given source other_kind =
    signals_of-list (normalized rt given source other_kind) _ refl refl refl
      (flagged-all (contains sandbox_signals) (flags (found rt given source other_kind)) refl)
