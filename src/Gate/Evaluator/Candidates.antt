-- ===== src/Gate/Evaluator/Candidates.antt =====
-- gate/evaluator.py: the candidates of `_sandbox_gate_signals`, and the signals that are set in a report.
use repo_health_doctor.Base.{
  ℕ, suc, String, ◌≡◌, refl, sym, ap, Bool, true, false, List, [], ◌∷◌, Memᴰ, All, mem-append_left,
  mem-append_right,
}
use repo_health_doctor.Json.{Value}
use repo_health_doctor.Evidence.SandboxRun.{flagged}
use repo_health_doctor.Gate.Evaluator.Sandbox.{
  SandboxGateSignals, sandbox_signal_verdict, signals_of, add_signal, add_signals, add_items,
  nothing, sandbox_gate_signals,
}

add_signals-keeps :
    {c : String} (id : String) (ss : List String) (g : SandboxGateSignals)
    → Memᴰ c g.verdict_candidates
    → Memᴰ c (add_signals id ss g).verdict_candidates
unfolding add_signals add_signal
add_signals-keeps id [] g m = m
add_signals-keeps id (s ∷ ss) g m =
    add_signals-keeps id ss (add_signal id s g) (mem-append_left _ m)

add_signals-mem :
    {s : String} (id : String) (ss : List String) (g : SandboxGateSignals)
    → Memᴰ s ss
    → Memᴰ (sandbox_signal_verdict s) (add_signals id ss g).verdict_candidates
unfolding add_signals add_signal
add_signals-mem id [] g m = elim m [ ]
add_signals-mem id (s ∷ ss) g (Memᴰ.head e) =
    add_signals-keeps id ss (add_signal id s g)
      (mem-append_right g.verdict_candidates (Memᴰ.head (ap sandbox_signal_verdict e)))
add_signals-mem id (s ∷ ss) g (Memᴰ.tail m) = add_signals-mem id ss (add_signal id s g) m

module _ (decimal : ℕ → String) where
  add_items-keeps :
      {c : String} (index : ℕ) (given : List Value) (g : SandboxGateSignals)
      → Memᴰ c g.verdict_candidates
      → Memᴰ c (add_items decimal index given g).verdict_candidates
  unfolding add_items
  add_items-keeps index [] g m = m
  add_items-keeps index (item ∷ rest) g m =
      add_items-keeps (suc index) rest _ (add_signals-keeps _ (signals_of item) g m)

  add_items-mem :
      {item : Value} {s : String} (index : ℕ) (given : List Value) (g : SandboxGateSignals)
      → Memᴰ item given
      → Memᴰ s (signals_of item)
      → Memᴰ (sandbox_signal_verdict s) (add_items decimal index given g).verdict_candidates
  unfolding add_items
  add_items-mem index [] g m n = elim m [ ]
  add_items-mem index (item ∷ rest) g (Memᴰ.head e) n =
      add_items-keeps (suc index) rest _ (add_signals-mem _ (signals_of item) g (rw e at n))
  add_items-mem index (item ∷ rest) g (Memᴰ.tail m) n = add_items-mem (suc index) rest _ m n

  -- A signal of an item gives its verdict as a candidate.
  pub sandbox_gate_signals-mem :
      {item : Value} {s : String} (given : List Value)
      → Memᴰ item given
      → Memᴰ s (signals_of item)
      → Memᴰ (sandbox_signal_verdict s) (sandbox_gate_signals decimal given).verdict_candidates
  unfolding sandbox_gate_signals
  sandbox_gate_signals-mem given m n = add_items-mem 1 given nothing m n

pub mem-flagged : {s : String} (fs : List (Bool × String)) → Memᴰ (true, s) fs → Memᴰ s (flagged fs)
mem-flagged [] m = elim m [ ]
mem-flagged ((b, t) ∷ fs) (Memᴰ.head e) = rw (sym (ap (λ f. f.0) e)) (Memᴰ.head (ap (λ f. f.1) e))
mem-flagged ((true, t) ∷ fs) (Memᴰ.tail m) = Memᴰ.tail (mem-flagged fs m)
mem-flagged ((false, t) ∷ fs) (Memᴰ.tail m) = mem-flagged fs m

pub flagged-eq-nil : (fs : List (Bool × String)) → flagged fs ≡ [] → All (λ f. f.0 ≡ false) fs
flagged-eq-nil [] h = tt
flagged-eq-nil ((true, s) ∷ fs) h = cc
flagged-eq-nil ((false, s) ∷ fs) h = (refl, flagged-eq-nil fs h)
