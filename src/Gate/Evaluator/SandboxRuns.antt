-- ===== src/Gate/Evaluator/SandboxRuns.antt =====
-- What the evidence of sandbox runs makes of the verdict: `_sandbox_gate_signals` on what
-- normalize_sandbox_run_evidence returns, in `evaluate_gate_decision`.
use repo_health_doctor.Base.{
  ℕ, String, ◌≡◌, ◌≢◌, inl, inr, refl, sym, ap, ◌∙◌, Bool, true, false, ◌||◌, List, [], ◌∷◌, ◌++◌,
  Memᴰ, All, or_left, or_right, mem-append_right, mem-dedupe, Bool-cases, ◌==◌, eq_iff, not,
  not-false, arith,
}
use repo_health_doctor.Base.Int.{pos, ◌≤ℤ◌}
use repo_health_doctor.Base.Py.{ok, >>=-eq-ok}
use repo_health_doctor.Json.{
  Value, dict, items, Fields, get, is_dict, is_text, is_true, mapping, not_member,
}
use repo_health_doctor.Json.Runtime.{Runtime}
use repo_health_doctor.Evidence.SandboxRun.{
  flags, found, decision_signals, fingerprint_wrong, binding_status, binding_of, is_end, timed_out,
  cleanup_status, observer_degraded, runner_kind, is_dry,
}
use repo_health_doctor.Evidence.SandboxRun.Normalized.{normalized, normalize_sandbox_run_evidence}
use repo_health_doctor.Gate.Verdict.{
  verdict_order, strongest_verdict, strongest_verdict-mem, strongest_verdict-block,
}
use repo_health_doctor.Gate.Evaluator.{Evaluation, evaluate_verdict}
use repo_health_doctor.Gate.Evaluator.Signals.{value_eq}
use repo_health_doctor.Gate.Evaluator.Steps.{evaluate_verdict-reported}
use repo_health_doctor.Gate.Evaluator.Mismatch.{IsMismatched, IsMismatched-status}
use repo_health_doctor.Gate.Evaluator.Candidates.{sandbox_gate_signals-mem, mem-flagged}
use repo_health_doctor.Gate.Evaluator.Normalized.{signals_of-normalized}
use repo_health_doctor.Gate.Evaluator.Sandbox.{
  sandbox_signal_verdict, signals_of, sandbox_gate_signals,
}

-- The report of a run that must not be repeated: blocked by the policy, or bound to something else by
-- the first binding that it has: of a snapshot, of a worktree, or its own.
pub data Refused (rt : Runtime) (source : Fields) : Type 0 where
  blocked : is_true (get "policy_blocked" source) ≡ true → Refused rt source
  blocked_by_gate :
      is_true (get "policy_blocked" (mapping (get "gate" source))) ≡ true → Refused rt source
  mismatched :
      is_end (binding_of rt (mapping (get "authorization" source)) source) ≡ false
      → IsMismatched rt (binding_of rt (mapping (get "authorization" source)) source)
      → Refused rt source

-- The report of a real run in which nothing went wrong.
pub record IsClean (rt : Runtime) (report : Value) : Type 0 where
  pub object : is_dict report ≡ true
  pub schema_version : is_text (get "schema_version" (mapping report)) "0.1-draft" ≡ true
  pub report_kind :
      not_member ("sandbox_run" ∷ "sandbox_run_report" ∷ []) (get "report_kind" (mapping report))
      ≡ ok false
  pub own_fingerprint : fingerprint_wrong rt (mapping report) ≡ false
  pub accepted : ¬ (Refused rt (mapping report))
  pub in_time : timed_out rt (mapping (get "result" (mapping report))) ≡ false
  pub cleaned : cleanup_status rt (mapping report) ≢ "failed"
  pub observed : observer_degraded (mapping report) ≡ false
  pub real :
      runner_kind (mapping (get "run" (mapping report))) (mapping (get "docker" (mapping report)))
      ≢ "fake"
  pub executed :
      is_dry rt (mapping (get "run" (mapping report))) (mapping (get "result" (mapping report)))
      ≡ false
  pub fresh : is_true (get "stale" (mapping report)) ≡ false
  pub complete : is_true (get "truncated" (mapping report)) ≡ false

pub neither : (a b : Bool) → (a || b) ≡ false → (a ≡ false) × (b ≡ false)
neither false b h = (refl, h)
neither true b h = cc

both_values : {b : Bool} → b ≡ true → b ≡ false → ⊥
both_values h k = let e : true ≡ false = sym h ∙ k in cc

different : (s t : String) → (s == t) ≡ false → s ≢ t
different s t h e = ground (arith, eq_iff s t)

mismatched_lem :
    (rt : Runtime) (source : Fields)
    → is_end (binding_of rt (mapping (get "authorization" source)) source) ≡ false
    → IsMismatched rt (binding_of rt (mapping (get "authorization" source)) source)
    → (binding_status rt (mapping (get "authorization" source)) source).1 ≡ true
mismatched_lem rt source given m = rw given (IsMismatched-status rt _ m)

signal_above : (s : String) → pos 1 ≤ℤ verdict_order (sandbox_signal_verdict s)
unfolding verdict_order
signal_above s =
    elim (Bool-cases (s == "execution_policy_blocked" || s == "subject_binding_mismatch")) [
      | inl e ↦ rw e (omega arith)
      | inr e ↦ elim (Bool-cases (s == "workspace_cleanup_failed")) [
        | inl k ↦ rw e (rw k (omega arith))
        | inr k ↦ rw e (rw k (omega arith))
      ]
    ]

above :
    (c : String) (cs : List String)
    → pos 1 ≤ℤ verdict_order c
    → Memᴰ c cs
    → strongest_verdict cs ≢ "allow_limited"
unfolding verdict_order
above c [] l m e = elim m [ ]
above c (d ∷ cs) l m e =
    let h = (strongest_verdict-mem (d ∷ cs) (λ q. cc)).1 c m in let k = rw e at h in omega arith

module _ (rt : Runtime) (policy : Fields) (decimal : ℕ → String) where
  abbrev Evaluated : List Fields → List String → List Value → Evaluation → Type 0
  Evaluated items suites given o =
      evaluate_verdict rt policy items
        (suites ++ (sandbox_gate_signals decimal given).verdict_candidates)
      ≡ ok o

  candidate :
      {item : Value} {s : String} (items : List Fields) (suites : List String) (given : List Value)
      (o : Evaluation)
      → Evaluated items suites given o
      → Memᴰ item given
      → Memᴰ s (signals_of item)
      → Memᴰ (sandbox_signal_verdict s) o.verdict_candidates
        × (o.verdict ≡ strongest_verdict o.verdict_candidates)
  candidate items suites given o h m n =
      evaluate_verdict-reported rt policy items _ o h
        (mem-append_right suites (sandbox_gate_signals-mem decimal given m n))

  pub quiet :
      (item : Value) (items : List Fields) (suites : List String) (given : List Value)
      (o : Evaluation)
      → Evaluated items suites given o
      → o.verdict ≡ "allow_limited"
      → Memᴰ item given
      → signals_of item ≡ []
  quiet item items suites given o h e m = none_in (signals_of item) (λ s n.
      let (c, q) = candidate items suites given o h m n in
      above (sandbox_signal_verdict s) o.verdict_candidates (signal_above s) c (sym q ∙ e))
    where
      none_in : (ss : List String) → ((s : String) → ¬ (Memᴰ s ss)) → ss ≡ []
      none_in [] f = refl
      none_in (s ∷ ss) f = absurd (f s (Memᴰ.head refl))

  signal_given :
      {s : String} (items : List Fields) (suites : List String) (given : List Value)
      (o : Evaluation) (source : Fields) (of_object other_kind : Bool)
      → Evaluated items suites given o
      → Memᴰ (dict (normalized rt of_object source other_kind)) given
      → Memᴰ (true, s) (flags (found rt of_object source other_kind))
      → Memᴰ (sandbox_signal_verdict s) o.verdict_candidates
        × (o.verdict ≡ strongest_verdict o.verdict_candidates)
  unfolding decision_signals
  signal_given items suites given o source of_object other_kind h m n =
      let k = mem-dedupe _ (mem-flagged (flags (found rt of_object source other_kind)) n) in
      candidate items suites given o h m
        (rw (sym (signals_of-normalized rt of_object source other_kind)) at k)

  pub normalize-eq-ok :
      (report : Value) (e : Fields)
      → normalize_sandbox_run_evidence rt report ≡ ok e
      → (k : Bool) × (not_member
            ("sandbox_run" ∷ "sandbox_run_report" ∷ [])
            (get "report_kind" (mapping report))
          ≡ ok k)
        × (normalized rt (is_dict report) (mapping report) k ≡ e)
  unfolding normalize_sandbox_run_evidence
  normalize-eq-ok report e n =
      let (k, h, q) =
        >>=-eq-ok
          (not_member ("sandbox_run" ∷ "sandbox_run_report" ∷ [])
            (get "report_kind" (mapping report)))
          (λ x. ok (normalized rt (is_dict report) (mapping report) x)) n in
      (k, h, value_eq _ _ q)

  -- the flag of the signal is set, and it is one of the two that block
  Refused-flag :
      (of_object : Bool) (source : Fields) (other_kind : Bool)
      → Refused rt source
      → (s : String) × Memᴰ (true, s) (flags (found rt of_object source other_kind))
        × (sandbox_signal_verdict s ≡ "block")
  unfolding found
  Refused-flag of_object source other_kind (blocked e) = (
    "execution_policy_blocked",
    Memᴰ.head (ap (λ b. (b, "execution_policy_blocked")) (sym (or_left _ _ e))),
    refl,
  )
  Refused-flag of_object source other_kind (blocked_by_gate e) = (
    "execution_policy_blocked",
    Memᴰ.head (ap (λ b. (b, "execution_policy_blocked")) (sym (or_right _ _ e))),
    refl,
  )
  Refused-flag of_object source other_kind (mismatched given m) = (
    "subject_binding_mismatch",
    Memᴰ.tail (
        Memᴰ.head
          (ap (λ b. (b, "subject_binding_mismatch")) (sym (mismatched_lem rt source given m)))),
    refl,
  )

  -- Where evaluate_gate_decision reaches a verdict, and the report of a sandbox run that is refused is
  -- among the evidence of the runs, normalized, the verdict is "block", whatever else is given.
  pub evaluate_verdict-Refused :
      (items : List Fields) (suites : List String) (given : List Value) (o : Evaluation)
      (report : Value) (e : Fields)
      → evaluate_verdict rt policy items
          (suites ++ (sandbox_gate_signals decimal given).verdict_candidates)
        ≡ ok o
      → normalize_sandbox_run_evidence rt report ≡ ok e
      → Memᴰ (dict e) given
      → Refused rt (mapping report)
      → o.verdict ≡ "block"
  evaluate_verdict-Refused items suites given o report e h n m r =
      let (k, _, q) = normalize-eq-ok report e n in
      let (s, f, b) = Refused-flag (is_dict report) (mapping report) k r in
      let (c, v) =
        signal_given items suites given o (mapping report) (is_dict report) k h (rw (sym q) at m)
          f in
      v ∙ strongest_verdict-block o.verdict_candidates (rw b at c)

  pub unset_flags :
      (report : Value) (k : Bool)
      → not_member ("sandbox_run" ∷ "sandbox_run_report" ∷ []) (get "report_kind" (mapping report))
        ≡ ok k
      → All (λ f. f.0 ≡ false) (flags (found rt (is_dict report) (mapping report) k))
      → IsClean rt report
  unfolding found
  unset_flags report k h fs =
      let source = mapping report in
      let (i1, _) = neither _ _ fs.1.1.1.1.1.1.0 in
      let (i2, _) = neither _ _ i1 in
      let (i3, wrong) = neither _ (fingerprint_wrong rt source) i2 in
      let (i4, kind) = neither _ k i3 in
      let (ungiven, unversioned) = neither (not (is_dict report)) _ i4 in
      let (by_policy, by_gate) = neither (is_true (get "policy_blocked" source)) _ fs.0 in
      let (uncleaned, _) = neither (cleanup_status rt source == "failed") _ fs.1.1.1.0 in
      let (fake, dry) =
        neither (runner_kind (mapping (get "run" source)) (mapping (get "docker" source)) == "fake")
          _ fs.1.1.1.1.1.0 in
      let (cut, _) = neither (is_true (get "truncated" source)) _ fs.1.1.1.1.1.1.1.1.0 in
      record {
        object = not-false _ ungiven;
        schema_version = not-false _ unversioned;
        report_kind = rw kind at h;
        own_fingerprint = wrong;
        accepted = λ r. unrefused r by_policy by_gate fs.1.0;
        in_time = fs.1.1.0;
        cleaned = different _ _ uncleaned;
        observed = fs.1.1.1.1.0;
        real = different _ _ fake;
        executed = dry;
        fresh = fs.1.1.1.1.1.1.1.0;
        complete = cut;
      }
    where
      unrefused :
          {source : Fields}
          → Refused rt source
          → is_true (get "policy_blocked" source) ≡ false
          → is_true (get "policy_blocked" (mapping (get "gate" source))) ≡ false
          → (binding_status rt (mapping (get "authorization" source)) source).1 ≡ false
          → ⊥
      unrefused (blocked e) p q r = both_values e p
      unrefused (blocked_by_gate e) p q r = both_values e q
      unrefused {source} (mismatched given m) p q r =
          both_values (mismatched_lem rt source given m) r
