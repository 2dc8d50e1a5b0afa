-- ===== src/Gate/SandboxEvidence/Judged.antt =====
-- What a verdict of the gate says of the reports that validate_sandbox_run_evidence has judged.
use repo_health_doctor.Base.{
  ℕ, String, ◌≡◌, inl, inr, refl, sym, ap, ◌∙◌, Bool, true, false, ◌&&◌, List, [], ◌∷◌, ◌++◌, Memᴰ,
  All, all, without, contains, mem-contains, dedupe, is_empty, mem-dedupe, dedupe-eq-nil,
  append-eq-nil, Bool-cases, and-eq-true_iff, ◌==◌,
}
use repo_health_doctor.Base.Py.{ok}
use repo_health_doctor.Json.{Value, list, dict, Fields, is_dict, items, mapping}
use repo_health_doctor.Json.Runtime.{Runtime}
use repo_health_doctor.Sandbox.Policy.Default.{texts}
use repo_health_doctor.Sandbox.Guards.{text_that}
use repo_health_doctor.Evidence.SandboxRun.{flagged, flags, found, decision_signals}
use repo_health_doctor.Evidence.SandboxRun.Normalized.{normalized}
use repo_health_doctor.Gate.Evaluator.{Evaluation, evaluate_verdict}
use repo_health_doctor.Gate.Evaluator.Candidates.{mem-flagged, flagged-eq-nil}
use repo_health_doctor.Gate.Evaluator.Normalized.{flagged-all, strings-texts, signals_of-list}
use repo_health_doctor.Gate.Evaluator.Sandbox.{sandbox_signals, signals_of, sandbox_gate_signals}
use repo_health_doctor.Gate.Evaluator.SandboxRuns.{
  IsClean, neither, quiet, normalize-eq-ok, unset_flags,
}
use repo_health_doctor.Gate.SandboxEvidence.{
  Expected, SandboxRunEvidenceValidationResult, Faults, reason_flags, reasons_of, signal_flags,
  validated_signals, faults, judged, validate_sandbox_run_evidence,
}
use repo_health_doctor.Gate.SandboxEvidence.Current.{validated}

all-without :
    (p : String → Bool) (y : String) (xs : List String)
    → all p xs ≡ true
    → all p (without y xs) ≡ true
all-without p y [] h = refl
all-without p y (x ∷ xs) h = elim (Bool-cases (x == y)) [
  | inl e ↦ rw e (all-without p y xs ((and-eq-true_iff (p x) _).0 h).1)
  | inr e ↦ rw e (
      (and-eq-true_iff (p x) _).1
        (((and-eq-true_iff (p x) _).0 h).0, all-without p y xs ((and-eq-true_iff (p x) _).0 h).1))
]

all-dedupe : (p : String → Bool) (xs : List String) → all p xs ≡ true → all p (dedupe xs) ≡ true
all-dedupe p [] h = refl
all-dedupe p (x ∷ xs) h =
    let (e, k) = (and-eq-true_iff (p x) _).0 h in
    (and-eq-true_iff (p x) _).1 (e, all-without p x (dedupe xs) (all-dedupe p xs k))

all-append :
    (p : String → Bool) (xs ys : List String)
    → all p xs ≡ true
    → all p ys ≡ true
    → all p (xs ++ ys) ≡ true
all-append p [] ys h k = k
all-append p (x ∷ xs) ys h k =
    let (e, l) = (and-eq-true_iff (p x) _).0 h in
    (and-eq-true_iff (p x) _).1 (e, all-append p xs ys l k)

all-texts : (p : String → Bool) (ss : List String) → all (text_that p) (items (texts ss)) ≡ all p ss
all-texts p [] = refl
all-texts p (s ∷ ss) = ap (λ b. p s && b) (all-texts p ss)

flagged-known :
    (p : String → Bool) (fs : List (Bool × String))
    → all (λ f. p f.1) fs ≡ true
    → all p (flagged fs) ≡ true
flagged-known p fs h = sym (all-texts p (flagged fs)) ∙ flagged-all p fs h

-- a flag whose name is not among the reasons is not set
reason-unset :
    (f : Faults) (b : Bool) (s : String)
    → Memᴰ (b, s) (reason_flags f)
    → contains (reasons_of f) s ≡ false
    → b ≡ false
unfolding reasons_of
reason-unset f false s m h = refl
reason-unset f true s m h =
    let k = mem-contains s _ (mem-dedupe _ (mem-flagged (reason_flags f) m)) in
    let e : true ≡ false = sym k ∙ h in cc

flagged-eq-nil_of : (fs : List (Bool × String)) → All (λ f. f.0 ≡ false) fs → flagged fs ≡ []
flagged-eq-nil_of [] h = refl
flagged-eq-nil_of ((true, s) ∷ fs) (e, h) = cc
flagged-eq-nil_of ((false, s) ∷ fs) (e, h) = flagged-eq-nil_of fs h

-- No signal of the validation means no reason.
signal_flags-unset :
    (f : Faults) → flagged (signal_flags (reasons_of f)) ≡ [] → is_empty (reasons_of f) ≡ true
unfolding reasons_of
signal_flags-unset f h =
    let k = flagged-eq-nil (signal_flags (reasons_of f)) h in
    let (i, p) = neither _ _ k.0 in
    let (i1, i2) = neither _ _ i in
    let invalid = reason-unset f _ _ (Memᴰ.head refl) i1 in
    let mismatch = (neither _ f.fingerprint_mismatch invalid).1 in
    let stale = reason-unset f f.stale _ (Memᴰ.tail (Memᴰ.tail (Memᴰ.head refl))) k.1.0 in
    let subject_mismatch =
      reason-unset f f.subject_mismatch _ (Memᴰ.tail (Memᴰ.tail (Memᴰ.tail (Memᴰ.head refl))))
        k.1.1.0 in
    let policy_mismatch =
      reason-unset f f.policy_mismatch _
        (Memᴰ.tail (Memᴰ.tail (Memᴰ.tail (Memᴰ.tail (Memᴰ.head refl))))) p in
    let over_budget =
      reason-unset f f.over_budget _
        (Memᴰ.tail (Memᴰ.tail (Memᴰ.tail (Memᴰ.tail (Memᴰ.tail (Memᴰ.head refl)))))) k.1.1.1.0 in
    let duplicate =
      reason-unset f f.duplicate _
        (Memᴰ.tail (Memᴰ.tail (Memᴰ.tail (Memᴰ.tail (Memᴰ.tail (Memᴰ.tail (Memᴰ.head refl)))))))
        i2 in
    let truncated =
      reason-unset f f.truncated _
        (Memᴰ.tail
          (Memᴰ.tail (Memᴰ.tail (Memᴰ.tail (Memᴰ.tail (Memᴰ.tail (Memᴰ.tail (Memᴰ.head refl))))))))
        k.1.1.1.1.0 in
    let none = flagged-eq-nil_of (reason_flags f) (
      invalid,
      (
        mismatch,
        (stale, (subject_mismatch, (policy_mismatch, (over_budget, (duplicate, (truncated, tt)))))),
      ),
    ) in
    rw none refl

module _ (rt : Runtime) where
  -- The gate reads the signals of the report and those of the validation.
  signals_of-judged :
      (f : Faults) (of_object : Bool) (source : Fields) (other_kind : Bool)
      → signals_of
          (dict (judged rt f (normalized rt of_object source other_kind)).normalized_evidence)
        ≡ dedupe (
            dedupe (
              decision_signals (found rt of_object source other_kind)
              ++ flagged (signal_flags (reasons_of f))))
  unfolding judged normalized decision_signals validated_signals
  signals_of-judged f of_object source other_kind =
      let ss = flagged (flags (found rt of_object source other_kind)) in
      let more = flagged (signal_flags (reasons_of f)) in
      let e = strings-texts ss in
      signals_of-list (judged rt f (normalized rt of_object source other_kind)).normalized_evidence
        (dedupe (ss ++ more)) refl refl (ap (λ x. list (texts (dedupe (x ++ more)))) e)
        (all-texts (contains sandbox_signals) (dedupe (ss ++ more))
          ∙ all-dedupe (contains sandbox_signals) (ss ++ more) (
              all-append (contains sandbox_signals) ss more
                (flagged-known (contains sandbox_signals)
                  (flags (found rt of_object source other_kind)) refl)
                (flagged-known (contains sandbox_signals) (signal_flags (reasons_of f)) refl)))

  -- Where evaluate_gate_decision reaches the verdict "allow_limited", each report that
  -- validate_sandbox_run_evidence has judged, and whose evidence is given to it, is valid, and it is the
  -- report of a clean run.
  pub evaluate_verdict-validated :
      (policy : Fields) (decimal : ℕ → String) (items : List Fields) (suites : List String)
      (given : List Value) (o : Evaluation) (expected : Expected) (report : Value)
      (r : SandboxRunEvidenceValidationResult)
      → evaluate_verdict rt policy items
          (suites ++ (sandbox_gate_signals decimal given).verdict_candidates)
        ≡ ok o
      → o.verdict ≡ "allow_limited"
      → validate_sandbox_run_evidence rt expected report ≡ ok r
      → Memᴰ (dict r.normalized_evidence) given
      → (r.valid ≡ true) × IsClean rt report
  unfolding decision_signals judged
  evaluate_verdict-validated policy decimal items suites given o expected report r h a v m =
      let (e, n, q, _) = validated rt expected report r v in
      let (k, l, w) = normalize-eq-ok rt policy decimal report e n in
      let f = faults rt expected report e in
      let none =
        sym (signals_of-judged f (is_dict report) (mapping report) k)
        ∙ ap (λ x. signals_of (dict (judged rt f x).normalized_evidence)) w
        ∙ ap (λ x. signals_of (dict x.normalized_evidence)) q
        ∙ quiet rt policy decimal (dict r.normalized_evidence) items suites given o h a m in
      let (unset, silent) = append-eq-nil _ _ (dedupe-eq-nil _ (dedupe-eq-nil _ none)) in
      (
        sym (ap (λ x. x.valid) q) ∙ signal_flags-unset f silent,
        unset_flags rt policy decimal report k l
            (flagged-eq-nil (flags (found rt (is_dict report) (mapping report) k)) unset),
      )
