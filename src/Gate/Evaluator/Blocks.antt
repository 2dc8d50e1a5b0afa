-- ===== src/Gate/Evaluator/Blocks.antt =====
-- What a blocking item of evidence makes of the verdict, and what an allowing verdict says of the items.
use repo_health_doctor.Base.{
  String, ◌≡◌, ◌≢◌, inl, inr, refl, sym, ap, ◌∙◌, Bool, true, false, List, [], ◌∷◌, ◌++◌, Memᴰ,
  is_empty, mem-append_left, mem-append_right, or_left, or_right, Bool-cases, if◌then◌else◌,
}
use repo_health_doctor.Base.Py.{ok, >>=-eq-ok}
use repo_health_doctor.Json.{str, dict, Fields, get, get_or, is_true, mapping, member}
use repo_health_doctor.Json.Runtime.{Runtime, text_of}
use repo_health_doctor.Evidence.Validation.{
  EvidenceValidationResult, validate_evidence, low_trust_levels,
}
use repo_health_doctor.Evidence.Validation.Sound.{IsValid}
use repo_health_doctor.Gate.Verdict.{strongest_verdict-block}
use repo_health_doctor.Gate.Evaluator.Markers.{blocking_marker, tokens, warn_signal}
use repo_health_doctor.Gate.Evaluator.{
  Signal, Tally, select, signal, item_tests, bound_kinds, limitation_signals, evaluate_item, absorb,
  evaluate_items, start, Evaluation, evaluate_verdict, blocking_evidence,
}
use repo_health_doctor.Gate.Evaluator.Steps.{evaluate_verdict-Steps, candidates-mem, unknown-above}
use repo_health_doctor.Gate.Evaluator.Signals.{
  value_eq, select-mem, verdicts-mem, here, text-is, retained-true, leaks-true, marked-true,
  critical-mem, Blocking, leaks, marked, critical_limitation, invalid, attempts, authorizes,
  retains, unredacted, recommended,
}

module _ (rt : Runtime) (policy : Fields) where
  -- what the evaluator records of an item, of its validation and its tokens
  abbrev all_signals :
      Fields → String → Bool → List String → Bool → EvidenceValidationResult → List Signal
  all_signals item id low ts warns r =
      select (item_tests rt policy item id r.valid low ts warns)
      ++ limitation_signals rt policy id r.limitations

  from_test :
      (item : Fields) (id : String) (low : Bool) (ts : List String) (warns : Bool)
      (r : EvidenceValidationResult) (s : Signal)
      → Memᴰ (true, s) (item_tests rt policy item id r.valid low ts warns)
      → s.verdict ≡ "block"
      → (s : Signal) × Memᴰ s (all_signals item id low ts warns r) × (s.verdict ≡ "block")
  from_test item id low ts warns r s m e = (
    s,
    mem-append_left (limitation_signals rt policy id r.limitations)
        (select-mem (item_tests rt policy item id r.valid low ts warns) m),
    e,
  )

  marker_test :
      (item : Fields) (id : String) (low : Bool) (ts : List String) (warns : Bool)
      (r : EvidenceValidationResult)
      → blocking_marker rt ts ≡ true
      → (s : Signal) × Memᴰ s (all_signals item id low ts warns r) × (s.verdict ≡ "block")
  marker_test item id low ts warns r h =
      from_test item id low ts warns r _
        (Memᴰ.tail (
          Memᴰ.tail (
            Memᴰ.tail (
              Memᴰ.tail (
                Memᴰ.tail (
                  Memᴰ.tail (
                    Memᴰ.tail
                      (here (signal "block" "blocking_marker" blocking_evidence id) _ h))))))))
        refl

  Blocking-signals :
      (item : Fields) (id : String) (low : Bool) (ts : List String) (warns : Bool)
      (r : EvidenceValidationResult)
      → validate_evidence (dict item) ≡ ok r
      → tokens rt item ≡ ok ts
      → Blocking rt policy item
      → (s : Signal) × Memᴰ s (all_signals item id low ts warns r) × (s.verdict ≡ "block")
  Blocking-signals item id low ts warns r v t (invalid u h e) =
      let q : r.valid ≡ false = ap (λ x. x.valid) (value_eq _ _ (sym v ∙ h)) ∙ e in
      from_test item id low ts warns r _
        (here (signal "block" "invalid_evidence" blocking_evidence id) _ (rw q refl)) refl
  Blocking-signals item id low ts warns r v t (attempts e) =
      from_test item id low ts warns r _
        (Memᴰ.tail (
          here (signal "block" "execution_authorization_attempt" blocking_evidence id) _ (
            or_left (is_true (get "execution_authorized" item))
              (is_true (get "can_authorize_execution" (mapping (get "effects" item))))
              (rw e refl))))
        refl
  Blocking-signals item id low ts warns r v t (authorizes e) =
      from_test item id low ts warns r _
        (Memᴰ.tail (
          here (signal "block" "execution_authorization_attempt" blocking_evidence id) _ (
            or_right (is_true (get "execution_authorized" item))
              (is_true (get "can_authorize_execution" (mapping (get "effects" item))))
              (rw e refl))))
        refl
  Blocking-signals item id low ts warns r v t (retains name m e) =
      from_test item id low ts warns r _
        (Memᴰ.tail (
          Memᴰ.tail (
            here (signal "block" "raw_output_retained" blocking_evidence id) _
              (retained-true _ name m e))))
        refl
  Blocking-signals item id low ts warns r v t (unredacted e) =
      from_test item id low ts warns r _
        (Memᴰ.tail (
          Memᴰ.tail (
            Memᴰ.tail
              (here (signal "block" "redaction_failed" blocking_evidence id) _ (text-is _ _ e)))))
        refl
  Blocking-signals item id low ts warns r v t (recommended e) =
      from_test item id low ts warns r _
        (Memᴰ.tail (
          Memᴰ.tail (
            Memᴰ.tail (
              Memᴰ.tail (
                here (signal "block" "recommended_block" blocking_evidence id) _
                  (text-is _ _ e))))))
        refl
  Blocking-signals item id low ts warns r v t (leaks us name h m n) =
      let q = value_eq us ts (sym h ∙ t) in
      marker_test item id low ts warns r (leaks-true rt ts name m (rw q at n))
  Blocking-signals item id low ts warns r v t (marked us token marker h m n e) =
      let q = value_eq us ts (sym h ∙ t) in
      marker_test item id low ts warns r (marked-true rt ts m (rw q at n) e)
  Blocking-signals item id low ts warns r v t (critical_limitation u l h m e) =
      let q = value_eq u r (sym h ∙ v) in
      let k = rw (ap (λ x. x.limitations) q) at m in
      let (s, n, b) = critical-mem rt policy id r.limitations k e in
      (s, mem-append_right (select (item_tests rt policy item id r.valid low ts warns)) n, b)

  abbrev HasBlock : Tally → Type 0
  HasBlock t = (s : Signal) × Memᴰ s t.signals × (s.verdict ≡ "block")

  evaluate_item-block :
      (item : Fields) (t : Tally)
      → evaluate_item rt policy item ≡ ok t
      → Blocking rt policy item
      → HasBlock t
  unfolding evaluate_item
  evaluate_item-block item t h b =
      let (validation, h1, k1) = >>=-eq-ok (validate_evidence (dict item)) _ h in
      let (runtime, h2, k2) =
        >>=-eq-ok
          (member ("sandbox_observer" ∷ "docker_isolated" ∷ [])
            (get "execution_mode" (mapping (get "source" item))))
          _ k1 in
      let (bound, h3, k3) =
        >>=-eq-ok (member bound_kinds (get "binding_kind" (mapping (get "subject" item)))) _ k2 in
      let (low, h4, k4) =
        >>=-eq-ok (member low_trust_levels (get "level" (mapping (get "trust" item)))) _ k3 in
      let (ts, h5, k5) = >>=-eq-ok (tokens rt item) _ k4 in
      let (warns, h6, k6) =
        >>=-eq-ok (warn_signal rt ts (mapping (get "classification" item))) _ k5 in
      let id = text_of rt (get_or (str "unknown_evidence") "evidence_id" item) in
      let (s, m, e) = Blocking-signals item id low ts warns validation h1 h5 b in
      (s, rw (ap (λ x. x.signals) (value_eq _ _ k6)) at m, e)

  evaluate_items-keeps :
      (items : List Fields) (t u : Tally)
      → evaluate_items rt policy items t ≡ ok u
      → HasBlock t
      → HasBlock u
  unfolding evaluate_items
  evaluate_items-keeps [] t u h b = rw (value_eq t u h) at b
  evaluate_items-keeps (item ∷ rest) t u h (s, m, e) =
      let (v, _, k) = >>=-eq-ok (evaluate_item rt policy item) _ h in
      evaluate_items-keeps rest (absorb rt policy t v) u k (s, mem-append_left v.signals m, e)

  evaluate_items-block :
      {item : Fields} (items : List Fields) (t u : Tally)
      → evaluate_items rt policy items t ≡ ok u
      → Memᴰ item items
      → Blocking rt policy item
      → HasBlock u
  unfolding evaluate_items
  evaluate_items-block [] t u h m b = elim m [ ]
  evaluate_items-block (first ∷ rest) t u h (Memᴰ.head same) b =
      let (v, k, l) = >>=-eq-ok (evaluate_item rt policy first) _ h in
      let (s, m, e) = evaluate_item-block first v k (rw same at b) in
      evaluate_items-keeps rest (absorb rt policy t v) u l (s, mem-append_right t.signals m, e)
  evaluate_items-block (first ∷ rest) t u h (Memᴰ.tail m) b =
      let (v, _, l) = >>=-eq-ok (evaluate_item rt policy first) _ h in
      evaluate_items-block rest (absorb rt policy t v) u l m b

  -- Where evaluate_gate_decision reaches a verdict, and one of the items of evidence is blocking, the
  -- verdict is "block", whatever the policy, the other items and the reports are.
  pub evaluate_verdict-block :
      (items : List Fields) (reported : List String) (o : Evaluation) (item : Fields)
      → evaluate_verdict rt policy items reported ≡ ok o
      → Memᴰ item items
      → Blocking rt policy item
      → o.verdict ≡ "block"
  evaluate_verdict-block items reported o item h m b =
      let w = evaluate_verdict-Steps rt policy items reported o h in
      let (s, n, e) = evaluate_items-block items (start rt policy items) w.tally w.evaluated m b in
      let v = verdicts-mem {s = s} w.tally.signals n in
      let k =
        mem-append_right (if is_empty items then "unknown" ∷ [] else [])
          (mem-append_left reported (rw e at v)) in
      let c =
        candidates-mem rt policy (is_empty items) w.tally reported w.missing_mandatory w.missing
          k in
      w.verdict ∙ strongest_verdict-block o.verdict_candidates (rw (sym w.candidates) at c)

  evaluated_item :
      {item : Fields} (items : List Fields) (t u : Tally)
      → evaluate_items rt policy items t ≡ ok u
      → Memᴰ item items
      → (r : EvidenceValidationResult) × (validate_evidence (dict item) ≡ ok r)
  unfolding evaluate_items evaluate_item
  evaluated_item [] t u h m = elim m [ ]
  evaluated_item (first ∷ rest) t u h (Memᴰ.head same) =
      let (v, k, l) = >>=-eq-ok (evaluate_item rt policy first) _ h in
      let (r, q, _) = >>=-eq-ok (validate_evidence (dict first)) _ k in rw same (r, q)
  evaluated_item (first ∷ rest) t u h (Memᴰ.tail m) =
      let (v, _, l) = >>=-eq-ok (evaluate_item rt policy first) _ h in
      evaluated_item rest (absorb rt policy t v) u l m

  -- Where evaluate_gate_decision reaches the verdict "allow_limited", there is evidence, and each item of
  -- it is valid and not blocking.
  pub evaluate_verdict-allow_limited :
      (items : List Fields) (reported : List String) (o : Evaluation)
      → evaluate_verdict rt policy items reported ≡ ok o
      → o.verdict ≡ "allow_limited"
      → (items ≢ [])
        × ((item : Fields) → Memᴰ item items → IsValid (dict item) × ¬ (Blocking rt policy item))
  evaluate_verdict-allow_limited items reported o h e = (given, each)
    where
      not_block : o.verdict ≢ "block"
      not_block q = let k : ◌≡◌ {A = String} "allow_limited" "block" = sym e ∙ q in cc

      given : items ≢ []
      given q =
          let w = evaluate_verdict-Steps rt policy items reported o h in
          let m =
            candidates-mem rt policy {c = "unknown"} (is_empty items) w.tally reported
              w.missing_mandatory w.missing (rw (ap is_empty q) (Memᴰ.head refl)) in
          unknown-above o.verdict_candidates (rw (sym w.candidates) at m) (sym w.verdict ∙ e)

      each : (item : Fields) → Memᴰ item items → IsValid (dict item) × ¬ (Blocking rt policy item)
      each item m =
          let w = evaluate_verdict-Steps rt policy items reported o h in
          let (r, q) = evaluated_item items (start rt policy items) w.tally w.evaluated m in
          (
            elim (Bool-cases r.valid) [
              | inl good ↦ (r, q, good)
              | inr bad ↦
                  absurd
                    (not_block (evaluate_verdict-block items reported o item h m (invalid r q bad)))
            ],
            λ b. not_block (evaluate_verdict-block items reported o item h m b),
          )
