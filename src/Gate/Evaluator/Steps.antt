-- ===== src/Gate/Evaluator/Steps.antt =====
-- The steps of `evaluate_gate_decision`, and what becomes of a candidate that a report contributes.
use repo_health_doctor.Base.{
  String, ◌≡◌, ◌≢◌, sym, ap, ◌∙◌, Bool, List, [], ◌∷◌, ◌++◌, Memᴰ, is_empty, mem-append_left,
  mem-append_right, if◌then◌else◌, arith,
}
use repo_health_doctor.Base.Py.{ok, >>=-eq-ok}
use repo_health_doctor.Json.{list, nil, Fields, get_or}
use repo_health_doctor.Json.Runtime.{Runtime}
use repo_health_doctor.Gate.Verdict.{verdict_order, strongest_verdict, strongest_verdict-mem}
use repo_health_doctor.Gate.Evaluator.Markers.{iterated}
use repo_health_doctor.Gate.Evaluator.{
  Tally, verdicts_of, evaluate_items, start, not_accepted, add_missing, when, candidates_of,
  Evaluation, evaluate_verdict,
}
use repo_health_doctor.Gate.Evaluator.Signals.{value_eq, mem-or_default}

pub unknown-above : (cs : List String) → Memᴰ "unknown" cs → strongest_verdict cs ≢ "allow_limited"
unfolding verdict_order
unknown-above [] m e = elim m [ ]
unknown-above (c ∷ cs) m e =
    let h = (strongest_verdict-mem (c ∷ cs) (λ q. cc)).1 "unknown" m in
    let k = rw e at h in omega arith

module _ (rt : Runtime) (policy : Fields) where
  -- What the steps of the evaluation are, where it returns.
  pub record Steps (items : List Fields) (reported : List String) (o : Evaluation) : Type 0 where
    pub tally : Tally
    pub missing_mandatory : List String
    pub missing : List String
    pub evaluated : evaluate_items rt policy items (start rt policy items) ≡ ok tally
    pub candidates :
        o.verdict_candidates
        ≡ candidates_of rt policy (is_empty items) tally reported missing_mandatory missing
    pub verdict : o.verdict ≡ strongest_verdict o.verdict_candidates

  pub evaluate_verdict-Steps :
      (items : List Fields) (reported : List String) (o : Evaluation)
      → evaluate_verdict rt policy items reported ≡ ok o
      → Steps items reported o
  unfolding evaluate_verdict
  evaluate_verdict-Steps items reported o h =
      let (known, h1, k1) =
        >>=-eq-ok (iterated (get_or (list nil) "missing_evidence" policy)) _ h in
      let (t, h2, k2) = >>=-eq-ok (evaluate_items rt policy items (start rt policy items)) _ k1 in
      let (mandatory, h3, k3) =
        >>=-eq-ok (iterated (get_or (list nil) "mandatory_evidence" policy)) _ k2 in
      let (missing_mandatory, h4, k4) = >>=-eq-ok (not_accepted rt policy mandatory) _ k3 in
      let (missing, h5, k5) =
        >>=-eq-ok
          (not_accepted rt policy (
            add_missing (known ++ (when (is_empty items) "all_evidence" ++ t.missing_evidence))
              missing_mandatory))
          _ k4 in
      let same = value_eq _ _ k5 in
      record {
        tally = t;
        missing_mandatory = missing_mandatory;
        missing = missing;
        evaluated = h2;
        candidates = sym (ap (λ x. x.verdict_candidates) same);
        verdict =
            sym (ap (λ x. x.verdict) same) ∙ ap (λ x. strongest_verdict x.verdict_candidates) same;
      }

  -- A verdict of the evidence is a candidate.
  pub candidates-mem :
      {c : String} (none_given : Bool) (t : Tally)
      (reported missing_mandatory missing : List String)
      → Memᴰ c ((if none_given then "unknown" ∷ [] else []) ++ (verdicts_of t.signals ++ reported))
      → Memᴰ c (candidates_of rt policy none_given t reported missing_mandatory missing)
  unfolding candidates_of
  candidates-mem none_given t reported missing_mandatory missing m =
      mem-or_default _ _ (mem-append_left _ m)

  -- A candidate of a report is a candidate of the verdict, which is the strongest of them.
  pub evaluate_verdict-reported :
      {c : String} (items : List Fields) (reported : List String) (o : Evaluation)
      → evaluate_verdict rt policy items reported ≡ ok o
      → Memᴰ c reported
      → Memᴰ c o.verdict_candidates × (o.verdict ≡ strongest_verdict o.verdict_candidates)
  evaluate_verdict-reported items reported o h m =
      let w = evaluate_verdict-Steps items reported o h in
      let k =
        mem-append_right (if is_empty items then "unknown" ∷ [] else [])
          (mem-append_right (verdicts_of w.tally.signals) m) in
      let c = candidates-mem (is_empty items) w.tally reported w.missing_mandatory w.missing k in
      (rw (sym w.candidates) at c, w.verdict)
