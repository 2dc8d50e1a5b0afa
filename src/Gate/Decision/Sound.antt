-- ===== src/Gate/Decision/Sound.antt =====
-- The validator of gate decisions accepts exactly the decisions that Accepted describes.
use repo_health_doctor.Base.{
  String, ◌≡◌, ◌↔◌, inl, inr, refl, Bool, true, false, not, ◌||◌, List, [], is_empty, subset,
  Bool-cases, All, is_empty→nil, arith,
}
use repo_health_doctor.Base.Py.{
  ok, flag, collect, >>=-eq-ok, IsSilent, collect-IsSilent, IsSilent-collect,
}
use repo_health_doctor.Json.{Value, null, dict, Fields, keys, get, has_key}
use repo_health_doctor.Json.Runtime.{Runtime}
use repo_health_doctor.Json.Checks.{
  flag-IsSilent_iff, text-IsSilent, not_member-IsSilent, NonEmpty-IsSilent, IsList-IsSilent,
}
use repo_health_doctor.Gate.Decision.Refs.{validate_evidence_refs}
use repo_health_doctor.Gate.Decision.{
  GateDecisionValidationResult, top_level_invalid, decision_checks, decision_result, invalid_input,
  refs_check, validate_gate_decision, required_top_level_fields, top_level_fields,
}
use repo_health_doctor.Gate.Decision.Accepted.{IsWellFormed}
use repo_health_doctor.Gate.Decision.Sections.{
  items-IsSilent, false-IsSilent, IsExplanation-IsSilent, IsSummary-IsSilent, IsPolicy-IsSilent,
  subject-IsSilent,
}

both_false : (a b : Bool) → ((not a || not b) ≡ false) ↔ ((a ≡ true) × (b ≡ true))
both_false true true = (λ h. (refl, refl), λ h. refl)
both_false true false = (λ h. cc, λ (h, k). cc)
both_false false true = (λ h. cc, λ (h, k). cc)
both_false false false = (λ h. cc, λ (h, k). cc)

top-IsSilent :
    (d : Fields) (m : String)
    → IsSilent (flag (top_level_invalid d) m) ↔ (
        (subset required_top_level_fields (keys d) ≡ true)
        × (subset (keys d) top_level_fields ≡ true))
top-IsSilent d m = (
  λ h. (both_false _ _).0 ((flag-IsSilent_iff _ _).0 h),
  λ p. (flag-IsSilent_iff _ _).1 ((both_false _ _).1 p),
)

module _ (rt : Runtime) where
  refs-IsSilent :
      (d : Fields)
      → IsSilent (refs_check rt d) ↔ (
          has_key "evidence_refs" d ≡ true
          → validate_evidence_refs rt (get "evidence_refs" d) ≡ ok [])
  unfolding refs_check
  refs-IsSilent d = elim (Bool-cases (has_key "evidence_refs" d)) [
    | inl e ↦ (λ h k. rw e at h, λ f. rw e (f e))
    | inr e ↦ (λ h k. let j = rw e at k in cc, λ f. rw e refl)
  ]

  IsSilent-IsWellFormed : (d : Fields) → All IsSilent (decision_checks rt d) → IsWellFormed rt d
  unfolding decision_checks
  IsSilent-IsWellFormed d c =
      let (fields, no_more) = (top-IsSilent d _).0 c.0 in
      record {
        fields = fields;
        no_more = no_more;
        schema_version = (text-IsSilent _ _ _).0 c.1.0;
        kind = (text-IsSilent _ _ _).0 c.1.1.0;
        verdict = (not_member-IsSilent _ _ _).0 c.1.1.1.0;
        no_authorization = (false-IsSilent _ _).0 c.1.1.1.1.0;
        confidence = (not_member-IsSilent _ _ _).0 c.1.1.1.1.1.0;
        confidence_reason = (NonEmpty-IsSilent _ _).0 c.1.1.1.1.1.1.0;
        explanation = (IsExplanation-IsSilent _).0 (c.1.1.1.1.1.1.1.0, c.1.1.1.1.1.1.1.1.0);
        subject = (subject-IsSilent _).0 (c.1.1.1.1.1.1.1.1.1.0, c.1.1.1.1.1.1.1.1.1.1.0);
        summary = (IsSummary-IsSilent _).0 (c.1.1.1.1.1.1.1.1.1.1.1.0, c.1.1.1.1.1.1.1.1.1.1.1.1.0);
        policy =
            (IsPolicy-IsSilent _).0
              (c.1.1.1.1.1.1.1.1.1.1.1.1.1.0, c.1.1.1.1.1.1.1.1.1.1.1.1.1.1.0);
        refs = (refs-IsSilent d).0 c.1.1.1.1.1.1.1.1.1.1.1.1.1.1.1.0;
        required_actions = (IsList-IsSilent _ _).0 c.1.1.1.1.1.1.1.1.1.1.1.1.1.1.1.1.0;
        limitations =
            (items-IsSilent (get "limitations" d) "limitations_empty").0
              c.1.1.1.1.1.1.1.1.1.1.1.1.1.1.1.1.1.0;
        residual_risks = (IsList-IsSilent _ _).0 c.1.1.1.1.1.1.1.1.1.1.1.1.1.1.1.1.1.1.0;
      }

  IsWellFormed-IsSilent : (d : Fields) → IsWellFormed rt d → All IsSilent (decision_checks rt d)
  unfolding decision_checks
  IsWellFormed-IsSilent d p =
      let e = (IsExplanation-IsSilent _).1 p.explanation in
      let s = (subject-IsSilent _).1 p.subject in
      let m = (IsSummary-IsSilent _).1 p.summary in
      let q = (IsPolicy-IsSilent _).1 p.policy in
      (
        (top-IsSilent d _).1 (p.fields, p.no_more),
        (
          (text-IsSilent _ _ _).1 p.schema_version,
          (
            (text-IsSilent _ _ _).1 p.kind,
            (
              (not_member-IsSilent _ _ _).1 p.verdict,
              (
                (false-IsSilent _ _).1 p.no_authorization,
                (
                  (not_member-IsSilent _ _ _).1 p.confidence,
                  (
                    (NonEmpty-IsSilent _ _).1 p.confidence_reason,
                    (
                      e.0,
                      (
                        e.1,
                        (
                          s.0,
                          (
                            s.1,
                            (
                              m.0,
                              (
                                m.1,
                                (
                                  q.0,
                                  (
                                    q.1,
                                    (
                                      (refs-IsSilent d).1 p.refs,
                                      (
                                        (IsList-IsSilent _ _).1 p.required_actions,
                                        (
                                          (items-IsSilent (get "limitations" d)
                                                "limitations_empty").1
                                              p.limitations,
                                          ((IsList-IsSilent _ _).1 p.residual_risks, tt),
                                        ),
                                      ),
                                    ),
                                  ),
                                ),
                              ),
                            ),
                          ),
                        ),
                      ),
                    ),
                  ),
                ),
              ),
            ),
          ),
        ),
      )

  decision_valid :
      (d : Fields)
      → IsWellFormed rt d
      → validate_gate_decision rt (dict d) ≡ ok (decision_result d [])
  unfolding validate_gate_decision
  decision_valid d p = rw (IsSilent-collect (decision_checks rt d) (IsWellFormed-IsSilent d p)) refl

  no_errors :
      (d : Fields) (errors : List String) (r : GateDecisionValidationResult)
      → ok (decision_result d errors) ≡ ok r
      → r.valid ≡ true
      → is_empty errors ≡ true
  unfolding decision_result
  no_errors d errors r h valid = ground arith

  refused : (r : GateDecisionValidationResult) → ok invalid_input ≡ ok r → r.valid ≡ true → ⊥
  unfolding invalid_input
  refused r h valid = ground arith

  abbrev pub IsValid : Value → Type 0
  IsValid v =
      (r : GateDecisionValidationResult) × (validate_gate_decision rt v ≡ ok r) × (r.valid ≡ true)

  valid-IsWellFormed :
      (v : Value) (r : GateDecisionValidationResult)
      → validate_gate_decision rt v ≡ ok r
      → r.valid ≡ true
      → (d : Fields) × (v ≡ dict d) × IsWellFormed rt d
  unfolding validate_gate_decision
  valid-IsWellFormed (dict d) r h valid =
      let (errors, collected, same) = >>=-eq-ok (collect (decision_checks rt d)) _ h in
      let quiet : errors ≡ [] = is_empty→nil errors (no_errors d errors r same valid) in
      (
        d,
        refl,
        IsSilent-IsWellFormed d (collect-IsSilent (decision_checks rt d) (rw quiet at collected)),
      )
  valid-IsWellFormed null r h valid = absurd (refused r h valid)
  valid-IsWellFormed _ r h valid = absurd (refused r h valid)

  -- A gate decision is valid exactly when it is an object that IsWellFormed describes, which has no
  -- execution authorized: the validator accepts nothing else, and neither rejects nor raises on such an
  -- object.
  pub validate_gate_decision-IsWellFormed :
      (v : Value) → IsValid v ↔ ((d : Fields) × (v ≡ dict d) × IsWellFormed rt d)
  validate_gate_decision-IsWellFormed v = (
    λ (r, h, valid). valid-IsWellFormed v r h valid,
    λ (d, e, p). rw e (decision_result d [], decision_valid d p, unfold decision_result in refl),
  )
