-- ===== src/Evidence/Validation/Sound.antt =====
-- `validate_evidence` accepts exactly the evidence that Accepted describes.
use repo_health_doctor.Base.{
  String, ◌≡◌, ◌↔◌, ◌⊎◌, refl, true, ◌||◌, List, [], arith, same_set, is_empty, is_empty→nil, All,
}
use repo_health_doctor.Base.Py.{
  ok, >>=-eq-ok, collect, flag-IsSilent, IsSilent, collect-IsSilent, IsSilent-collect,
}
use repo_health_doctor.Json.{Value, null, dict, Fields, keys}
use repo_health_doctor.Json.Checks.{
  flag-not-IsSilent, flag-IsSilent_iff, text-IsSilent, NonEmpty-IsSilent, IsList-IsSilent,
  closed_dict-IsSilent, IsSilent-closed_dict,
}
use repo_health_doctor.Evidence.Validation.{
  EvidenceValidationResult, subject_shape, legacy_subject_fields, subject_fields, source_fields,
  classification_fields, finding_fields, raw_handling_fields, trust_fields, effects_fields,
  invalid_input, evidence_checks, evidence_result, validate_evidence,
}
use repo_health_doctor.Evidence.Validation.Accepted.{IsAccepted}
use repo_health_doctor.Evidence.Validation.Checks.{
  IsSource-IsSilent, subject-IsSilent, IsClassification-IsSilent, finding-IsSilent,
  IsRawHandling-IsSilent, IsTrust-IsSilent, IsEffects-IsSilent,
}

abbrev HasSubjectFields : Fields → Type 0
HasSubjectFields s =
    (same_set (keys s) legacy_subject_fields ≡ true) ⊎ (same_set (keys s) subject_fields ≡ true)

shape-IsSilent :
    (v : Value) → IsSilent (subject_shape v) → (s : Fields) × (v ≡ dict s) × HasSubjectFields s
unfolding subject_shape
shape-IsSilent (dict s) h = (s, refl, split ((flag-not-IsSilent _ _).0 h))
  where
    split :
        (same_set (keys s) legacy_subject_fields || same_set (keys s) subject_fields) ≡ true
        → HasSubjectFields s
    split k = ground arith
shape-IsSilent null h = cc
shape-IsSilent _ h = cc

IsSilent-shape : (s : Fields) → HasSubjectFields s → IsSilent (subject_shape (dict s))
unfolding subject_shape
IsSilent-shape s h = (flag-not-IsSilent _ _).1 (either h)
  where
    either :
        HasSubjectFields s
        → (same_set (keys s) legacy_subject_fields || same_set (keys s) subject_fields) ≡ true
    either k = ground arith

IsSilent-IsAccepted : (d : Fields) → All IsSilent (evidence_checks d) → IsAccepted d
unfolding evidence_checks
IsSilent-IsAccepted d c =
    let (subject, subject_at, subject_closed) = shape-IsSilent _ c.1.1.1.1.1.0 in
    let (source, source_at, source_closed) = closed_dict-IsSilent _ _ _ c.1.1.1.1.0 in
    let (classification, classification_at, classification_closed) =
      closed_dict-IsSilent _ _ _ c.1.1.1.1.1.1.0 in
    let (finding, finding_at, finding_closed) = closed_dict-IsSilent _ _ _ c.1.1.1.1.1.1.1.0 in
    let (raw_handling, raw_handling_at, raw_handling_closed) =
      closed_dict-IsSilent _ _ _ c.1.1.1.1.1.1.1.1.0 in
    let (trust, trust_at, trust_closed) = closed_dict-IsSilent _ _ _ c.1.1.1.1.1.1.1.1.1.0 in
    let (effects, effects_at, effects_closed) =
      closed_dict-IsSilent _ _ _ c.1.1.1.1.1.1.1.1.1.1.0 in
    let trusted = (IsTrust-IsSilent trust).0 (rw trust_at at c.1.1.1.1.1.1.1.1.1.1.1.1.1.1.1.1.0) in
    record {
      sections = record {
        source = source;
        source_at = source_at;
        subject = subject;
        subject_at = subject_at;
        classification = classification;
        classification_at = classification_at;
        finding = finding;
        finding_at = finding_at;
        raw_handling = raw_handling;
        raw_handling_at = raw_handling_at;
        trust = trust;
        trust_at = trust_at;
        effects = effects;
        effects_at = effects_at;
      };
      closed = record {
        top = (flag-not-IsSilent _ _).0 c.0;
        source = source_closed;
        subject = subject_closed;
        classification = classification_closed;
        finding = finding_closed;
        raw_handling = raw_handling_closed;
        trust = trust_closed;
        effects = effects_closed;
      };
      schema_version = (text-IsSilent _ _ _).0 c.1.0;
      kind = (text-IsSilent _ _ _).0 c.1.1.0;
      evidence_id = (NonEmpty-IsSilent _ _).0 c.1.1.1.0;
      source = (IsSource-IsSilent source).0 (rw source_at at c.1.1.1.1.1.1.1.1.1.1.1.0);
      subject = (subject-IsSilent subject).0 (rw subject_at at c.1.1.1.1.1.1.1.1.1.1.1.1.0);
      classification =
          (IsClassification-IsSilent classification).0
            (rw classification_at at c.1.1.1.1.1.1.1.1.1.1.1.1.1.0);
      finding = (finding-IsSilent finding).0 (rw finding_at at c.1.1.1.1.1.1.1.1.1.1.1.1.1.1.0);
      raw_handling =
          (IsRawHandling-IsSilent raw_handling).0
            (rw raw_handling_at at c.1.1.1.1.1.1.1.1.1.1.1.1.1.1.1.0);
      trust = trusted;
      effects =
          (IsEffects-IsSilent finding trust effects trusted).0
            (rw (effects_at, finding_at, trust_at) at c.1.1.1.1.1.1.1.1.1.1.1.1.1.1.1.1.1.0);
      residual_risks = (IsList-IsSilent _ _).0 c.1.1.1.1.1.1.1.1.1.1.1.1.1.1.1.1.1.1.0;
      no_raw_path = flag-IsSilent _ _ c.1.1.1.1.1.1.1.1.1.1.1.1.1.1.1.1.1.1.1.0;
    }

IsAccepted-IsSilent : (d : Fields) → IsAccepted d → All IsSilent (evidence_checks d)
unfolding evidence_checks
IsAccepted-IsSilent d p =
    let s = p.sections in
    (
      (flag-not-IsSilent _ _).1 p.closed.top,
      (
        (text-IsSilent _ _ _).1 p.schema_version,
        (
          (text-IsSilent _ _ _).1 p.kind,
          (
            (NonEmpty-IsSilent _ _).1 p.evidence_id,
            (
              rw s.source_at (IsSilent-closed_dict s.source source_fields "source" p.closed.source),
              (
                rw s.subject_at (IsSilent-shape s.subject p.closed.subject),
                (
                  rw s.classification_at (
                      IsSilent-closed_dict s.classification classification_fields "classification"
                        p.closed.classification),
                  (
                    rw s.finding_at
                        (IsSilent-closed_dict s.finding finding_fields "finding" p.closed.finding),
                    (
                      rw s.raw_handling_at (
                          IsSilent-closed_dict s.raw_handling raw_handling_fields "raw_handling"
                            p.closed.raw_handling),
                      (
                        rw s.trust_at
                            (IsSilent-closed_dict s.trust trust_fields "trust" p.closed.trust),
                        (
                          rw s.effects_at (
                              IsSilent-closed_dict s.effects effects_fields "effects"
                                p.closed.effects),
                          (
                            rw s.source_at ((IsSource-IsSilent s.source).1 p.source),
                            (
                              rw s.subject_at ((subject-IsSilent s.subject).1 p.subject),
                              (
                                rw s.classification_at (
                                    (IsClassification-IsSilent s.classification).1
                                      p.classification),
                                (
                                  rw s.finding_at ((finding-IsSilent s.finding).1 p.finding),
                                  (
                                    rw s.raw_handling_at
                                        ((IsRawHandling-IsSilent s.raw_handling).1 p.raw_handling),
                                    (
                                      rw s.trust_at ((IsTrust-IsSilent s.trust).1 p.trust),
                                      (
                                        rw (s.effects_at, s.finding_at, s.trust_at)
                                            ((IsEffects-IsSilent s.finding s.trust s.effects
                                                p.trust).1
                                              p.effects),
                                        (
                                          (IsList-IsSilent _ _).1 p.residual_risks,
                                          ((flag-IsSilent_iff _ _).1 p.no_raw_path, tt),
                                        ),
                                      ),
                                    ),
                                  ),
                                ),
                              ),
                            ),
                          ),
                        ),
                      ),
                    ),
                  ),
                ),
              ),
            ),
          ),
        ),
      ),
    )

accepted_valid :
    (d : Fields) → IsAccepted d → validate_evidence (dict d) ≡ ok (evidence_result d [])
unfolding validate_evidence
accepted_valid d p = rw (IsSilent-collect (evidence_checks d) (IsAccepted-IsSilent d p)) refl

no_errors :
    (d : Fields) (errors : List String) (r : EvidenceValidationResult)
    → ok (evidence_result d errors) ≡ ok r
    → r.valid ≡ true
    → is_empty errors ≡ true
unfolding evidence_result
no_errors d errors r h valid = ground arith

refused : (r : EvidenceValidationResult) → ok invalid_input ≡ ok r → r.valid ≡ true → ⊥
unfolding invalid_input
refused r h valid = ground arith

valid-IsAccepted :
    (v : Value) (r : EvidenceValidationResult)
    → validate_evidence v ≡ ok r
    → r.valid ≡ true
    → (d : Fields) × (v ≡ dict d) × IsAccepted d
unfolding validate_evidence
valid-IsAccepted (dict d) r h valid =
    let (errors, collected, same) = >>=-eq-ok (collect (evidence_checks d)) _ h in
    let quiet : errors ≡ [] = is_empty→nil errors (no_errors d errors r same valid) in
    (d, refl, IsSilent-IsAccepted d (collect-IsSilent (evidence_checks d) (rw quiet at collected)))
valid-IsAccepted null r h valid = absurd (refused r h valid)
valid-IsAccepted _ r h valid = absurd (refused r h valid)

abbrev pub IsValid : Value → Type 0
IsValid v = (r : EvidenceValidationResult) × (validate_evidence v ≡ ok r) × (r.valid ≡ true)

-- An item of evidence is valid exactly when it is an object that Accepted describes: `validate_evidence`
-- accepts nothing else, and neither rejects nor raises on such an object.
pub validate_evidence-IsAccepted :
    (v : Value) → IsValid v ↔ ((d : Fields) × (v ≡ dict d) × IsAccepted d)
validate_evidence-IsAccepted v = (
  λ (r, h, valid). valid-IsAccepted v r h valid,
  λ (d, e, p). rw e (evidence_result d [], accepted_valid d p, unfold evidence_result in refl),
)
