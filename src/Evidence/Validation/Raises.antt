-- ===== src/Evidence/Validation/Raises.antt =====
-- Input on which `validate_evidence` raises, where a message in `blocking_errors` is expected.
use repo_health_doctor.Base.{◌≡◌, none, true, inl, inr}
use repo_health_doctor.Base.Py.{>>=-eq-ok, collect, Py-cases, Returns, Raises, collect-Returns}
use repo_health_doctor.Json.{Value, bool, dict, Fields, get, as_number, le_num}
use repo_health_doctor.Evidence.Validation.{
  present_without_count, finding_checks, evidence_checks, validate_evidence,
}

no_count :
    (p v : Value) → p ≡ bool true → as_number v ≡ none → ¬ (Returns (present_without_count p v))
unfolding present_without_count
no_count p v e n (b, h) = let k = rw (e, le_num, n) at h in cc

finding_raises :
    (f : Fields)
    → get "present" f ≡ bool true
    → as_number (get "count" f) ≡ none
    → ¬ (Returns (collect (finding_checks f)))
unfolding finding_checks
finding_raises f e n h =
    let (es, c) = (collect-Returns (finding_checks f) h).1.1.1.0 in
    let (b, q, _) = >>=-eq-ok (present_without_count (get "present" f) (get "count" f)) _ c in
    no_count _ _ e n (b, q)

-- A finding that claims to be present, with a count that is no number (null, a string, an array, an
-- object), makes `validate_evidence` raise: it gives no result, valid or not.
pub validate_evidence-Raises :
    (d f : Fields)
    → get "finding" d ≡ dict f
    → get "present" f ≡ bool true
    → as_number (get "count" f) ≡ none
    → Raises (validate_evidence (dict d))
unfolding validate_evidence evidence_checks
validate_evidence-Raises d f at e n = elim (Py-cases (validate_evidence (dict d))) [
  | inr r ↦ r
  | inl (r, h) ↦
      let (errors, c, _) = >>=-eq-ok (collect (evidence_checks d)) _ h in
      let k = (collect-Returns (evidence_checks d) (errors, c)).1.1.1.1.1.1.1.1.1.1.1.1.1.1.0 in
      absurd (finding_raises f e n (rw at at k))
]
