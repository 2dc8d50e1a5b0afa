-- ===== src/Gate/Authorization/Artifact/ImageChecks.antt =====
-- `_validate_image_binding` reports nothing exactly for the image that Grants describes.
use repo_health_doctor.Base.{
  String, ◌≡◌, ◌↔◌, refl, ap, Option-cases, Bool, true, false, not, Option, none, some, List, [],
  ◌++◌, eq_iff, same_set, append-eq-nil, Bool-cases, inl, inr,
}
use repo_health_doctor.Json.{Value, null, str, dict, Fields, keys, is_text-eq}
use repo_health_doctor.Gate.Authorization.Image.{
  approved_image_fields, is_full_local_image_id, option_is, resolved_id, id_errors, when,
  validate_image_binding,
}
use repo_health_doctor.Gate.Authorization.Artifact.{Expected}
use repo_health_doctor.Gate.Authorization.Artifact.Grants.{IsBoundImage}

when-not : (b : Bool) (m : String) → (when (not b) m ≡ []) ↔ (b ≡ true)
when-not true m = (λ h. refl, λ h. refl)
when-not false m = (λ h. cc, λ h. cc)

option_is-eq :
    (o : Option String) (v : Value)
    → (option_is o v ≡ true) ↔ ((s : String) × (o ≡ some s) × (v ≡ str s))
option_is-eq none v = (λ h. cc, λ (s, e, q). cc)
option_is-eq (some s) v = (
  λ h. (s, refl, is_text-eq v s h),
  λ (t, e, q). let k : t ≡ s = cc in rw (q, k, (eq_iff s s).1 refl) refl,
)

resolved_id-eq :
    (o : Option String) (s : String)
    → (resolved_id o ≡ some s) ↔ ((o ≡ some s) × (is_full_local_image_id (str s) ≡ true))
resolved_id-eq none s = (λ h. cc, λ (e, q). cc)
resolved_id-eq (some t) s = (
  λ h. elim (Bool-cases (is_full_local_image_id (str t))) [
    | inl f ↦ let k = rw f at h in let q : t ≡ s = cc in (ap some q, rw q at f)
    | inr n ↦ let k = rw n at h in cc
  ],
  λ (e, q). let k : t ≡ s = cc in rw (k, q) refl,
)

id_errors-nil :
    (o : Option String) (v : Value)
    → (id_errors o v ≡ [])
      ↔ ((s : String) × (o ≡ some s) × (v ≡ str s) × (is_full_local_image_id (str s) ≡ true))
unfolding id_errors
id_errors-nil o v = elim (Option-cases (resolved_id o)) [
  | inl p ↦ (
    λ h. let k = rw (p, id_errors) at h in cc,
    λ (s, e, q, f). let k = (resolved_id-eq o s).1 (e, f) in cc,
  )
  | inr (s, p) ↦ (
    λ h.
        let (e, f) = (resolved_id-eq o s).0 p in
        (s, e, is_text-eq v s ((when-not _ _).0 (rw (p, id_errors) at h)), f),
    λ (t, e, q, f).
        let k = (resolved_id-eq o t).1 (e, f) in
        rw (k, id_errors) (rw q (rw ((eq_iff t t).1 refl) refl)),
  )
]

-- The reports of a dict with the right keys, one by one.
four_nil :
    (ws xs ys zs : List String)
    → (ws ++ (xs ++ (ys ++ zs)) ≡ []) ↔ ((ws ≡ []) × (xs ≡ []) × (ys ≡ []) × (zs ≡ []))
four_nil ws xs ys zs = (
  λ h.
      let (a, r) = append-eq-nil ws _ h in
      let (b, q) = append-eq-nil xs _ r in let (c, d) = append-eq-nil ys zs q in (a, b, c, d),
  λ (a, b, c, d). rw (a, b, c, d) refl,
)

differ : false ≡ true → ⊥
differ h = cc

pub image-IsSilent :
    (v : Value) (x : Expected)
    → ((validate_image_binding v x.image_reference x.image_id).errors ≡ [])
      ↔ ((image : Fields) × (v ≡ dict image) × IsBoundImage image x)
unfolding validate_image_binding
image-IsSilent (dict image) x = elim (Bool-cases (same_set (keys image) approved_image_fields)) [
  | inr open_ ↦ (
    λ h. let k = rw open_ at h in cc,
    λ (d, e, p).
        let q : d ≡ image = cc in let k = rw q at p.closed in absurd (differ (rw open_ at k)),
  )
  | inl closed ↦ (
    λ h.
        let (a, b, c, d) = (four_nil _ _ _ _).0 (rw closed at h) in
        let (reference, runs, requested) = (option_is-eq _ _).0 ((when-not _ _).0 b) in
        let (id, id_runs, resolved, full) = (id_errors-nil _ _).0 c in
        (
          image,
          refl,
          record {
            closed = closed;
            reference = reference;
            requested = requested;
            pinned = rw requested at ((when-not _ _).0 a);
            reference_runs = runs;
            id = id;
            resolved = resolved;
            full_id = full;
            id_runs = id_runs;
          },
        ),
    λ (d, e, p).
        let q : d ≡ image = cc in
        rw closed (
          (four_nil _ _ _ _).1 (
            (when-not _ _).1 (rw (← q, p.requested) p.pinned),
            (when-not _ _).1
                ((option_is-eq _ _).1 (p.reference, p.reference_runs, rw q at p.requested)),
            (id_errors-nil _ _).1 (p.id, p.id_runs, rw q at p.resolved, p.full_id),
            (when-not _ _).1 (rw (← q, p.resolved) p.full_id),
          )),
  )
]
image-IsSilent null x = (λ h. cc, λ (d, e, p). cc)
image-IsSilent _ x = (λ h. cc, λ (d, e, p). cc)
