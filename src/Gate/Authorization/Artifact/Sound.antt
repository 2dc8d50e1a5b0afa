-- ===== src/Gate/Authorization/Artifact/Sound.antt =====
-- `validate_execution_authorization` authorizes exactly what Grants describes.
use repo_health_doctor.Base.{
  ap, ◌∙◌, String, ◌≡◌, ◌↔◌, inl, inr, refl, Bool, true, false, ◌||◌, List, [], ◌∷◌, Memᴰ, arith,
  ◌==◌, eq_iff, if◌then◌else◌, is_empty→nil, All, and_true, Bool-cases, subset, contains,
  append-eq-nil,
}
use repo_health_doctor.Base.Py.{
  Py, ok, raise, >>=-eq-ok, collect, flag-IsSilent, IsSilent, collect-IsSilent, IsSilent-collect,
}
use repo_health_doctor.Json.{
  int, float, is_dict, Value, null, bool, str, list, dict, Fields, keys, get, has_key, is_true-eq,
  non_empty_string,
}
use repo_health_doctor.Json.Checks.{
  OneOf, NonEmpty, flag-not-IsSilent, flag-IsSilent_iff, text-IsSilent, not_member-IsSilent,
  NonEmpty-IsSilent, not_empty,
}
use repo_health_doctor.Json.Runtime.{Runtime}
use repo_health_doctor.Gate.Authorization.Artifact.{
  ExecutionAuthorizationValidationResult, Expected, legacy_schema_version,
  image_bound_schema_version, authorization_schema_version, authorization_schema_versions,
  base_top_level_fields, argv_matches, image_binding, metadata_errors, scope_matches,
  policy_matches, subject_fields_match, subject_matches, based_on_matches, authorization_checks,
  authorization_result, must_be_object, validate_execution_authorization,
}
use repo_health_doctor.Gate.Authorization.Artifact.Grants.{IsGranted, IsApprovedAt, IsBoundImage}
use repo_health_doctor.Gate.Authorization.Artifact.Bound.{snapshot-IsSilent}
use repo_health_doctor.Gate.Authorization.Artifact.Checks.{
  allowed_by, top_level-IsSilent, boolean_like-IsSilent, same_argv_iff, expiry-IsSilent,
  IsApprovedAt-IsSilent, verdict-IsSilent,
}
use repo_health_doctor.Gate.Authorization.Artifact.ImageChecks.{image-IsSilent}

-- A key that a legacy artifact has is one of the legacy fields.
contains-of_subset :
    (xs ys : List String) (k : String)
    → subset xs ys ≡ true
    → contains xs k ≡ true
    → contains ys k ≡ true
contains-of_subset [] ys k h m = cc
contains-of_subset (x ∷ xs) ys k h m =
    let (here, later) = and_true (contains ys x) (subset xs ys) h in
    elim (Bool-cases (k == x)) [
      | inl e ↦ rw ((eq_iff k x).0 e) here
      | inr n ↦ contains-of_subset xs ys k later (rw n at m)
    ]

image_versions :
    (s : String)
    → Memᴰ s authorization_schema_versions
    → (s == legacy_schema_version) ≡ false
    → (s == image_bound_schema_version || s == authorization_schema_version) ≡ true
image_versions s (Memᴰ.head e) n = let k = rw e at n in cc
image_versions s (Memᴰ.tail (Memᴰ.head e)) n = rw e refl
image_versions s (Memᴰ.tail (Memᴰ.tail (Memᴰ.head e))) n = rw e refl
image_versions s (Memᴰ.tail (Memᴰ.tail (Memᴰ.tail m))) n = elim m [ ]

module _ (a : Fields) (x : Expected) where
  abbrev HasBoundImage : Type 0
  HasBoundImage = (image : Fields) × (get "approved_image" a ≡ dict image) × IsBoundImage image x

  image_binding-IsSilent :
      OneOf authorization_schema_versions (get "schema_version" a)
      → subset (keys a) (allowed_by (get "schema_version" a)) ≡ true
      → ((image_binding a x).errors ≡ []) ↔ (has_key "approved_image" a ≡ true → HasBoundImage)
  unfolding image_binding
  image_binding-IsSilent (s, e, m) closed = elim (Bool-cases (has_key "approved_image" a)) [
    | inr absent ↦ (λ h p. let k = rw absent at p in cc, λ f. rw absent refl)
    | inl present ↦ elim (Bool-cases (s == legacy_schema_version)) [
      | inl old ↦
          let k = rw (e, old) at closed in
          absurd
            (differ (contains-of_subset (keys a) base_top_level_fields "approved_image" k present))
      | inr new ↦
          let now = image_versions s m new in
          (
            λ h p. (image-IsSilent _ x).0 (rw (present, e, now) at h),
            λ f. rw (present, e, now) ((image-IsSilent _ x).1 (f present)),
          )
    ]
  ]
    where
      differ : false ≡ true → ⊥
      differ h = cc

module _ (rt : Runtime) (a : Fields) where
  metadata-IsSilent :
      get "approved" a ≡ bool true
      → (metadata_errors rt a ≡ [])
        ↔ (NonEmpty (get "approved_by" a) × IsApprovedAt rt (get "approved_at" a))
  unfolding metadata_errors
  metadata-IsSilent e = rw e (
    λ h.
        let (by, at) = append-eq-nil (named (get "approved_by" a)) _ h in
        ((named-nil _).0 by, (IsApprovedAt-IsSilent rt _).0 at),
    λ (by, at). rw ((named-nil _).1 by) ((IsApprovedAt-IsSilent rt _).1 at),
  )
    where
      chosen :
          (b : Bool)
          → ◌≡◌ {A = List String} (if b then [] else "approved_by_required" ∷ []) [] ↔ (b ≡ true)
      chosen true = (λ h. refl, λ h. refl)
      chosen false = (λ h. cc, λ h. cc)

      named : Value → List String
      named v = if non_empty_string v then [] else "approved_by_required" ∷ []

      named-nil : (v : Value) → (named v ≡ []) ↔ NonEmpty v
      named-nil v = (
        λ h.
            (NonEmpty-IsSilent v "").0
              ((flag-not-IsSilent _ _).1 ((chosen (non_empty_string v)).0 h)),
        λ p.
            (chosen (non_empty_string v)).1
              ((flag-not-IsSilent _ "").0 ((NonEmpty-IsSilent v "").1 p)),
      )

module _ (rt : Runtime) (a gate : Fields) (argv : List String) (x : Expected) where
  IsSilent-IsGranted :
      All IsSilent (authorization_checks rt a gate argv x) → IsGranted rt a gate argv x
  unfolding authorization_checks scope_matches argv_matches policy_matches subject_fields_match
      subject_matches based_on_matches
  IsSilent-IsGranted c =
      let approved = is_true-eq _ ((flag-not-IsSilent _ _).0 c.1.1.1.0) in
      let version = (not_member-IsSilent _ _ _).0 c.1.1.0 in
      let (fields, no_more) = (top_level-IsSilent a _ version).0 c.0 in
      let (exact, full) =
        (same_argv_iff argv _).0 ((flag-not-IsSilent _ _).0 c.1.1.1.1.1.1.1.1.0) in
      let (by, at) =
        (metadata-IsSilent rt a approved).0 (quiet c.1.1.1.1.1.1.1.1.1.1.1.1.1.1.1.1.0) in
      record {
        kind = (text-IsSilent _ _ _).0 c.1.0;
        version = version;
        fields = fields;
        no_more = no_more;
        approved = approved;
        approved_by = by;
        approved_at = at;
        unexpired = (expiry-IsSilent rt _ _).0 (quiet c.1.1.1.1.1.1.1.1.1.1.1.1.1.1.1.0);
        verdict = (verdict-IsSilent rt _).0 c.1.1.1.1.1.1.1.1.1.1.1.1.1.1.1.1.1.1.0;
        argv_exact = exact;
        argv_non_empty = full;
        scope = (flag-not-IsSilent _ _).0 c.1.1.1.1.1.1.1.0;
        subject = (flag-not-IsSilent _ _).0 c.1.1.1.1.1.1.1.1.1.1.1.1.1.0;
        subject_closed = (flag-not-IsSilent _ _).0 c.1.1.1.1.1.1.1.1.1.1.1.1.0;
        policy = (flag-not-IsSilent _ _).0 c.1.1.1.1.1.1.1.1.1.0;
        based_on = (flag-not-IsSilent _ _).0 c.1.1.1.1.1.1.1.1.1.1.1.0;
        based_on_closed = (flag-not-IsSilent _ _).0 c.1.1.1.1.1.1.1.1.1.1.0;
        snapshot = (snapshot-IsSilent a _ x).0 c.1.1.1.1.1.1.1.1.1.1.1.1.1.1.0;
        image =
            (image_binding-IsSilent a x version no_more).0
              (quiet c.1.1.1.1.1.1.1.1.1.1.1.1.1.1.1.1.1.0);
        limitations = λ e. let t = rw e at (flag-IsSilent _ _ c.1.1.1.1.1.0) in cc;
        residual_risks = λ e. let t = rw e at (flag-IsSilent _ _ c.1.1.1.1.1.1.0) in cc;
        no_secret = flag-IsSilent _ _ c.1.1.1.1.1.1.1.1.1.1.1.1.1.1.1.1.1.1.1.0;
        no_raw_path = flag-IsSilent _ _ c.1.1.1.1.1.1.1.1.1.1.1.1.1.1.1.1.1.1.1.1.0;
      }
    where
      quiet : {es : List String} → ok es ≡ ok [] → es ≡ []
      quiet h = cc

  IsGranted-IsSilent :
      IsGranted rt a gate argv x → All IsSilent (authorization_checks rt a gate argv x)
  unfolding authorization_checks scope_matches argv_matches policy_matches subject_fields_match
      subject_matches based_on_matches
  IsGranted-IsSilent p = (
    (top_level-IsSilent a _ p.version).1 (p.fields, p.no_more),
    (
      (text-IsSilent _ _ _).1 p.kind,
      (
        (not_member-IsSilent _ _ _).1 p.version,
        (
          (flag-not-IsSilent _ _).1 (rw (p.approved) refl),
          (
            boolean_like-IsSilent _ _ p.approved,
            (
              (flag-IsSilent_iff _ _).1 (not_empty _ p.limitations),
              (
                (flag-IsSilent_iff _ _).1 (not_empty _ p.residual_risks),
                (
                  (flag-not-IsSilent _ _).1 p.scope,
                  (
                    (flag-not-IsSilent _ _).1
                        ((same_argv_iff argv _).1 (p.argv_exact, p.argv_non_empty)),
                    (
                      (flag-not-IsSilent _ _).1 p.policy,
                      (
                        (flag-not-IsSilent _ _).1 p.based_on_closed,
                        (
                          (flag-not-IsSilent _ _).1 p.based_on,
                          (
                            (flag-not-IsSilent _ _).1 p.subject_closed,
                            (
                              (flag-not-IsSilent _ _).1 p.subject,
                              (
                                (snapshot-IsSilent a _ x).1 p.snapshot,
                                (
                                  loud ((expiry-IsSilent rt _ _).1 p.unexpired),
                                  (
                                    loud (
                                        (metadata-IsSilent rt a p.approved).1
                                          (p.approved_by, p.approved_at)),
                                    (
                                      loud (
                                          (image_binding-IsSilent a x p.version p.no_more).1
                                            p.image),
                                      (
                                        (verdict-IsSilent rt _).1 p.verdict,
                                        (
                                          (flag-IsSilent_iff _ _).1 p.no_secret,
                                          ((flag-IsSilent_iff _ _).1 p.no_raw_path, tt),
                                        ),
                                      ),
                                    ),
                                  ),
                                ),
                              ),
                            ),
                          ),
                        ),
                      ),
                    ),
                  ),
                ),
              ),
            ),
          ),
        ),
      ),
    ),
  )
    where
      loud : {es : List String} → es ≡ [] → ok es ≡ ok []
      loud h = cc

  granted_valid :
      IsGranted rt a gate argv x
      → validate_execution_authorization rt (dict a) gate argv x
        ≡ ok (authorization_result rt a gate argv x [])
  unfolding validate_execution_authorization
  granted_valid p =
      rw (IsSilent-collect (authorization_checks rt a gate argv x) (IsGranted-IsSilent p)) refl

  granted_authorized :
      IsGranted rt a gate argv x
      → (authorization_result rt a gate argv x []).execution_authorized ≡ true
  unfolding authorization_result
  granted_authorized p = rw (p.approved) refl

  no_errors :
      (errors : List String) (r : ExecutionAuthorizationValidationResult)
      → ok (authorization_result rt a gate argv x errors) ≡ ok r
      → r.execution_authorized ≡ true
      → errors ≡ []
  unfolding authorization_result
  no_errors errors r h e =
      let k = ap (λ (m : Py ExecutionAuthorizationValidationResult). authorized m) h in
      is_empty→nil errors (and_true _ _ (k ∙ e)).0
    where
      authorized : Py ExecutionAuthorizationValidationResult → Bool
      authorized (ok q) = q.execution_authorized
      authorized (raise e) = false

  authorized-IsGranted :
      (r : ExecutionAuthorizationValidationResult)
      → validate_execution_authorization rt (dict a) gate argv x ≡ ok r
      → r.execution_authorized ≡ true
      → IsGranted rt a gate argv x
  unfolding validate_execution_authorization
  authorized-IsGranted r h e =
      let (errors, collected, same) =
        >>=-eq-ok (collect (authorization_checks rt a gate argv x)) _ h in
      let quiet = no_errors errors r same e in
      IsSilent-IsGranted
        (collect-IsSilent (authorization_checks rt a gate argv x) (rw quiet at collected))

module _ (rt : Runtime) (gate : Fields) (argv : List String) (x : Expected) where
  abbrev pub IsAuthorized : Value → Type 0
  IsAuthorized v =
      (r : ExecutionAuthorizationValidationResult) × (validate_execution_authorization rt v gate
          argv x
        ≡ ok r)
      × (r.execution_authorized ≡ true)

  -- no object, no authorization
  other_refused : (v : Value) → is_dict v ≡ false → ¬ (IsAuthorized v)
  unfolding validate_execution_authorization must_be_object
  other_refused (dict a) n h = cc
  other_refused null n (r, e, k) = ground arith
  other_refused _ n (r, e, k) = ground arith

  -- The validator authorizes an execution exactly where the artifact is an object that Grants
  -- describes: it authorizes nothing else, and neither refuses nor raises on such an artifact.
  pub validate_execution_authorization-IsGranted :
      (v : Value) → IsAuthorized v ↔ ((a : Fields) × (v ≡ dict a) × IsGranted rt a gate argv x)
  validate_execution_authorization-IsGranted v = (
    to v,
    λ (a, e, p). rw e (
      authorization_result rt a gate argv x [],
      granted_valid rt a gate argv x p,
      granted_authorized rt a gate argv x p,
    ),
  )
    where
      to : (w : Value) → IsAuthorized w → (a : Fields) × (w ≡ dict a) × IsGranted rt a gate argv x
      to (dict a) (r, h, e) = (a, refl, authorized-IsGranted rt a gate argv x r h e)
      to null h = absurd (other_refused null refl h)
      to (bool b) h = absurd (other_refused (bool b) refl h)
      to (int n) h = absurd (other_refused (int n) refl h)
      to (float m k) h = absurd (other_refused (float m k) refl h)
      to (str s) h = absurd (other_refused (str s) refl h)
      to (list vs) h = absurd (other_refused (list vs) refl h)
