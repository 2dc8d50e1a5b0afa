-- ===== src/Gate/Authorization/Artifact/Checks.antt =====
-- Each check of `validate_execution_authorization` that has parts reports nothing exactly where
-- Grants says so.
use repo_health_doctor.Base.{
  String, ◌≡◌, ◌≢◌, ◌↔◌, ◌⊎◌, inl, inr, refl, ap, Bool, true, false, not, ◌||◌, List, [], ◌∷◌, Memᴰ,
  All, arith, ◌==◌, eq_iff, if◌then◌else◌, subset, and_true, Bool-cases, Option-cases, all,
}
use repo_health_doctor.Base.Py.{ok, ◌>>=◌, flag, flag_if, IsSilent}
use repo_health_doctor.Json.{
  Value, null, bool, str, list, Items, nil, cons, Fields, items, keys, get, is_text,
  non_empty_string,
}
use repo_health_doctor.Json.Checks.{OneOf}
use repo_health_doctor.Json.Equality.{equal, equal_items}
use repo_health_doctor.Json.Equality.Laws.{equal-str}
use repo_health_doctor.Json.Runtime.{Runtime, Time}
use repo_health_doctor.Gate.Authorization.Artifact.{
  legacy_schema_version, authorization_schema_versions, base_top_level_fields, image_bound_fields,
  version_fields, top_level_invalid, boolean_like, text_items, same_argv, expiry_errors,
  approved_at_errors, parsed, verdict_check,
}
use repo_health_doctor.Gate.Authorization.Artifact.Grants.{IsUnexpired, IsApprovedAt}

-- The fields that a supported version allows.
abbrev pub allowed_by : Value → List String
allowed_by v = if is_text v legacy_schema_version then base_top_level_fields else image_bound_fields

version_fields_lem :
    (s : String)
    → Memᴰ s authorization_schema_versions
    → version_fields (str s) ≡ ok (allowed_by (str s))
unfolding version_fields
version_fields_lem s (Memᴰ.head e) = rw e refl
version_fields_lem s (Memᴰ.tail (Memᴰ.head e)) = rw e refl
version_fields_lem s (Memᴰ.tail (Memᴰ.tail (Memᴰ.head e))) = rw e refl
version_fields_lem s (Memᴰ.tail (Memᴰ.tail (Memᴰ.tail m))) = elim m [ ]

pub top_level-IsSilent :
    (a : Fields) (m : String)
    → OneOf authorization_schema_versions (get "schema_version" a)
    → IsSilent (flag_if (top_level_invalid a) m) ↔ (
        (subset base_top_level_fields (keys a) ≡ true)
        × (subset (keys a) (allowed_by (get "schema_version" a)) ≡ true))
unfolding top_level_invalid
top_level-IsSilent a m (s, e, k) = rw (e, version_fields_lem s k) (parts _ _)
  where
    parts : (b c : Bool) → IsSilent (flag (not b || not c) m) ↔ ((b ≡ true) × (c ≡ true))
    parts true true = (λ h. (refl, refl), λ h. refl)
    parts true false = (λ h. cc, λ h. cc)
    parts false c = (λ h. cc, λ h. cc)

pub boolean_like-IsSilent :
    (v : Value) (m : String)
    → v ≡ bool true
    → IsSilent (flag_if (boolean_like v >>= λ b. ok (not b)) m)
unfolding boolean_like
boolean_like-IsSilent v m e = rw e refl

same_items :
    (vs : Items) (argv : List String)
    → equal_items vs (text_items argv) ≡ true
    → vs ≡ text_items argv
unfolding equal
same_items nil [] h = refl
same_items nil (s ∷ ss) h = cc
same_items (cons v vs) [] h = cc
same_items (cons v vs) (s ∷ ss) h =
    let (here, later) = and_true _ _ h in
    let e = equal-str v s here in let es = same_items vs ss later in cc

items_same : (argv : List String) → equal_items (text_items argv) (text_items argv) ≡ true
unfolding equal
items_same [] = refl
items_same (s ∷ ss) = rw ((eq_iff s s).1 refl) (items_same ss)

none_empty :
    (argv : List String)
    → (all non_empty_string (items (text_items argv)) ≡ true) ↔ All (λ arg. arg ≢ "") argv
none_empty [] = (λ h. tt, λ h. refl)
none_empty (s ∷ ss) = (
  λ h.
      let (here, later) =
        and_true (not (s == "")) (all non_empty_string (items (text_items ss))) h in
      (λ e. ground (arith, eq_iff s ""), (none_empty ss).0 later),
  λ (n, rest). rw (different n, (none_empty ss).1 rest) refl,
)
  where
    different : s ≢ "" → (s == "") ≡ false
    different n = ground (arith, eq_iff s "")

pub same_argv_iff :
    (argv : List String) (v : Value)
    → (same_argv argv v ≡ true) ↔ ((v ≡ list (text_items argv)) × All (λ arg. arg ≢ "") argv)
unfolding same_argv equal
same_argv_iff argv (list vs) = (
  λ h.
      let (same, full) = and_true _ _ h in
      let e = same_items vs argv same in (ap list e, (none_empty argv).0 (rw e at full)),
  λ (e, full).
      let q : vs ≡ text_items argv = cc in rw (q, items_same argv, (none_empty argv).1 full) refl,
)
same_argv_iff argv null = (λ h. cc, λ (e, f). cc)
same_argv_iff argv _ = (λ h. cc, λ (e, f). cc)

not_nothing : (s : String) → s ≢ "" → (s == "") ≡ false
not_nothing s n = ground (arith, eq_iff s "")

pub expiry-IsSilent :
    (rt : Runtime) (v : Value) (t : Time) → (expiry_errors rt v t ≡ []) ↔ IsUnexpired rt v t
unfolding expiry_errors
expiry-IsSilent rt (str s) t = (to, from)
  where
    due :
        (later : Bool)
        → ◌≡◌ {A = List String} (if not later then "authorization_expired" ∷ [] else []) []
        → later ≡ true
    due true h = refl
    due false h = cc

    to : expiry_errors rt (str s) t ≡ [] → IsUnexpired rt (str s) t
    to h = elim (Bool-cases (s == "")) [
      | inl e ↦ let k = rw e at h in cc
      | inr n ↦ elim (Option-cases (parsed rt s)) [
        | inl p ↦ let k = rw (n, p) at h in cc
        | inr (e, p) ↦ (s, e, refl, λ q. ground (arith, eq_iff s ""), p, due _ (rw (n, p) at h))
      ]
    ]

    from : IsUnexpired rt (str s) t → expiry_errors rt (str s) t ≡ []
    from (u, e, q, n, p, l) =
        let k : u ≡ s = cc in rw (not_nothing s (rw k at n), rw k at p, l) refl
expiry-IsSilent rt null t = (λ h. cc, λ (s, e, p, q, r, k). cc)
expiry-IsSilent rt _ t = (λ h. cc, λ (s, e, p, q, r, k). cc)

pub IsApprovedAt-IsSilent :
    (rt : Runtime) (v : Value) → (approved_at_errors rt v ≡ []) ↔ IsApprovedAt rt v
unfolding approved_at_errors
IsApprovedAt-IsSilent rt (str s) = (to, from)
  where
    to : approved_at_errors rt (str s) ≡ [] → IsApprovedAt rt (str s)
    to h = elim (Bool-cases (s == "")) [
      | inl e ↦ let k = rw e at h in cc
      | inr n ↦ elim (Option-cases (parsed rt s)) [
        | inl p ↦ let k = rw (n, p) at h in cc
        | inr (t, p) ↦ (s, t, refl, λ q. ground (arith, eq_iff s ""), p)
      ]
    ]

    from : IsApprovedAt rt (str s) → approved_at_errors rt (str s) ≡ []
    from (u, t, q, n, p) = let k : u ≡ s = cc in rw (not_nothing s (rw k at n), rw k at p) refl
IsApprovedAt-IsSilent rt null = (λ h. cc, λ (s, t, p, q, r). cc)
IsApprovedAt-IsSilent rt _ = (λ h. cc, λ (s, t, p, q, r). cc)

pub verdict-IsSilent :
    (rt : Runtime) (v : Value)
    → IsSilent (verdict_check rt v) ↔ ((v ≡ str "allow_limited") ⊎ (v ≡ str "warn"))
unfolding verdict_check
verdict-IsSilent rt (str s) = (to, from)
  where
    to : IsSilent (verdict_check rt (str s)) → (str s ≡ str "allow_limited") ⊎ (str s ≡ str "warn")
    to h = ground (
      arith,
      eq_iff s "block",
      eq_iff s "quarantine",
      eq_iff s "unknown",
      eq_iff s "warn",
      eq_iff s "allow_limited",
    )

    from :
        (str s ≡ str "allow_limited") ⊎ (str s ≡ str "warn") → IsSilent (verdict_check rt (str s))
    from (inl e) = let k : s ≡ "allow_limited" = cc in rw k refl
    from (inr e) = let k : s ≡ "warn" = cc in rw k refl
verdict-IsSilent rt null = (λ h. cc, λ o. ground arith)
verdict-IsSilent rt (list vs) = (λ h. cc, λ o. ground arith)
verdict-IsSilent rt _ = (λ h. cc, λ o. ground arith)
