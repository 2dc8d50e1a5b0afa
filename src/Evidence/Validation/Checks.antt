-- ===== src/Evidence/Validation/Checks.antt =====
-- Each section's checks in evidence/validation.py report nothing exactly for an accepted section.
use repo_health_doctor.Base.{
  ℕ, String, ◌≡◌, ◌<◌, ◌↔◌, refl, inl, inr, Bool, true, false, not, ◌&&◌, List, arith, some,
  contains, contains-mem, mem-contains, Bool-cases,
}
use repo_health_doctor.Base.Int.{pos, negsuc}
use repo_health_doctor.Base.Py.{
  ok, collect, flag-IsSilent, flag_if-IsSilent, IsSilent, collect-IsSilent, IsSilent-collect,
}
use repo_health_doctor.Json.{
  Value, null, bool, int, float, str, list, dict, Fields, get, is_int, is_true, is_false, is_text,
  is_text-eq, is_false-eq, as_number, is_num, count_invalid,
}
use repo_health_doctor.Json.Fingerprint.{fingerprint}
use repo_health_doctor.Json.Checks.{
  OneOf, IsBoolean, flag-not-IsSilent, flag-IsSilent_iff, not_member-IsSilent, NonEmpty-IsSilent,
  IsList-IsSilent, string-IsSilent, IsBoolean-IsSilent, not_text, not_empty,
}
use repo_health_doctor.Evidence.Validation.{
  source_checks, snapshot_checks, subject_checks, classification_checks, present_without_count,
  finding_checks, must_be_false, raw_handling_checks, trust_checks, lowering_checks, effects_checks,
  low_trust_levels,
}
use repo_health_doctor.Evidence.Validation.Accepted.{
  IsSource, IsSubject, IsClassification, IsFinding, IsRawHandling, IsTrust, IsEffects,
}

pub IsSource-IsSilent : (s : Fields) → IsSilent (collect (source_checks s)) ↔ IsSource s
unfolding source_checks
IsSource-IsSilent s = (
  λ h.
      let c = collect-IsSilent (source_checks s) h in
      record {
        mode = (not_member-IsSilent _ _ _).0 c.0;
        tool_name = (NonEmpty-IsSilent _ _).0 c.1.0;
        tool_version = (NonEmpty-IsSilent _ _).0 c.1.1.0;
        adapter_name = (NonEmpty-IsSilent _ _).0 c.1.1.1.0;
        adapter_version = (NonEmpty-IsSilent _ _).0 c.1.1.1.1.0;
      },
  λ p. IsSilent-collect (source_checks s) (
    (not_member-IsSilent _ _ _).1 p.mode,
    (
      (NonEmpty-IsSilent _ _).1 p.tool_name,
      (
        (NonEmpty-IsSilent _ _).1 p.tool_version,
        (
          (NonEmpty-IsSilent _ _).1 p.adapter_name,
          ((NonEmpty-IsSilent _ _).1 p.adapter_version, tt),
        ),
      ),
    ),
  ),
)

snapshot-IsSilent :
    (s : Fields)
    → IsSilent (collect (snapshot_checks s)) ↔ (
        get "binding_kind" s ≡ str "snapshot_bound"
        → (fingerprint (get "snapshot_id" s) ≡ true)
          × (fingerprint (get "manifest_fingerprint" s) ≡ true))
unfolding snapshot_checks
snapshot-IsSilent s = elim (Bool-cases (is_text (get "binding_kind" s) "snapshot_bound")) [
  | inl bound ↦ (
    λ h e.
        let c = collect-IsSilent (snapshot_checks s) h in
        let k = rw (bound, snapshot_checks) at c in
        ((flag-not-IsSilent _ _).0 k.0, (flag-not-IsSilent _ _).0 k.1.0),
    λ f. let q = f (is_text-eq _ _ bound) in rw (bound, q.0, q.1),
  )
  | inr free ↦ (λ h e. let t = rw e at free in cc, λ f. rw free refl)
]

pub subject-IsSilent : (s : Fields) → IsSilent (collect (subject_checks s)) ↔ IsSubject s
unfolding subject_checks
subject-IsSilent s = (
  λ h.
      let c = collect-IsSilent (subject_checks s) h in
      record {
        binding = (not_member-IsSilent _ _ _).0 c.0;
        path_scope = (IsList-IsSilent _ _).0 c.1.0;
        repo_identity = (NonEmpty-IsSilent _ _).0 c.1.1.0;
        snapshot = (snapshot-IsSilent s).0 c.1.1.1.0;
      },
  λ p. IsSilent-collect (subject_checks s) (
    (not_member-IsSilent _ _ _).1 p.binding,
    (
      (IsList-IsSilent _ _).1 p.path_scope,
      ((NonEmpty-IsSilent _ _).1 p.repo_identity, ((snapshot-IsSilent s).1 p.snapshot, tt)),
    ),
  ),
)

pub IsClassification-IsSilent :
    (c : Fields) → IsSilent (collect (classification_checks c)) ↔ IsClassification c
unfolding classification_checks
IsClassification-IsSilent c = (
  λ h.
      let k = collect-IsSilent (classification_checks c) h in
      record {
        category = (not_member-IsSilent _ _ _).0 k.0;
        severity = (not_member-IsSilent _ _ _).0 k.1.0;
        confidence = (not_member-IsSilent _ _ _).0 k.1.1.0;
        subcategory = (NonEmpty-IsSilent _ _).0 k.1.1.1.0;
        confidence_reason = (NonEmpty-IsSilent _ _).0 k.1.1.1.1.0;
      },
  λ p. IsSilent-collect (classification_checks c) (
    (not_member-IsSilent _ _ _).1 p.category,
    (
      (not_member-IsSilent _ _ _).1 p.severity,
      (
        (not_member-IsSilent _ _ _).1 p.confidence,
        (
          (NonEmpty-IsSilent _ _).1 p.subcategory,
          ((NonEmpty-IsSilent _ _).1 p.confidence_reason, tt),
        ),
      ),
    ),
  ),
)

abbrev Counts : Bool → Value → Type 0
Counts p v =
    (n : ℕ) × (is_int v ≡ true)
    × (as_number v ≡ some (pos n, 0))
    × ((p ≡ true → 0 < n) × (p ≡ false → n ≡ 0))

abbrev CountChecks : Bool → Value → Type 0
CountChecks p v =
    (count_invalid v ≡ ok false)
    × ((is_false (bool p) && not (is_num v (pos 0))) ≡ false)
    × (present_without_count (bool p) v ≡ ok false)

counts : (p : Bool) (v : Value) → CountChecks p v → Counts p v
unfolding present_without_count
counts true (int (pos n)) h = (n, refl, refl, ground arith)
counts false (int (pos n)) h = (n, refl, refl, ground arith)
counts true (int (negsuc n)) h = absurd (ground arith)
counts false (int (negsuc n)) h = absurd (ground arith)
counts true (bool true) h = (1, refl, refl, ground arith)
counts true (bool false) h = (0, refl, refl, ground arith)
counts false (bool true) h = (1, refl, refl, ground arith)
counts false (bool false) h = (0, refl, refl, ground arith)
counts p _ h = absurd (ground arith)

Counts-back : (p : Bool) (v : Value) → Counts p v → CountChecks p v
unfolding present_without_count
Counts-back true v h = ground arith
Counts-back false v h = ground arith

pub finding-IsSilent : (f : Fields) → IsSilent (collect (finding_checks f)) ↔ IsFinding f
unfolding finding_checks
finding-IsSilent f = (
  λ h.
      let c = collect-IsSilent (finding_checks f) h in
      let (p, e) = (IsBoolean-IsSilent _ _).0 c.0 in
      let (n, integral, count_is, counted) = counts p (get "count" f) (
        flag_if-IsSilent _ _ c.1.0,
        (rw e at (flag-IsSilent _ _ c.1.1.0)),
        (rw e at (flag_if-IsSilent _ _ c.1.1.1.0)),
      ) in
      record {
        present = p;
        present_is = e;
        count = n;
        integral = integral;
        count_is = count_is;
        counted = counted;
        locations = (IsList-IsSilent _ _).0 c.1.1.1.1.0;
        redacted_summary = (string-IsSilent _ _).0 c.1.1.1.1.1.0;
      },
  λ p.
      let (a, b, c) =
        Counts-back p.present (get "count" f) (p.count, p.integral, p.count_is, p.counted) in
      IsSilent-collect (finding_checks f) (
        (IsBoolean-IsSilent _ _).1 (p.present, p.present_is),
        (
          rw a refl,
          (
            rw (p.present_is, b) refl,
            (
              rw (p.present_is, c) refl,
              (
                (IsList-IsSilent _ _).1 p.locations,
                ((string-IsSilent _ _).1 p.redacted_summary, tt),
              ),
            ),
          ),
        ),
      ),
)

pub must_be_false-IsSilent :
    (r : Fields) (name : String) → IsSilent (must_be_false r name) ↔ (get name r ≡ bool false)
unfolding must_be_false
must_be_false-IsSilent r name = go (get name r) refl
  where
    go : (v : Value) → get name r ≡ v → IsSilent (must_be_false r name) ↔ (get name r ≡ bool false)
    go (bool true) e = rw (e, must_be_false) ((λ h. cc), (λ h. cc))
    go (bool false) e = rw (e, must_be_false) ((λ h. refl), (λ h. refl))
    go null e = rw (e, must_be_false) ((λ h. cc), (λ h. cc))
    go (int n) e = rw (e, must_be_false) ((λ h. cc), (λ h. cc))
    go (float n k) e = rw (e, must_be_false) ((λ h. cc), (λ h. cc))
    go (str s) e = rw (e, must_be_false) ((λ h. cc), (λ h. cc))
    go (list vs) e = rw (e, must_be_false) ((λ h. cc), (λ h. cc))
    go (dict d) e = rw (e, must_be_false) ((λ h. cc), (λ h. cc))

pub IsRawHandling-IsSilent :
    (r : Fields) → IsSilent (collect (raw_handling_checks r)) ↔ IsRawHandling r
unfolding raw_handling_checks
IsRawHandling-IsSilent r = (
  λ h.
      let c = collect-IsSilent (raw_handling_checks r) h in
      record {
        output = (must_be_false-IsSilent r _).0 c.0;
        stdout = (must_be_false-IsSilent r _).0 c.1.0;
        stderr = (must_be_false-IsSilent r _).0 c.1.1.0;
        redacted = λ e. let t = rw e at (flag-IsSilent _ _ c.1.1.1.0) in cc;
        redaction_failures = (IsList-IsSilent _ _).0 c.1.1.1.1.0;
      },
  λ p. IsSilent-collect (raw_handling_checks r) (
    (must_be_false-IsSilent r _).1 p.output,
    (
      (must_be_false-IsSilent r _).1 p.stdout,
      (
        (must_be_false-IsSilent r _).1 p.stderr,
        (
          (flag-IsSilent_iff _ _).1 (not_text _ _ p.redacted),
          ((IsList-IsSilent _ _).1 p.redaction_failures, tt),
        ),
      ),
    ),
  ),
)

pub IsTrust-IsSilent : (t : Fields) → IsSilent (collect (trust_checks t)) ↔ IsTrust t
unfolding trust_checks
IsTrust-IsSilent t = (
  λ h.
      let c = collect-IsSilent (trust_checks t) h in
      record {
        level = (not_member-IsSilent _ _ _).0 c.0;
        commit_bound = (IsBoolean-IsSilent _ _).0 c.1.0;
        signature_verified = (IsBoolean-IsSilent _ _).0 c.1.1.0;
        binary_attested = (IsBoolean-IsSilent _ _).0 c.1.1.1.0;
        limitations = λ e. let t = rw e at (flag-IsSilent _ _ c.1.1.1.1.0) in cc;
      },
  λ p. IsSilent-collect (trust_checks t) (
    (not_member-IsSilent _ _ _).1 p.level,
    (
      (IsBoolean-IsSilent _ _).1 p.commit_bound,
      (
        (IsBoolean-IsSilent _ _).1 p.signature_verified,
        (
          (IsBoolean-IsSilent _ _).1 p.binary_attested,
          ((flag-IsSilent_iff _ _).1 (not_empty _ p.limitations), tt),
        ),
      ),
    ),
  ),
)

lowers_not : (v : Value) → IsBoolean v → is_true v ≡ false → v ≡ bool false
lowers_not v (b, e) h = go b e (rw e at h)
  where
    go : (c : Bool) → v ≡ bool c → is_true (bool c) ≡ false → v ≡ bool false
    go true e h = cc
    go false e h = e

pub lowering-IsSilent :
    (f e : Fields) (low : Bool)
    → IsBoolean (get "can_lower_risk" e)
    → IsSilent (collect (lowering_checks (dict f) low e)) ↔ (
        (get "present" f ≡ bool false → get "can_lower_risk" e ≡ bool false)
        × (low ≡ true → get "can_lower_risk" e ≡ bool false))
unfolding lowering_checks
lowering-IsSilent f e low lowers = (
  λ h.
      let c = collect-IsSilent (lowering_checks (dict f) low e) h in
      (
        λ p. lowers_not _ lowers (rw p at (flag-IsSilent _ _ c.0)),
        λ p. lowers_not _ lowers (rw p at (flag-IsSilent _ _ c.1.0)),
      ),
  λ (p, q). IsSilent-collect (lowering_checks (dict f) low e) (
    (flag-IsSilent_iff _ _).1 (both _ (λ h. p (is_false-eq _ h))),
    ((flag-IsSilent_iff _ _).1 (both low q), tt),
  ),
)
  where
    both :
        (b : Bool)
        → (b ≡ true → get "can_lower_risk" e ≡ bool false)
        → (b && is_true (get "can_lower_risk" e)) ≡ false
    both true k = rw (k refl) refl
    both false k = refl

member-OneOf : (set : List String) (s : String) → (contains set s ≡ true) ↔ OneOf set (str s)
member-OneOf set s = (λ h. (s, refl, contains-mem s set h), λ o. found o)
  where
    found : OneOf set (str s) → contains set s ≡ true
    found (t, e, k) = let q : t ≡ s = cc in mem-contains s set (rw q at k)

pub IsEffects-IsSilent :
    (f t e : Fields)
    → IsTrust t
    → IsSilent (collect (effects_checks (dict f) (dict t) e)) ↔ IsEffects f t e
unfolding effects_checks
IsEffects-IsSilent f t e trusted =
    let (level, is_level, _) = trusted.level in
    let low = member-OneOf low_trust_levels level in
    (
      λ h.
          let c = collect-IsSilent (effects_checks (dict f) (dict t) e) h in
          let lowers = (IsBoolean-IsSilent _ _).0 c.1.0 in
          let k : IsSilent
              (collect (lowering_checks (dict f) (contains low_trust_levels level) e)) =
            rw is_level at c.1.1.1.0 in
          let (p, q) = (lowering-IsSilent f e (contains low_trust_levels level) lowers).0 k in
          record {
            authorizes = is_false-eq _ ((flag-not-IsSilent _ _).0 c.0);
            lowers = lowers;
            effect = (not_member-IsSilent _ _ _).0 c.1.1.0;
            silence = p;
            low_trust = λ o. q (low.1 (rw is_level at o));
          },
      λ p. IsSilent-collect (effects_checks (dict f) (dict t) e) (
        (flag-not-IsSilent _ _).1 (rw (p.authorizes) refl),
        (
          (IsBoolean-IsSilent _ _).1 p.lowers,
          (
            (not_member-IsSilent _ _ _).1 p.effect,
            (
              rw is_level (
                  (lowering-IsSilent f e (contains low_trust_levels level) p.lowers).1
                    (p.silence, λ h. p.low_trust (rw is_level (low.0 h)))),
              tt,
            ),
          ),
        ),
      ),
    )
