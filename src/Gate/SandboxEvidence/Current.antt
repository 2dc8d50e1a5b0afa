-- ===== src/Gate/SandboxEvidence/Current.antt =====
-- What the validation of a report says of it, where it finds the report valid.
use repo_health_doctor.Base.{
  ℕ, ◌*◌, String, ◌≡◌, Option, none, some, is_empty→nil, not-false, refl, ap, sym, ◌∙◌, Bool, true,
  false, not, ◌&&◌, List, [], ◌∷◌, All, all, Memᴰ, mem-contains, contains, dedupe-eq-nil,
  append-eq-nil, if◌then◌else◌, ◌==◌, ◌⊎◌, inl, inr, Bool-cases, and-eq-true_iff, arith,
}
use repo_health_doctor.Base.Int.{ℤ, pos, negsuc, ltb_ℤ, ◌≤ℤ◌, ◌+ℤ◌}
use repo_health_doctor.Base.Py.{Py, ok, raise, value_error, >>=-eq-ok}
use repo_health_doctor.Json.{
  Value, null, bool, int, float, str, list, dict, Fields, get, is_dict, is_null, is_text,
  is_text-eq, mapping, string_items,
}
use repo_health_doctor.Json.Equality.{equal}
use repo_health_doctor.Json.Fingerprint.{fingerprint}
use repo_health_doctor.Json.Runtime.{Runtime, Time, replace}
use repo_health_doctor.Gate.Authorization.Artifact.{parsed}
use repo_health_doctor.Evidence.SandboxRun.{report_fingerprint}
use repo_health_doctor.Evidence.SandboxRun.Normalized.{normalize_sandbox_run_evidence}
use repo_health_doctor.Gate.Evaluator.Signals.{value_eq}
use repo_health_doctor.Gate.Evaluator.Candidates.{flagged-eq-nil}
use repo_health_doctor.Gate.Evaluator.SandboxRuns.{neither}
use repo_health_doctor.Gate.SandboxEvidence.WellFormed.{
  IsWellFormed, source_shape_errors-IsWellFormed,
}
use repo_health_doctor.Gate.SandboxEvidence.{
  Expected, SandboxRunEvidenceValidationResult, reason_flags, reasons_of, subject_differs,
  version_differs, exceeds, parse_timestamp, is_stale, time_errors, claimed_errors, source_errors,
  when, safe_run_id, faults, judged, senseless, validate_sandbox_run_evidence, mapping_matches,
  matched_fields,
}

-- A subject with the six fields of the one that is expected, by Python's equality.
abbrev pub IsSubject : Value → Fields → Type 0
IsSubject subject expected =
    (actual : Fields) × (subject ≡ dict actual)
    × All (λ k. equal (get k actual) (get k expected) ≡ true)
        ("repo" ∷ "commit" ∷ "tree_hash" ∷ "snapshot_id" ∷ "manifest_fingerprint" ∷ "binding_kind"
          ∷ [])

-- A report, with its normalized form, that is well formed, is what is expected, and is used once. Times are
-- in microseconds: it is at most max_age_seconds old, and at most 300 seconds ahead of the clock.
pub record IsCurrent (rt : Runtime) (o : Expected) (report : Value) : Type 0 where
  pub source : Fields
  pub object : report ≡ dict source
  pub well_formed : IsWellFormed source
  pub own_fingerprint :
      (get "report_fingerprint" source ≡ null)
      ⊎ (get "report_fingerprint" source ≡ str (report_fingerprint rt source))
  pub unseen : ¬ (Memᴰ (report_fingerprint rt source) o.seen_fingerprints)
  pub evidence : Fields
  pub normal : normalize_sandbox_run_evidence rt report ≡ ok evidence
  pub expected_subject :
      (o.subject ≡ none)
      ⊎ ((expected : Fields) × (o.subject ≡ some expected)
          × IsSubject (get "subject" evidence) expected)
  pub expected_policy :
      (o.policy_version ≡ none)
      ⊎ ((version : String) × (o.policy_version ≡ some version)
          × (get "version" (mapping (get "policy" evidence)) ≡ str version))
  pub text : String
  pub generated_at : Time
  pub timed : get "generated_at" evidence ≡ str text
  pub parsed_time : rt.parse_time (replace b'Z' "+00:00" text) ≡ some generated_at
  pub zoned : generated_at.aware ≡ true
  pub max_age : ℕ
  pub bounded : o.max_age_seconds ≡ pos max_age
  pub fresh : o.now.ticks ≤ℤ generated_at.ticks +ℤ pos (max_age * 1000000)
  pub past : generated_at.ticks ≤ℤ o.now.ticks +ℤ pos 300000000
  pub within_total : o.total_over_budget ≡ false
  pub within_size :
      (o.source_size_bytes ≡ none)
      ⊎ ((size : ℤ) × (o.source_size_bytes ≡ some size) × (size ≤ℤ o.max_bytes))

module _ (rt : Runtime) where
  pub validated :
      (o : Expected) (report : Value) (r : SandboxRunEvidenceValidationResult)
      → validate_sandbox_run_evidence rt o report ≡ ok r
      → (evidence : Fields) × (normalize_sandbox_run_evidence rt report ≡ ok evidence)
        × (judged rt (faults rt o report evidence) evidence ≡ r)
        × (senseless rt o ≡ false)
  unfolding validate_sandbox_run_evidence
  validated o report r h =
      let (sense, run) = passed (senseless rt o) _ h in
      let (e, n, q) =
        >>=-eq-ok (normalize_sandbox_run_evidence rt report)
          (λ e. ok (judged rt (faults rt o report e) e)) run in
      (e, n, value_eq _ _ q, sense)
    where
      passed :
          {A : Type 0} (b : Bool) (run : Py A) {a : A}
          → (if b then raise value_error else run) ≡ ok a
          → (b ≡ false) × (run ≡ ok a)
      passed true run k = cc
      passed false run k = (refl, k)

when-eq-nil : (b : Bool) (s : String) → when b s ≡ [] → b ≡ false
when-eq-nil false s h = refl
when-eq-nil true s h = cc

-- The claimed fingerprint is none, or it is `own`.
claim_right :
    (claimed : Value) (own : String)
    → (not (is_null claimed) && not (fingerprint claimed)) ≡ false
    → (true && fingerprint claimed && not (is_text claimed own)) ≡ false
    → (claimed ≡ null) ⊎ (claimed ≡ str own)
unfolding fingerprint
claim_right null own h k = inl refl
claim_right (str s) own h k =
    inr (is_text-eq (str s) own (both_hold (fingerprint (str s)) _ (not-false _ h) k))
  where
    both_hold : (a b : Bool) → a ≡ true → (true && a && not b) ≡ false → b ≡ true
    both_hold true true e k = refl
    both_hold true false e k = cc
    both_hold false b e k = cc
claim_right (bool b) own h k = absurd (ground arith)
claim_right _ own h k = absurd (ground arith)

unseen_mem : (xs : List String) (x : String) → contains xs x ≡ false → ¬ (Memᴰ x xs)
unseen_mem xs x h m = let e : true ≡ false = sym (mem-contains x xs m) ∙ h in cc

not_less : (a b : ℤ) → ltb_ℤ a b ≡ false → b ≤ℤ a
not_less a b h = ground arith

all-All :
    (test : String → Bool) (ks : List String) → all test ks ≡ true → All (λ k. test k ≡ true) ks
all-All test [] h = tt
all-All test (k ∷ ks) h =
    let (e, rest) = (and-eq-true_iff (test k) _).0 h in (e, all-All test ks rest)

same_subject :
    (subject : Value) (expected : Option Fields)
    → subject_differs subject expected ≡ false
    → (expected ≡ none) ⊎ ((d : Fields) × (expected ≡ some d) × IsSubject subject d)
unfolding mapping_matches
same_subject subject none h = inl refl
same_subject (dict actual) (some d) h = inr (
  d,
  refl,
  (actual, refl, all-All (λ k. equal (get k actual) (get k d)) matched_fields (not-false _ h)),
)
same_subject null (some d) h = cc
same_subject _ (some d) h = cc

same_version :
    (version : Value) (expected : Option String)
    → version_differs version expected ≡ false
    → (expected ≡ none) ⊎ ((v : String) × (expected ≡ some v) × (version ≡ str v))
same_version version none h = inl refl
same_version version (some v) h = inr (v, refl, is_text-eq version v (not-false _ h))

small_enough :
    (size : Option ℤ) (max_bytes : ℤ)
    → exceeds size max_bytes ≡ false
    → (size ≡ none) ⊎ ((n : ℤ) × (size ≡ some n) × (n ≤ℤ max_bytes))
small_enough none max_bytes h = inl refl
small_enough (some n) max_bytes h = inr (n, refl, not_less max_bytes n h)

positive : (n : ℤ) → ltb_ℤ (pos 0) n ≡ true → (k : ℕ) × (n ≡ pos k)
positive (pos k) h = (k, refl)
positive (negsuc k) h = absurd (ground arith)

some_eq {ℓ} : {A : Type ℓ} {a b : A} → some a ≡ some b → a ≡ b
some_eq h = cc

kept_some {ℓ} :
    {A : Type ℓ} (b : Bool) (u : A) {t : A}
    → (if b then some u else none) ≡ some t
    → (b ≡ true) × (u ≡ t)
kept_some true u h = (refl, some_eq h)
kept_some false u h = cc

module _ (rt : Runtime) where
  not_old :
      (t now : Time) (age : ℕ)
      → is_stale rt (some t) now (pos age) ≡ false
      → now.ticks ≤ℤ t.ticks +ℤ pos (age * 1000000)
  not_old t now age h = not_less (t.ticks +ℤ pos (age * 1000000)) now.ticks h

  not_ahead :
      (t now : Time) → time_errors rt (some t) now ≡ [] → t.ticks ≤ℤ now.ticks +ℤ pos 300000000
  not_ahead t now h = not_less (now.ticks +ℤ pos 300000000) t.ticks (when-eq-nil _ _ h)

  source_errors-eq-nil :
      (report : Value)
      → source_errors rt report ≡ []
      → (d : Fields) × (report ≡ dict d) × IsWellFormed d
  source_errors-eq-nil (dict d) h = (d, refl, source_shape_errors-IsWellFormed d h)
  source_errors-eq-nil null h = cc
  source_errors-eq-nil (bool b) h = cc
  source_errors-eq-nil (int n) h = cc
  source_errors-eq-nil (float m k) h = cc
  source_errors-eq-nil (str s) h = cc
  source_errors-eq-nil (list vs) h = cc

  -- a time is read of a text, and has a zone
  parsed_text :
      (v : Value) (t : Time)
      → parse_timestamp rt v ≡ some t
      → (s : String) × (v ≡ str s)
        × (rt.parse_time (replace b'Z' "+00:00" s) ≡ some t)
        × (t.aware ≡ true)
  unfolding parse_timestamp
  parsed_text (str s) t h = elim (Bool-cases (s == "")) [
    | inl e ↦ no (rw e at h)
    | inr e ↦ let (q, z) = zoned (parsed rt s) (rw e at h) in (s, refl, q, z)
  ]
    where
      no : {P : Type 0} → ◌≡◌ {A = Option Time} none (some t) → P
      no h = cc

      zoned :
          (found : Option Time)
          → elim found [ none ↦ none | some u ↦ if u.aware then some u else none ] ≡ some t
          → (found ≡ some t) × (t.aware ≡ true)
      zoned none h = cc
      zoned (some u) h =
          let (e, q) = kept_some u.aware u h in (ap some q, sym (ap (λ x. x.aware) q) ∙ e)
  parsed_text null t h = cc
  parsed_text (bool b) t h = cc
  parsed_text _ t h = cc

  known_time :
      (t : Option Time) (now : Time) → time_errors rt t now ≡ [] → (u : Time) × (t ≡ some u)
  known_time none now h = cc
  known_time (some u) now h = (u, refl)

  faultless :
      (o : Expected) (report : Value) (e : Fields)
      → normalize_sandbox_run_evidence rt report ≡ ok e
      → senseless rt o ≡ false
      → All (λ f. f.0 ≡ false) (reason_flags (faults rt o report e))
      → IsCurrent rt o report
  unfolding faults
  faultless o report e n sense fs =
      let (no_errors, mismatch) = neither _ _ fs.0 in
      let errors = is_empty→nil _ (not-false _ no_errors) in
      let (source, e1) = append-eq-nil (source_errors rt report) _ errors in
      let (claimed, e2) =
        append-eq-nil (claimed_errors rt (get "report_fingerprint" (mapping report))) _ e1 in
      let (_, e3) =
        append-eq-nil
          (when (contains (string_items (get "decision_signals" e)) "sandbox_evidence_invalid")
            "sandbox_report_shape_invalid")
          _ e2 in
      let (_, e4) =
        append-eq-nil (when (not (safe_run_id (get "run_id" e))) "run_id_invalid") _ e3 in
      let (_, time) =
        append-eq-nil
          (when (not (fingerprint (get "decision_fingerprint" (mapping (get "gate" e)))))
            "gate_decision_fingerprint_invalid")
          _ e4 in
      let (d, object, shape) = source_errors-eq-nil report source in
      let (generated_at, known) =
        known_time (parse_timestamp rt (get "generated_at" e)) o.now time in
      let (text, timed, read, zoned) = parsed_text (get "generated_at" e) generated_at known in
      let (total, size) = neither o.total_over_budget _ fs.1.1.1.1.1.0 in
      let (sense1, _) = neither _ _ sense in
      let (aged, _) = neither _ _ sense1 in
      let (age, is_age) = positive o.max_age_seconds (not-false _ aged) in
      let is_source : mapping report ≡ d = ap mapping object in
      record {
        source = d;
        object = object;
        well_formed = shape;
        own_fingerprint = rw object at (
            claim_right (get "report_fingerprint" (mapping report))
              (report_fingerprint rt (mapping report)) (when-eq-nil _ _ claimed)
              (rw (ap is_dict object) at mismatch));
        unseen = unseen_mem o.seen_fingerprints _ (rw object at fs.1.1.1.1.1.1.0);
        evidence = e;
        normal = n;
        expected_subject = same_subject (get "subject" e) o.subject fs.1.1.1.0;
        expected_policy =
            same_version (get "version" (mapping (get "policy" e))) o.policy_version fs.1.1.1.1.0;
        text = text;
        generated_at = generated_at;
        timed = timed;
        parsed_time = read;
        zoned = zoned;
        max_age = age;
        bounded = is_age;
        fresh = not_old generated_at o.now age (rw (known, is_age) at fs.1.1.0);
        past = not_ahead generated_at o.now (rw known at time);
        within_total = total;
        within_size = small_enough o.source_size_bytes o.max_bytes size;
      }

  -- A report that validate_sandbox_run_evidence finds valid is well formed, claims no fingerprint but its
  -- own, which was not seen before, is of the expected subject and policy, where such are given, at most
  -- max_age_seconds old, at most 300 seconds ahead of the clock, and within the budget.
  pub validate_sandbox_run_evidence-IsCurrent :
      (o : Expected) (report : Value) (r : SandboxRunEvidenceValidationResult)
      → validate_sandbox_run_evidence rt o report ≡ ok r
      → r.valid ≡ true
      → IsCurrent rt o report
  unfolding judged reasons_of
  validate_sandbox_run_evidence-IsCurrent o report r h v =
      let (e, n, q, sense) = validated rt o report r h in
      let f = faults rt o report e in
      let none = is_empty→nil (reasons_of f) (ap (λ x. x.valid) q ∙ v) in
      faultless o report e n sense (flagged-eq-nil (reason_flags f) (dedupe-eq-nil _ none))
