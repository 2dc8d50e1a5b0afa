-- ===== src/Sandbox/Docker/Sanctioned.antt =====
-- The images that evaluate_image_policy lets a command run in.
use repo_health_doctor.Base.{
  has_text, not-false, ◌≡◌, refl, ◌↔◌, ◌⊎◌, inl, inr, zero, suc, String, Bool, true, false, Option,
  none, some, Bool-cases, arith, eq_iff, ap, not, if◌then◌else◌,
}
use repo_health_doctor.Base.Int.{ℤ, pos, negsuc}
use repo_health_doctor.Json.{Value, str, int, is_num, is_text, is_text-eq}
use repo_health_doctor.Sandbox.Docker.Image.{
  is_digest_pinned, is_full_image_id, is_latest, Inspection, unavailable, finished, first_id,
  read_id, compare_id, inspected, with_expected, ImagePolicy, evaluate_image_policy,
}

-- A local image that was chosen and allowed by name, has no latest tag, and has the full ID that is
-- expected, by the answer of the local daemon.
pub record IsSanctioned (reference : String) (explicitly allowed : Bool) (expected : Option String)
    (inspection : Inspection) : Type 0 where
  pub chosen : explicitly ≡ true
  pub local : allowed ≡ true
  pub tagged : is_latest reference ≡ false
  pub id : String
  pub payload : Value
  pub named : expected ≡ some id
  pub full : is_full_image_id id ≡ true
  pub inspected : inspection ≡ finished (pos 0) (some payload)
  pub identified : first_id payload ≡ some (str id)

zero_code : (code : ℤ) → is_num (int code) (pos 0) ≡ true → code ≡ pos 0
zero_code (pos zero) h = refl
zero_code (pos (suc n)) h = absurd (ground arith)
zero_code (negsuc n) h = absurd (ground arith)

-- A test that refuses was not met, where the answer allows the execution.
unrefused :
    (b : Bool) (x y : ImagePolicy)
    → x.execution_allowed ≡ false
    → (if b then x else y).execution_allowed ≡ true
    → (b ≡ false) × (y.execution_allowed ≡ true)
unrefused true x y n h = absurd (ground (arith, n, h))
unrefused false x y n h = (refl, h)

accepted :
    (b : Bool) (x y : ImagePolicy)
    → y.execution_allowed ≡ false
    → (if b then x else y).execution_allowed ≡ true
    → b ≡ true
accepted true x y n h = refl
accepted false x y n h = absurd (ground (arith, n, h))

compare_id-allowed :
    (id : String) (read : Option Value)
    → (compare_id id read).execution_allowed ≡ true
    → read ≡ some (str id)
unfolding compare_id
compare_id-allowed id none h = cc
compare_id-allowed id (some actual) h =
    ap some (is_text-eq actual id (accepted (is_text actual id) _ _ refl h))

read_id-first :
    (id : String) (payload : Option Value)
    → read_id payload ≡ some (str id)
    → (v : Value) × (payload ≡ some v) × (first_id v ≡ some (str id))
read_id-first id none h = cc
read_id-first id (some v) h = (v, refl, h)

inspected-allowed :
    (id : String) (answer : Inspection)
    → (inspected id answer).execution_allowed ≡ true
    → (payload : Value) × (answer ≡ finished (pos 0) (some payload))
      × (first_id payload ≡ some (str id))
unfolding inspected
inspected-allowed id unavailable h = cc
inspected-allowed id (finished code payload) h =
    let (ended, rest) = unrefused (not (is_num (int code) (pos 0))) _ _ refl h in
    let (v, is_v, first) =
      read_id-first id payload (compare_id-allowed id (read_id payload) rest) in
    let zero_ended = zero_code code (not-false _ ended) in (v, rw (zero_ended, is_v) refl, first)

module _ (reference : String) (explicitly allowed : Bool) (inspection : Inspection) where
  -- the last steps, from the ID that is expected
  expected-IsSanctioned :
      (expected : Option String)
      → explicitly ≡ true
      → allowed ≡ true
      → is_latest reference ≡ false
      → (with_expected expected inspection).execution_allowed ≡ true
      → IsSanctioned reference explicitly allowed expected inspection
  unfolding with_expected
  expected-IsSanctioned none c l t h = cc
  expected-IsSanctioned (some id) c l t h =
      let (full, rest) = unrefused (not (is_full_image_id id)) _ _ refl h in
      let (payload, answer, first) = inspected-allowed id inspection rest in
      record {
        chosen = c;
        local = l;
        tagged = t;
        id = id;
        payload = payload;
        named = refl;
        full = not-false _ full;
        inspected = answer;
        identified = first;
      }

  sanctioned :
      (expected : Option String)
      → IsSanctioned reference explicitly allowed expected inspection
      → (with_expected expected inspection).execution_allowed ≡ true
  unfolding with_expected inspected compare_id
  sanctioned expected s =
      rw (s.named, s.full, s.inspected, s.identified, (eq_iff s.id s.id).1 refl) refl

  -- evaluate_image_policy allows the execution exactly where the reference holds the text "@sha256:", with
  -- or without a digest behind it, or a local image is sanctioned: chosen and allowed by name, not the
  -- latest tag, with the full ID that is expected by the answer of the local daemon.
  pub evaluate_image_policy-IsSanctioned :
      (expected : Option String)
      → ((evaluate_image_policy reference explicitly allowed expected inspection).execution_allowed
          ≡ true)
        ↔ ((has_text "@sha256:" reference ≡ true)
            ⊎ IsSanctioned reference explicitly allowed expected inspection)
  unfolding evaluate_image_policy is_digest_pinned
  evaluate_image_policy-IsSanctioned expected = (to, from)
    where
      to :
          (evaluate_image_policy reference explicitly allowed expected inspection).execution_allowed
            ≡ true
          → (has_text "@sha256:" reference ≡ true)
            ⊎ IsSanctioned reference explicitly allowed expected inspection
      to h = elim (Bool-cases (is_digest_pinned reference)) [
        | inl p ↦ inl p
        | inr p ↦
            let h1 = rw p at h in
            let (c, h2) = unrefused (not explicitly) _ _ refl h1 in
            let (l, h3) = unrefused (not allowed) _ _ refl h2 in
            let (t, h4) = unrefused (is_latest reference) _ _ refl h3 in
            inr (expected-IsSanctioned expected (not-false _ c) (not-false _ l) t h4)
      ]

      from :
          (has_text "@sha256:" reference ≡ true)
            ⊎ IsSanctioned reference explicitly allowed expected inspection
          → (evaluate_image_policy reference explicitly allowed expected
              inspection).execution_allowed
            ≡ true
      from (inl p) = rw p refl
      from (inr s) = elim (Bool-cases (is_digest_pinned reference)) [
        | inl p ↦ rw p refl
        | inr p ↦ rw (p, s.chosen, s.local, s.tagged) (sanctioned expected s)
      ]
