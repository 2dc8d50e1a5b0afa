-- ===== src/Sandbox/Behavior/Within.antt =====
-- What a run must look like for the verdict "pass".
use repo_health_doctor.Json.Equality.{equal}
use repo_health_doctor.Base.{
  not-false, ◌≡◌, refl, ap, sym, ◌∙◌, String, Bool, true, false, not, List, [], ◌∷◌, All, any, Memᴰ,
  contains, contains-mem, Bool-cases, inl, inr, or_false, arith, if◌then◌else◌, eq_iff, length,
}
use repo_health_doctor.Base.Int.{pos}
use repo_health_doctor.Base.Py.{ok}
use repo_health_doctor.Json.{
  Value, null, Items, items, list, bool, int, str, dict, Fields, get, truth, mapping, string_items,
}
use repo_health_doctor.Sandbox.Observer.{holding}
use repo_health_doctor.Sandbox.Policy.Strict.{IsStrict, IsZero}
use repo_health_doctor.Sandbox.Behavior.Recorded.{
  observations, any_outside, more_than, subprocess_spawned, code_unexpected,
}
use repo_health_doctor.Sandbox.Behavior.Partition.{strongest, blocks, reviews, warns}
use repo_health_doctor.Sandbox.Behavior.Contained.{
  IsShaped, count_most, flag_false, shape_tests-IsShaped,
}
use repo_health_doctor.Sandbox.Behavior.Judged.{
  IsRead, judge-strongest, evaluate_behavior_policy-judge,
}
use repo_health_doctor.Sandbox.Behavior.{BehaviorVerdict, evaluate_behavior_policy}
use repo_health_doctor.Sandbox.Runtime.{SandboxRuntime}

-- Each name that `found` lists is in the list `allowed`.
abbrev pub OnlyFrom : Value → Value → Type 0
OnlyFrom found allowed = (s : String) → Memᴰ s (string_items found) → Memᴰ s (string_items allowed)

-- The return code equals one that is listed.
abbrev pub ReturnsExpected : Value → Value → Type 0
ReturnsExpected code expected =
    (codes : Items) × (expected ≡ list codes)
    × (c : Value) × Memᴰ c (items codes)
    × (equal code c ≡ true)

-- Nothing ran, read or ended otherwise than the expected behavior says.
pub record IsWithin (expected e : Fields) : Type 0 where
  pub secrets : IsZero (get "secret_event_count" e)
  pub binaries : OnlyFrom (get "execve_binaries" e) (get "allowed_exec_binaries" expected)
  pub no_subprocess :
      get "allow_subprocess" expected ≡ bool false → truth (get "subprocess_binaries" e) ≡ false
  pub few_subprocesses :
      get "allow_subprocess" expected ≡ str "limited"
      → more_than
          (int (pos (length (string_items (get "subprocess_binaries" e)))))
          (get "max_process_events" expected)
        ≡ false
  pub subprocesses :
      get "allow_subprocess" expected ≡ str "limited"
      → OnlyFrom (get "subprocess_binaries" e) (get "limited_subprocess_binaries" expected)
  pub in_time : get "timed_out" e ≡ bool false
  pub code : ReturnsExpected (get "return_code" e) (get "expected_return_codes" expected)

Unmet : Bool × String → Type 0
Unmet (test, rule) = test ≡ false

named : Bool → Bool → Bool → String
named b r w = if b then "block" else if r then "needs_review" else if w then "warn" else "pass"

named-pass : (b r w : Bool) → named b r w ≡ "pass" → (b ≡ false) × (r ≡ false) × (w ≡ false)
unfolding named
named-pass true r w h = absurd (ground (arith, eq_iff "block" "pass"))
named-pass false true w h = absurd (ground (arith, eq_iff "needs_review" "pass"))
named-pass false false true h = absurd (ground (arith, eq_iff "warn" "pass"))
named-pass false false false h = (refl, refl, refl)

no_rule : (severity : Fields) (rules : List String) → strongest severity rules ≡ "pass" → rules ≡ []
unfolding named
no_rule severity [] h = refl
no_rule severity (rule ∷ rules) h =
    let (b, r, w) =
      named-pass (any (blocks severity) (rule ∷ rules)) (any (reviews severity) (rule ∷ rules))
        (any (warns severity) (rule ∷ rules)) h in
    let (b0, _) = or_false (blocks severity rule) _ b in
    let (r0, _) = or_false (reviews severity rule) _ r in
    let (w0, _) = or_false (warns severity rule) _ w in absurd (ground arith)

holding-Unmet : (tests : List (Bool × String)) → holding tests ≡ [] → All Unmet tests
unfolding Unmet
holding-Unmet [] h = tt
holding-Unmet ((false, rule) ∷ tests) h = (refl, holding-Unmet tests h)
holding-Unmet ((true, rule) ∷ tests) h = cc

any_outside-OnlyFrom :
    (allowed : List String) (found : List String) {s : String}
    → any (λ t. not (contains allowed t)) found ≡ false
    → Memᴰ s found
    → Memᴰ s allowed
any_outside-OnlyFrom allowed [] h m = elim m [ ]
any_outside-OnlyFrom allowed (t ∷ found) h (Memᴰ.head q) =
    let (p, _) = or_false (not (contains allowed t)) _ h in
    rw q (contains-mem t allowed (ground arith))
any_outside-OnlyFrom allowed (t ∷ found) h (Memᴰ.tail m) =
    let (_, p) = or_false (not (contains allowed t)) _ h in any_outside-OnlyFrom allowed found p m

none_spawned :
    (expected : Fields) (found : Value)
    → subprocess_spawned expected found ≡ false
    → get "allow_subprocess" expected ≡ bool false
    → truth found ≡ false
none_spawned expected found h m = elim (Bool-cases (truth found)) [
  | inl t ↦ absurd (ground (arith, spawned t))
  | inr t ↦ t
]
  where
    spawned : truth found ≡ true → subprocess_spawned expected found ≡ true
    spawned t = rw (m, t) refl

limited_spawned :
    (expected : Fields) (found : Value)
    → subprocess_spawned expected found ≡ false
    → get "allow_subprocess" expected ≡ str "limited"
    → (more_than (int (pos (length (string_items found)))) (get "max_process_events" expected)
        ≡ false)
      × (any_outside found (get "limited_subprocess_binaries" expected) ≡ false)
limited_spawned expected found h m = or_false _ _ (rw m at h)

any-mem :
    (test : Value → Bool) (vs : List Value)
    → any test vs ≡ true
    → (v : Value) × Memᴰ v vs × (test v ≡ true)
any-mem test [] h = cc
any-mem test (v ∷ vs) h = elim (Bool-cases (test v)) [
  | inl e ↦ (v, Memᴰ.head refl, e)
  | inr e ↦ let (w, m, k) = any-mem test vs (rw e at h) in (w, Memᴰ.tail m, k)
]

expected-code :
    (code expected : Value) → code_unexpected code expected ≡ false → ReturnsExpected code expected
unfolding code_unexpected
expected-code code (list codes) h =
    let (c, m, e) = any-mem (equal code) (items codes) (not-false _ h) in (codes, refl, c, m, e)
expected-code code null h = cc
expected-code code _ h = cc

Unmet-IsWithin :
    (expected observers e : Fields)
    → IsShaped e
    → IsZero (get "max_secret_events" expected)
    → All Unmet (observations expected observers e)
    → IsWithin expected e
unfolding observations Unmet
Unmet-IsWithin expected observers e shaped zero_secrets q =
    let spawned = q.1.1.1.1.1.1.1.1.1.1.1.1.1.1.1.1.1.1.0 in
    record {
      secrets =
          count_most (get "secret_event_count" e) (get "max_secret_events" expected)
            (shaped.counts "secret_event_count" refl) zero_secrets
            (q.1.1.1.1.1.1.1.1.1.1.1.1.1.1.1.0);
      binaries = λ s m.
          any_outside-OnlyFrom (string_items (get "allowed_exec_binaries" expected)) _
            (q.1.1.1.1.1.1.1.1.1.1.1.1.1.1.1.1.1.0) m;
      no_subprocess = none_spawned expected (get "subprocess_binaries" e) spawned;
      few_subprocesses = λ m. (limited_spawned expected (get "subprocess_binaries" e) spawned m).0;
      subprocesses = λ m s k.
          any_outside-OnlyFrom (string_items (get "limited_subprocess_binaries" expected)) _
            ((limited_spawned expected (get "subprocess_binaries" e) spawned m).1) k;
      in_time =
          flag_false (get "timed_out" e) (shaped.flags "timed_out" refl)
            (q.1.1.1.1.1.1.1.1.1.1.1.1.1.1.1.1.1.1.1.0);
      code =
          expected-code (get "return_code" e) (get "expected_return_codes" expected)
            (q.1.1.1.1.1.1.1.1.1.1.1.1.1.1.1.1.1.1.1.1.0);
    }

-- Where evaluate_behavior_policy returns the verdict "pass", the policy is strict, the evidence could be
-- read, it is of the policy's command where it has the normalized form, and IsWithin holds of the observed
-- run: no secret was touched, only allowed binaries ran, no subprocess ran where allow_subprocess is the
-- value False, at most so many and only listed ones where it is "limited", and the run ended in time with an
-- expected return code. Where allow_subprocess is the number 0, nothing is said of subprocesses.
pub evaluate_behavior_policy-IsWithin :
    (rt : SandboxRuntime) (policy evidence : Value) (r : BehaviorVerdict)
    → evaluate_behavior_policy rt policy evidence ≡ ok r
    → r.verdict ≡ "pass"
    → (p e c : Fields) × (policy ≡ dict p)
      × (evidence ≡ dict e)
      × IsStrict p
      × IsRead rt p e c
      × IsWithin (mapping (get "expected_behavior" p)) c
evaluate_behavior_policy-IsWithin rt policy evidence r h v =
    let (p, e, c, is_p, is_e, strict, read, same) =
      evaluate_behavior_policy-judge rt policy evidence r h
        (λ b. ground (arith, eq_iff "pass" "block")) in
    let expected = mapping (get "expected_behavior" p) in
    let observers = mapping (get "observer_requirements" p) in
    let passed = sym (judge-strongest p c) ∙ sym (ap (λ x. x.verdict) same) ∙ v in
    let none =
      no_rule (mapping (get "severity_rules" p)) (holding (observations expected observers c))
        passed in
    (
      p,
      e,
      c,
      is_p,
      is_e,
      strict,
      read,
      Unmet-IsWithin expected observers c (shape_tests-IsShaped c read.shaped) strict.secrets
          (holding-Unmet (observations expected observers c) none),
    )
