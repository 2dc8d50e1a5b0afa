-- ===== src/Sandbox/Behavior/Judged.antt =====
-- The runs of evaluate_behavior_policy that end in a verdict other than "block".
use Prim.Native.String
use repo_health_doctor.Json.Equality.{equal}
use repo_health_doctor.Json.Equality.Laws.{equal-str}
use repo_health_doctor.Base.{
  ◌⊎◌, inl, inr, Bool-cases, and-eq-true_iff, ◌≡◌, ◌≢◌, refl, ap, sym, ◌∙◌, String, Bool, true,
  false, Option, none, some, All,
}
use repo_health_doctor.Base.Py.{
  Py, ok, raise, type_error, value_error, key_error, attribute_error, overflow_error, ◌>>=◌,
  >>=-eq-ok,
}
use repo_health_doctor.Json.{Value, null, str, dict, Fields, get, truth, mapping}
use repo_health_doctor.Sandbox.Guards.{IsPassed, raise_if, raise_if-IsPassed}
use repo_health_doctor.Sandbox.Observer.{holding, validate_normalized_observer_evidence}
use repo_health_doctor.Sandbox.Policy.{validate_behavior_policy}
use repo_health_doctor.Sandbox.Policy.Strict.{IsStrict, validate_behavior_policy-IsStrict}
use repo_health_doctor.Sandbox.Behavior.Evidence.{
  is_normalized, coerce_behavior_evidence, shape_tests,
}
use repo_health_doctor.Sandbox.Behavior.Recorded.{recorded, observations}
use repo_health_doctor.Sandbox.Behavior.Partition.{strongest, record_all-strongest}
use repo_health_doctor.Sandbox.Behavior.Contained.{
  IsContained, shape_tests-IsShaped, strongest-IsContained,
}
use repo_health_doctor.Sandbox.Behavior.{
  BehaviorVerdict, invalid_verdict, judge, same_command, read_same, read_evidence, after_reading,
  judge_valid, after_validation, evaluate_behavior_policy, matches_policy,
}
use repo_health_doctor.Sandbox.Runtime.{SandboxRuntime}

-- Evidence of the command that the policy binds: the fingerprint is that of the argv of the binding, and
-- the other fields are those of the binding.
pub record IsSameCommand (rt : SandboxRuntime) (binding command : Fields) : Type 0 where
  pub argv :
      get "argv_fingerprint" command
      ≡ str (String.◌++◌ "sha256:" (rt.sha256_hex (rt.compact_dumps (get "argv" binding))))
  pub phase : equal (get "phase" command) (get "phase" binding) ≡ true
  pub kind : equal (get "kind" command) (get "kind" binding) ≡ true
  pub cwd : equal (get "cwd" command) (get "cwd" binding) ≡ true
  pub shell : equal (get "shell" command) (get "shell" binding) ≡ true
  pub network_policy : equal (get "network_policy" command) (get "network_policy" binding) ≡ true

-- The evidence coerces to `c` and has its shape. Evidence in the normalized form is of the command that
-- the policy binds; the older form names no command, and nothing is said of it.
pub record IsRead (rt : SandboxRuntime) (p e c : Fields) : Type 0 where
  pub coerced : coerce_behavior_evidence rt e ≡ ok c
  pub shaped : All IsPassed (shape_tests c)
  pub same :
      (is_normalized e ≡ false)
      ⊎ IsSameCommand rt (mapping (get "binding" p)) (mapping (get "command" e))

ok-eq {ℓ} : {A : Type ℓ} {a b : A} → ok a ≡ ok b → b ≡ a
ok-eq h = cc

ok-some {ℓ} : {A : Type ℓ} {a b : A} → ok (some a) ≡ ok (some b) → a ≡ b
ok-some h = cc

checked {ℓ} :
    {A : Type ℓ} {c : A} (m : Py A) (check : A → Py {0} Unit)
    → (m >>= λ a. check a >>= λ _. ok (some a)) ≡ ok (some c)
    → (m ≡ ok c) × (check c ≡ ok tt)
checked (ok a) check h =
    let (_, shaped, last) = >>=-eq-ok (check a) _ h in
    let q = ok-some last in (ap ok q, sym (ap check q) ∙ shaped)
checked (raise e) check h = cc

-- The verdict of evaluate_behavior_policy on a valid policy and valid evidence is the worst of the levels
-- that the policy gives to the rules that the evidence breaks, and "pass" where it breaks none.
pub judge-strongest :
    (p c : Fields)
    → (judge p c).verdict
      ≡ strongest (mapping (get "severity_rules" p)) (
          holding (
            observations
              (mapping (get "expected_behavior" p))
              (mapping (get "observer_requirements" p))
              c))
unfolding judge recorded
judge-strongest p c =
    record_all-strongest (mapping (get "severity_rules" p)) (
      observations (mapping (get "expected_behavior" p)) (mapping (get "observer_requirements" p))
        c)

refused :
    (reason : String) {r : BehaviorVerdict}
    → ok (invalid_verdict reason) ≡ ok r
    → r.verdict ≡ "block"
unfolding invalid_verdict
refused reason h = ap (λ x. x.verdict) (ok-eq h)

module _ (rt : SandboxRuntime) where
  read_same-true :
      (e c : Fields) (same : Bool)
      → read_same rt e same ≡ ok (some c)
      → (same ≡ true) × (coerce_behavior_evidence rt e ≡ ok c) × (raise_if (shape_tests c) ≡ ok tt)
  unfolding read_same
  read_same-true e c true h =
      let (coerced, shaped) =
        checked (coerce_behavior_evidence rt e) (λ d. raise_if (shape_tests d)) h in
      (refl, coerced, shaped)
  read_same-true e c false h = cc

  matched :
      (p e : Fields) (normalized : Bool)
      → same_command rt p e normalized ≡ ok true
      → normalized ≡ true
      → matches_policy rt p e ≡ true
  unfolding same_command
  matched p e true h n =
      let (_, _, last) = >>=-eq-ok (validate_normalized_observer_evidence rt (dict e)) _ h in
      sym (ok-eq last)
  matched p e false h n = cc

  matches-IsSameCommand :
      (p e : Fields)
      → matches_policy rt p e ≡ true
      → IsSameCommand rt (mapping (get "binding" p)) (mapping (get "command" e))
  unfolding matches_policy
  matches-IsSameCommand p e h =
      let (h1, network_policy) = (and-eq-true_iff _ _).0 h in
      let (h2, shell) = (and-eq-true_iff _ _).0 h1 in
      let (h3, argv) = (and-eq-true_iff _ _).0 h2 in
      let (h4, cwd) = (and-eq-true_iff _ _).0 h3 in
      let (phase, kind) = (and-eq-true_iff _ _).0 h4 in
      record {
        argv = equal-str (get "argv_fingerprint" (mapping (get "command" e))) _ argv;
        phase = phase;
        kind = kind;
        cwd = cwd;
        shell = shell;
        network_policy = network_policy;
      }

  read_evidence-IsRead : (p e c : Fields) → read_evidence rt p e ≡ ok (some c) → IsRead rt p e c
  unfolding read_evidence
  read_evidence-IsRead p e c h =
      let (same, found, rest) = >>=-eq-ok (same_command rt p e (is_normalized e)) _ h in
      let (yes_same, coerced, shaped) = read_same-true e c same rest in
      record {
        coerced = coerced;
        shaped = raise_if-IsPassed (shape_tests c) shaped;
        same = elim (Bool-cases (is_normalized e)) [
          | inl n ↦
              inr (
                matches-IsSameCommand p e
                  (matched p e (is_normalized e) (found ∙ ap ok yes_same) n))
          | inr n ↦ inl n
        ];
      }

  after_reading-judge :
      (p : Fields) (read : Py (Option Fields)) (r : BehaviorVerdict)
      → after_reading rt p read ≡ ok r
      → r.verdict ≢ "block"
      → (c : Fields) × (read ≡ ok (some c)) × (r ≡ judge p c)
  unfolding after_reading
  after_reading-judge p (ok (some c)) r h n = (c, refl, ok-eq h)
  after_reading-judge p (ok none) r h n = absurd (n (refused _ h))
  after_reading-judge p (raise attribute_error) r h n = cc
  after_reading-judge p (raise overflow_error) r h n = cc
  after_reading-judge p (raise type_error) r h n = absurd (n (refused _ h))
  after_reading-judge p (raise key_error) r h n = absurd (n (refused _ h))
  after_reading-judge p (raise value_error) r h n = absurd (n (refused _ h))

  judge_valid-judge :
      (p : Fields) (evidence : Value) (r : BehaviorVerdict)
      → judge_valid rt p evidence ≡ ok r
      → r.verdict ≢ "block"
      → (e c : Fields) × (evidence ≡ dict e) × IsRead rt p e c × (r ≡ judge p c)
  unfolding judge_valid
  judge_valid-judge p (dict e) r h n =
      let (c, read, same) = after_reading-judge p (read_evidence rt p e) r h n in
      (e, c, refl, read_evidence-IsRead p e c read, same)
  judge_valid-judge p null r h n = cc
  judge_valid-judge p _ r h n = cc

  after_validation-judge :
      (policy evidence : Value) (valid : Py {0} Unit) (r : BehaviorVerdict)
      → after_validation rt policy evidence valid ≡ ok r
      → r.verdict ≢ "block"
      → (valid ≡ ok tt)
        × (e c : Fields) × (evidence ≡ dict e)
        × IsRead rt (mapping policy) e c
        × (r ≡ judge (mapping policy) c)
  unfolding after_validation
  after_validation-judge policy evidence (ok u) r h n =
      let (e, c, is_e, read, same) = judge_valid-judge (mapping policy) evidence r h n in
      (refl, e, c, is_e, read, same)
  after_validation-judge policy evidence (raise value_error) r h n = absurd (n (refused _ h))
  after_validation-judge policy evidence (raise type_error) r h n = cc
  after_validation-judge policy evidence (raise key_error) r h n = cc
  after_validation-judge policy evidence (raise attribute_error) r h n = cc
  after_validation-judge policy evidence (raise overflow_error) r h n = cc

  moved :
      (d p e c : Fields) (r : BehaviorVerdict)
      → d ≡ p
      → IsRead rt d e c
      → r ≡ judge d c
      → IsRead rt p e c × (r ≡ judge p c)
  moved d p e c r q read same = (rw q at read, rw q at same)

  pub evaluate_behavior_policy-judge :
      (policy evidence : Value) (r : BehaviorVerdict)
      → evaluate_behavior_policy rt policy evidence ≡ ok r
      → r.verdict ≢ "block"
      → (p e c : Fields) × (policy ≡ dict p)
        × (evidence ≡ dict e)
        × IsStrict p
        × IsRead rt p e c
        × (r ≡ judge p c)
  unfolding evaluate_behavior_policy
  evaluate_behavior_policy-judge policy evidence r h n =
      let (valid, e, c, is_e, read, same) =
        after_validation-judge policy evidence (validate_behavior_policy rt policy) r h n in
      let (p, is_p, strict) = validate_behavior_policy-IsStrict rt policy valid in
      let (read_p, same_p) = moved (mapping policy) p e c r (ap mapping is_p) read same in
      (p, e, c, is_p, is_e, strict, read_p, same_p)

  -- Where evaluate_behavior_policy returns a verdict other than "block", the policy is strict, the
  -- evidence could be read, it is of the policy's command where it has the normalized form, and the observed
  -- run is contained. Of evidence in the older form, which names no command, the command is not known.
  pub evaluate_behavior_policy-IsContained :
      (policy evidence : Value) (r : BehaviorVerdict)
      → evaluate_behavior_policy rt policy evidence ≡ ok r
      → r.verdict ≢ "block"
      → (p e c : Fields) × (policy ≡ dict p)
        × (evidence ≡ dict e)
        × IsStrict p
        × IsRead rt p e c
        × IsContained
            (truth (get "runtime_hook_required" (mapping (get "observer_requirements" p))))
            c
  evaluate_behavior_policy-IsContained policy evidence r h n =
      let (p, e, c, is_p, is_e, strict, read, same) =
        evaluate_behavior_policy-judge policy evidence r h n in
      (
        p,
        e,
        c,
        is_p,
        is_e,
        strict,
        read,
        strongest-IsContained p c strict (shape_tests-IsShaped c read.shaped)
            (λ b. n (ap (λ x. x.verdict) same ∙ judge-strongest p c ∙ b)),
      )
