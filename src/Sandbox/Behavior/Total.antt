-- ===== src/Sandbox/Behavior/Total.antt =====
-- evaluate_behavior_policy fails closed: what the validation of evidence raises is caught.
use repo_health_doctor.Base.{
  ◌≡◌, refl, ◌⊎◌, inl, inr, String, Bool, true, false, not, List, [], ◌∷◌, ◌++◌, map, Option, none,
  some, All, All-append, same_set, if◌then◌else◌,
}
use repo_health_doctor.Base.Py.{
  Py, ok, raise, type_error, value_error, key_error, attribute_error, overflow_error, ◌>>=◌,
  Returns,
}
use repo_health_doctor.Json.{
  Value, null, bool, int, float, str, list, dict, Fields, keys, get, is_bool, mapping, not_member,
  count_invalid,
}
use repo_health_doctor.Sandbox.Guards.{raise_if}
use repo_health_doctor.Sandbox.Observer.{
  observer_tests, source_tests, command_tests, execution_tests, count_tests, flag_tests,
  summary_tests, reasons_tests, redaction_tests, flags_not_bool, observer_labels_invalid,
  validate_normalized_observer_evidence, counts_fit,
  normalized_observer_evidence_to_behavior_evidence,
}
use repo_health_doctor.Sandbox.Observer.Names.{
  source_flags, source_fields, command_fields, execution_fields, count_fields, flag_fields,
  summary_fields, redaction_fields,
}
use repo_health_doctor.Sandbox.Policy.{validate_behavior_policy, part}
use repo_health_doctor.Sandbox.Behavior.Names.{
  evidence_flags, evidence_counts, legacy_evidence_fields,
}
use repo_health_doctor.Sandbox.Behavior.Evidence.{
  shape_tests, counts_invalid, upgraded, other_tests, coerce_behavior_evidence, is_normalized,
}
use repo_health_doctor.Sandbox.Behavior.{
  read_evidence, read_same, same_command, after_reading, judge_valid, after_validation,
  evaluate_behavior_policy,
}
use repo_health_doctor.Sandbox.Runtime.{SandboxRuntime}

abbrev caught {ℓ} : {A : Type ℓ} → Py A → Bool
caught (raise attribute_error) = false
caught (raise overflow_error) = false
caught _ = true

-- What it raises, if anything, is a KeyError, a TypeError or a ValueError.
abbrev IsCaught {ℓ} : {A : Type ℓ} → Py A → Type 0
IsCaught m = caught m ≡ true

ok-IsCaught {ℓ} : {A : Type ℓ} (a : A) → IsCaught (ok a)
ok-IsCaught a = refl

bind-IsCaught {ℓ κ} :
    {A : Type ℓ} {B : Type κ} (m : Py A) (f : A → Py B)
    → IsCaught m
    → ((a : A) → IsCaught (f a))
    → IsCaught (m >>= f)
bind-IsCaught (ok a) f c k = k a
bind-IsCaught (raise attribute_error) f c k = cc
bind-IsCaught (raise overflow_error) f c k = cc
bind-IsCaught (raise type_error) f c k = refl
bind-IsCaught (raise key_error) f c k = refl
bind-IsCaught (raise value_error) f c k = refl

not_member-IsCaught : (set : List String) (v : Value) → IsCaught (not_member set v)
not_member-IsCaught set null = refl
not_member-IsCaught set (bool b) = refl
not_member-IsCaught set (int n) = refl
not_member-IsCaught set (float m k) = refl
not_member-IsCaught set (str s) = refl
not_member-IsCaught set (list vs) = refl
not_member-IsCaught set (dict d) = refl

count-IsCaught : (v : Value) → IsCaught (count_invalid v)
count-IsCaught null = refl
count-IsCaught (bool true) = refl
count-IsCaught (bool false) = refl
count-IsCaught (int n) = refl
count-IsCaught (float m k) = refl
count-IsCaught (str s) = refl
count-IsCaught (list vs) = refl
count-IsCaught (dict d) = refl

raise_if-IsCaught : (tests : List (Py Bool)) → All IsCaught tests → IsCaught (raise_if tests)
raise_if-IsCaught [] c = refl
raise_if-IsCaught (ok false ∷ tests) (_, c) = raise_if-IsCaught tests c
raise_if-IsCaught (ok true ∷ tests) c = refl
raise_if-IsCaught (raise attribute_error ∷ tests) (n, c) = cc
raise_if-IsCaught (raise overflow_error ∷ tests) (n, c) = cc
raise_if-IsCaught (raise type_error ∷ tests) (n, c) = refl
raise_if-IsCaught (raise key_error ∷ tests) (n, c) = refl
raise_if-IsCaught (raise value_error ∷ tests) (n, c) = refl

-- tests that raise nothing
answers-IsCaught {ℓ} :
    {A : Type ℓ} (test : A → Bool) (xs : List A) → All IsCaught (map (λ x. ok (test x)) xs)
answers-IsCaught test [] = tt
answers-IsCaught test (x ∷ xs) = (refl, answers-IsCaught test xs)

counts-IsCaught : (e : Fields) (names : List String) → All IsCaught (counts_invalid e names)
counts-IsCaught e [] = tt
counts-IsCaught e (name ∷ names) = (count-IsCaught (get name e), counts-IsCaught e names)

shape-IsCaught : (e : Fields) → All IsCaught (shape_tests e)
unfolding shape_tests
shape-IsCaught e = (
  refl,
  All-append IsCaught (flags_not_bool e evidence_flags)
      (counts_invalid e evidence_counts ++ other_tests e)
      (answers-IsCaught (λ name. not (is_bool (get name e))) evidence_flags)
      (All-append IsCaught (counts_invalid e evidence_counts) (other_tests e)
        (counts-IsCaught e evidence_counts) (refl, (refl, (refl, tt)))),
)

-- a part, and the tests after it
part-IsCaught :
    (v : Value) (fields : List String) (tests : Fields → List (Py Bool)) (rest : List (Py Bool))
    → ((d : Fields) → All IsCaught (tests d))
    → All IsCaught rest
    → All IsCaught (part v fields tests ++ rest)
part-IsCaught v fields tests rest c k =
    All-append IsCaught (part v fields tests) rest (refl, c (mapping v)) k

source-IsCaught : (s : Fields) → All IsCaught (source_tests s)
unfolding source_tests
source-IsCaught s = (
  not_member-IsCaught ("strace_runtime_hook" ∷ "strace_only" ∷ "runtime_hook_only" ∷ "none" ∷ [])
      (get "observer_mode" s),
  All-append IsCaught (flags_not_bool s source_flags) (reasons_tests s)
      (answers-IsCaught (λ name. not (is_bool (get name s))) source_flags) (refl, (refl, tt)),
)

command-IsCaught : (c : Fields) → All IsCaught (command_tests c)
unfolding command_tests
command-IsCaught c = (
  not_member-IsCaught ("phase2_install_probe" ∷ "phase3_runtime_probe" ∷ []) (get "phase" c),
  (refl, (refl, (refl, (refl, tt)))),
)

if-IsCaught {ℓ} :
    {A : Type ℓ} (b : Bool) (m n : Py A) → IsCaught m → IsCaught n → IsCaught (if b then m else n)
if-IsCaught true m n c k = c
if-IsCaught false m n c k = k

execution-IsCaught : (e : Fields) → All IsCaught (execution_tests e)
unfolding execution_tests
execution-IsCaught e =
    (refl, (if-IsCaught _ (ok true) _ refl (count-IsCaught (get "duration_ms" e)), tt))

flag-IsCaught : (f : Fields) → All IsCaught (flag_tests f)
unfolding flag_tests
flag-IsCaught f = (refl, tt)

redaction-IsCaught : (r : Fields) → All IsCaught (redaction_tests r)
unfolding redaction_tests
redaction-IsCaught r = (refl, tt)

summary-IsCaught : (s : Fields) → All IsCaught (summary_tests s)
summary-IsCaught s = answers-IsCaught (λ name. observer_labels_invalid (get name s)) summary_fields

module _ (rt : SandboxRuntime) where
  observer-IsCaught : (evidence : Value) → All IsCaught (observer_tests rt evidence)
  unfolding observer_tests
  observer-IsCaught evidence =
      let d = mapping evidence in
      let p6 = part (get "redaction" d) redaction_fields redaction_tests in
      let p5 = part (get "summaries" d) summary_fields summary_tests ++ p6 in
      let p4 = part (get "flags" d) flag_fields flag_tests ++ p5 in
      let p3 = part (get "counts" d) count_fields count_tests ++ p4 in
      let p2 = part (get "execution" d) execution_fields execution_tests ++ p3 in
      let p1 = part (get "command" d) command_fields command_tests ++ p2 in
      (
        refl,
        (
          refl,
          (
            refl,
            (
              refl,
              (
                refl,
                (part-IsCaught (get "source" d) source_fields source_tests p1 source-IsCaught (
                    part-IsCaught (get "command" d) command_fields command_tests p2 command-IsCaught
                      (part-IsCaught (get "execution" d) execution_fields execution_tests p3
                        execution-IsCaught
                        (part-IsCaught (get "counts" d) count_fields count_tests p4
                          (λ c. counts-IsCaught c count_fields)
                          (part-IsCaught (get "flags" d) flag_fields flag_tests p5 flag-IsCaught (
                            part-IsCaught (get "summaries" d) summary_fields summary_tests p6
                              summary-IsCaught
                              (refl, redaction-IsCaught (mapping (get "redaction" d))))))))),
              ),
            ),
          ),
        ),
      )

  validate-IsCaught :
      (evidence : Value) → IsCaught (validate_normalized_observer_evidence rt evidence)
  unfolding validate_normalized_observer_evidence
  validate-IsCaught evidence =
      raise_if-IsCaught (observer_tests rt evidence) (observer-IsCaught evidence)

  -- the lists that the counts of the evidence ask for can be built
  abbrev pub Fits : Fields → Type 0
  Fits e = counts_fit rt (mapping (get "counts" e)) ≡ true

  coerce-IsCaught : (e : Fields) → Fits e → IsCaught (coerce_behavior_evidence rt e)
  unfolding coerce_behavior_evidence normalized_observer_evidence_to_behavior_evidence
  coerce-IsCaught e fits =
      if-IsCaught (is_normalized e) (normalized_observer_evidence_to_behavior_evidence rt (dict e))
        _
        (bind-IsCaught (validate_normalized_observer_evidence rt (dict e)) _
          (validate-IsCaught (dict e)) (λ _. rw fits refl))
        (if-IsCaught (not (same_set (keys e) legacy_evidence_fields)) (raise value_error)
          (ok (upgraded e)) refl refl)

  same-IsCaught : (p e : Fields) (normalized : Bool) → IsCaught (same_command rt p e normalized)
  unfolding same_command
  same-IsCaught p e true =
      bind-IsCaught (validate_normalized_observer_evidence rt (dict e)) _
        (validate-IsCaught (dict e)) (λ _. refl)
  same-IsCaught p e false = refl

  read_same-IsCaught : (e : Fields) → Fits e → (same : Bool) → IsCaught (read_same rt e same)
  unfolding read_same
  read_same-IsCaught e fits true =
      bind-IsCaught (coerce_behavior_evidence rt e) _ (coerce-IsCaught e fits) (λ c.
        bind-IsCaught (raise_if (shape_tests c)) _
          (raise_if-IsCaught (shape_tests c) (shape-IsCaught c)) (λ _. refl))
  read_same-IsCaught e fits false = refl

  read-IsCaught : (p e : Fields) → Fits e → IsCaught (read_evidence rt p e)
  unfolding read_evidence
  read-IsCaught p e fits =
      bind-IsCaught (same_command rt p e (is_normalized e)) _ (same-IsCaught p e (is_normalized e))
        (read_same-IsCaught e fits)

  after_reading-Returns :
      (p : Fields) (read : Py (Option Fields)) → IsCaught read → Returns (after_reading rt p read)
  unfolding after_reading
  after_reading-Returns p (ok (some c)) n = (_, refl)
  after_reading-Returns p (ok none) n = (_, refl)
  after_reading-Returns p (raise type_error) n = (_, refl)
  after_reading-Returns p (raise key_error) n = (_, refl)
  after_reading-Returns p (raise value_error) n = (_, refl)
  after_reading-Returns p (raise attribute_error) n = cc
  after_reading-Returns p (raise overflow_error) n = cc

  after_validation-Returns :
      (policy : Value) (e : Fields) (valid : Py {0} Unit)
      → Fits e
      → (valid ≡ ok tt) ⊎ (valid ≡ raise value_error)
      → Returns (after_validation rt policy (dict e) valid)
  unfolding after_validation judge_valid
  after_validation-Returns policy e (ok u) fits h =
      after_reading-Returns (mapping policy) (read_evidence rt (mapping policy) e)
        (read-IsCaught (mapping policy) e fits)
  after_validation-Returns policy e (raise value_error) fits h = (_, refl)
  after_validation-Returns policy e (raise x) fits (inl h) = cc
  after_validation-Returns policy e (raise x) fits (inr h) = cc

  -- Where the policy is accepted, or refused with a ValueError, evaluate_behavior_policy returns a verdict
  -- on each dict of evidence whose counts of executions and subprocesses are small enough for the lists that
  -- are made of them: what the validation of the evidence raises becomes a verdict.
  pub evaluate_behavior_policy-Returns :
      (policy : Value) (e : Fields)
      → counts_fit rt (mapping (get "counts" e)) ≡ true
      → (validate_behavior_policy rt policy ≡ ok tt)
        ⊎ (validate_behavior_policy rt policy ≡ raise value_error)
      → Returns (evaluate_behavior_policy rt policy (dict e))
  unfolding evaluate_behavior_policy
  evaluate_behavior_policy-Returns policy e fits h =
      after_validation-Returns policy e (validate_behavior_policy rt policy) fits h
