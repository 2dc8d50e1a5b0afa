-- ===== src/Sandbox/Policy/Strict.antt =====
-- What validate_behavior_policy guarantees of the policies that it accepts.
use repo_health_doctor.Base.{
  not-false, ◌≡◌, refl, ◌⊎◌, zero, suc, String, Bool, true, false, not, ◌&&◌, ◌||◌, List, [], ◌∷◌,
  ◌++◌, map, All, All-left, All-right, or_false, inl, inr, arith, if◌then◌else◌,
}
use repo_health_doctor.Base.Int.{pos, negsuc}
use repo_health_doctor.Base.Py.{Py, ok, ◌>>=◌, >>=-eq-ok}
use repo_health_doctor.Json.{
  Value, null, bool, int, str, dict, Fields, get, is_text, is_num, count_invalid, is_true-eq,
  is_false-eq, is_text-eq, mapping,
}
use repo_health_doctor.Sandbox.Guards.{IsPassed, raise_if-IsPassed}
use repo_health_doctor.Sandbox.Policy.Names.{
  binding_fields, expected_fields, severity_fields, observer_fields, redaction_fields,
}
use repo_health_doctor.Sandbox.Policy.{
  part, binding_tests, expected_tests, severity_tests, observer_tests, redaction_tests,
  header_tests, policy_tests, validate_behavior_policy, relaxed,
}
use repo_health_doctor.Sandbox.Runtime.{SandboxRuntime}

-- The number 0, or False.
abbrev pub IsZero : Value → Type 0
IsZero v = (v ≡ int (pos 0)) ⊎ (v ≡ bool false)

pub IsZero-count : (v : Value) → count_invalid v ≡ ok false → is_num v (pos 0) ≡ true → IsZero v
IsZero-count (bool false) h z = inr refl
IsZero-count (bool true) h z = cc
IsZero-count (int (pos zero)) h z = inl refl
IsZero-count (int (pos (suc n))) h z = absurd (ground arith)
IsZero-count (int (negsuc n)) h z = absurd (ground arith)
IsZero-count null h z = cc
IsZero-count _ h z = cc

ok-false : {b : Bool} → ok b ≡ ok false → b ≡ false
ok-false h = cc

limit-count :
    (v : Value)
    → (count_invalid v >>= λ bad. ok (bad || (false && is_num v (pos 0)))) ≡ ok false
    → count_invalid v ≡ ok false
limit-count v h =
    let (bad, e, last) = >>=-eq-ok (count_invalid v) _ h in
    let (b, _) = or_false bad _ (ok-false last) in rw b at e

-- The rule blocks.
abbrev pub IsBlocking : Fields → String → Type 0
IsBlocking severity rule = is_text (get rule severity) "block" ≡ true

-- The events that no policy may treat as less than a block.
abbrev pub non_negotiable : List String
non_negotiable =
    "network_event" ∷ "write_outside_allowed_prefix" ∷ "docker_socket_access" ∷ "host_home_access"
    ∷ "denied_read_access" ∷ "observer_unavailable" ∷ "strace_log_missing" ∷ "strace_parse_failure"
    ∷ "evidence_missing" ∷ "outside_writable_delete" ∷ []

-- No network, no shell, no secret and no delete is allowed, the observers are required, and each
-- mandatory rule blocks.
pub record IsStrict (policy : Fields) : Type 0 where
  pub shell : get "shell" (mapping (get "binding" policy)) ≡ bool false
  pub network_policy : get "network_policy" (mapping (get "binding" policy)) ≡ str "none"
  pub network :
      get "allowed" (mapping (get "network" (mapping (get "expected_behavior" policy))))
      ≡ bool false
  pub secrets : IsZero (get "max_secret_events" (mapping (get "expected_behavior" policy)))
  pub deletes :
      IsZero (get "max_outside_writable_delete" (mapping (get "expected_behavior" policy)))
  pub severity : All (IsBlocking (mapping (get "severity_rules" policy))) non_negotiable
  pub strace : get "strace_required" (mapping (get "observer_requirements" policy)) ≡ bool true
  pub evidence : get "evidence_required" (mapping (get "observer_requirements" policy)) ≡ bool true
  pub missing :
      get "default_verdict_on_missing_evidence" (mapping (get "observer_requirements" policy))
      ≡ str "block"
  pub paths : get "raw_host_paths_redacted" (mapping (get "redaction" policy)) ≡ bool true
  pub redacted : get "secret_like_values_redacted" (mapping (get "redaction" policy)) ≡ bool true

relaxed-IsBlocking :
    (severity : Fields) (rules : List String)
    → All IsPassed (map (relaxed severity) rules)
    → All (IsBlocking severity) rules
relaxed-IsBlocking severity [] h = tt
relaxed-IsBlocking severity (rule ∷ rules) (p, h) =
    (not-false _ (ok-false p), relaxed-IsBlocking severity rules h)

refused-or : (a b : Bool) → ok (not a || not b) ≡ ok false → (a ≡ true) × (b ≡ true)
refused-or a b h =
    let (p, q) = or_false (not a) (not b) (ok-false h) in (not-false a p, not-false b q)

refused-if :
    (a b : Bool) (rest : Py Bool)
    → (if not a || not b then ok true else rest) ≡ ok false
    → (a ≡ true) × (b ≡ true)
refused-if true true rest h = (refl, refl)
refused-if true false rest h = cc
refused-if false b rest h = cc

denied :
    (b : Fields)
    → All IsPassed (binding_tests b)
    → (get "shell" b ≡ bool false) × (get "network_policy" b ≡ str "none")
unfolding binding_tests
denied b h = let (p, q) = refused-if _ _ _ (h.1.1.1.1.1.1.0) in (is_false-eq _ p, is_text-eq _ _ q)

-- the three limits of the expected behavior that no policy can move
limited :
    (e : Fields)
    → All IsPassed (expected_tests e)
    → (get "allowed" (mapping (get "network" e)) ≡ bool false)
      × IsZero (get "max_secret_events" e)
      × IsZero (get "max_outside_writable_delete" e)
unfolding expected_tests
limited e h =
    let (p, q) = or_false _ _ (ok-false (h.0)) in
    let (s, d) = refused-or _ _ (h.1.1.1.1.1.1.1.1.1.1.1.0) in
    let secrets = limit-count (get "max_secret_events" e) (h.1.1.1.1.1.1.1.1.0) in
    let deletes = limit-count (get "max_outside_writable_delete" e) (h.1.1.1.1.1.1.1.1.1.0) in
    (
      is_false-eq _ (not-false _ q),
      IsZero-count (get "max_secret_events" e) secrets s,
      IsZero-count (get "max_outside_writable_delete" e) deletes d,
    )

required :
    (o : Fields)
    → All IsPassed (observer_tests o)
    → (get "strace_required" o ≡ bool true)
      × (get "evidence_required" o ≡ bool true)
      × (get "default_verdict_on_missing_evidence" o ≡ str "block")
unfolding observer_tests
required o h =
    let (p, q) = or_false _ _ (ok-false (h.0)) in
    let (r, s) = or_false _ _ p in
    let (t, u) = or_false _ _ r in
    (is_true-eq _ (not-false _ t), is_true-eq _ (not-false _ u), is_text-eq _ _ (not-false _ s))

redacted :
    (r : Fields)
    → All IsPassed (redaction_tests r)
    → (get "raw_host_paths_redacted" r ≡ bool true)
      × (get "secret_like_values_redacted" r ≡ bool true)
unfolding redaction_tests
redacted r h = let (p, q) = refused-or _ _ (h.0) in (is_true-eq _ p, is_true-eq _ q)

blocking : (s : Fields) → All IsPassed (severity_tests s) → All (IsBlocking s) non_negotiable
unfolding severity_tests
blocking s h = relaxed-IsBlocking s non_negotiable (h.1)

-- the tests of one part, and those of the parts that follow it
module _ (v : Value) (fields : List String) (tests : Fields → List (Py Bool))
    (rest : List (Py Bool)) where
  here : All IsPassed (part v fields tests ++ rest) → All IsPassed (tests (mapping v))
  here h = (All-left IsPassed (part v fields tests) rest h).1

  after : All IsPassed (part v fields tests ++ rest) → All IsPassed rest
  after h = All-right IsPassed (part v fields tests) rest h

IsStrict-dict :
    (rt : SandboxRuntime) (p : Fields) → All IsPassed (policy_tests rt (dict p)) → IsStrict p
unfolding policy_tests
IsStrict-dict rt p tests =
    let last = part (get "redaction" p) redaction_fields redaction_tests in
    let rest3 = part (get "observer_requirements" p) observer_fields observer_tests ++ last in
    let rest2 = part (get "severity_rules" p) severity_fields severity_tests ++ rest3 in
    let rest1 = part (get "expected_behavior" p) expected_fields expected_tests ++ rest2 in
    let h0 =
      All-right IsPassed (header_tests rt p)
        (part (get "binding" p) binding_fields binding_tests ++ rest1) (tests.1) in
    let h1 = after (get "binding" p) binding_fields binding_tests rest1 h0 in
    let h2 = after (get "expected_behavior" p) expected_fields expected_tests rest2 h1 in
    let h3 = after (get "severity_rules" p) severity_fields severity_tests rest3 h2 in
    let h4 = after (get "observer_requirements" p) observer_fields observer_tests last h3 in
    let (shell, network_policy) =
      denied (mapping (get "binding" p))
        (here (get "binding" p) binding_fields binding_tests rest1 h0) in
    let (network, secrets, deletes) =
      limited (mapping (get "expected_behavior" p))
        (here (get "expected_behavior" p) expected_fields expected_tests rest2 h1) in
    let (strace, evidence, missing) =
      required (mapping (get "observer_requirements" p))
        (here (get "observer_requirements" p) observer_fields observer_tests last h3) in
    let (paths, texts) = redacted (mapping (get "redaction" p)) (h4.1) in
    record {
      shell = shell;
      network_policy = network_policy;
      network = network;
      secrets = secrets;
      deletes = deletes;
      severity =
          blocking (mapping (get "severity_rules" p))
            (here (get "severity_rules" p) severity_fields severity_tests rest3 h2);
      strace = strace;
      evidence = evidence;
      missing = missing;
      paths = paths;
      redacted = texts;
    }

-- A policy that validate_behavior_policy accepts is a dict that IsStrict describes.
pub validate_behavior_policy-IsStrict :
    (rt : SandboxRuntime) (policy : Value)
    → validate_behavior_policy rt policy ≡ ok tt
    → (p : Fields) × (policy ≡ dict p) × IsStrict p
unfolding validate_behavior_policy policy_tests
validate_behavior_policy-IsStrict rt (dict p) valid =
    (p, refl, IsStrict-dict rt p (raise_if-IsPassed (policy_tests rt (dict p)) valid))
validate_behavior_policy-IsStrict rt null valid = cc
validate_behavior_policy-IsStrict rt _ valid = cc
