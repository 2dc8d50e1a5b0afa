-- ===== src/Sandbox/Behavior/Contained.antt =====
-- What evidence must show for a verdict other than "block", whatever the policy.
use repo_health_doctor.Base.{
  not-false, ◌≡◌, ◌≢◌, refl, ap, zero, suc, inl, inr, String, Bool, true, false, not, ◌&&◌, List,
  [], ◌∷◌, ◌++◌, All, All-left, All-right, Memᴰ, contains, contains-mem, arith,
}
use repo_health_doctor.Base.Int.{pos, negsuc}
use repo_health_doctor.Base.Py.{ok}
use repo_health_doctor.Json.{
  Value, null, bool, int, Fields, get, truth, is_bool, mapping, count_invalid,
}
use repo_health_doctor.Sandbox.Guards.{IsPassed}
use repo_health_doctor.Sandbox.Observer.{holding, flags_not_bool}
use repo_health_doctor.Sandbox.Policy.Strict.{IsStrict, IsZero}
use repo_health_doctor.Sandbox.Behavior.Names.{evidence_flags, evidence_counts}
use repo_health_doctor.Sandbox.Behavior.Evidence.{shape_tests, other_tests, counts_invalid}
use repo_health_doctor.Sandbox.Behavior.Recorded.{observations, more_than}
use repo_health_doctor.Sandbox.Behavior.Partition.{strongest, not_blocked}

-- The hooks of the runtime were there, at work and readable.
pub record IsHooked (e : Fields) : Type 0 where
  pub available : get "runtime_hook_available" e ≡ bool true
  pub active : get "runtime_hook_active" e ≡ bool true
  pub parsed : get "runtime_hook_parse_succeeded" e ≡ bool true

-- The observers saw the whole run, and saw none of the events that each policy blocks.
pub record IsContained (hooks : Bool) (e : Fields) : Type 0 where
  pub observed : get "observer_available" e ≡ bool true
  pub hooked : hooks ≡ true → IsHooked e
  pub undegraded : get "observer_degraded" e ≡ bool false
  pub logged : get "strace_log_present" e ≡ bool true
  pub parsed : get "strace_parse_succeeded" e ≡ bool true
  pub parse_errors : IsZero (get "strace_parse_error_count" e)
  pub hook_errors : IsZero (get "runtime_hook_parse_error_count" e)
  pub complete : get "evidence_complete" e ≡ bool true
  pub network : IsZero (get "network_event_count" e)
  pub writes : IsZero (get "write_outside_allowed_prefix_count" e)
  pub sockets : IsZero (get "docker_socket_access_count" e)
  pub home : IsZero (get "host_home_access_count" e)
  pub reads : IsZero (get "denied_read_access_count" e)
  pub deletes : IsZero (get "outside_writable_delete_count" e)

-- Evidence of the form that the evaluator reads.
pub record IsShaped (e : Fields) : Type 0 where
  pub flags : (name : String) → contains evidence_flags name ≡ true → is_bool (get name e) ≡ true
  pub counts :
      (name : String) → contains evidence_counts name ≡ true → count_invalid (get name e) ≡ ok false

ok-false : {b : Bool} → ok b ≡ ok false → b ≡ false
ok-false h = cc

flags-passed :
    (e : Fields) (names : List String) {name : String}
    → All IsPassed (flags_not_bool e names)
    → Memᴰ name names
    → is_bool (get name e) ≡ true
flags-passed e [] h m = elim m [ ]
flags-passed e (n ∷ names) (p, h) (Memᴰ.head q) = rw q (not-false _ (ok-false p))
flags-passed e (n ∷ names) (p, h) (Memᴰ.tail m) = flags-passed e names h m

counts-passed :
    (e : Fields) (names : List String) {name : String}
    → All IsPassed (counts_invalid e names)
    → Memᴰ name names
    → count_invalid (get name e) ≡ ok false
counts-passed e [] h m = elim m [ ]
counts-passed e (n ∷ names) (p, h) (Memᴰ.head q) = rw q p
counts-passed e (n ∷ names) (p, h) (Memᴰ.tail m) = counts-passed e names h m

pub shape_tests-IsShaped : (e : Fields) → All IsPassed (shape_tests e) → IsShaped e
unfolding shape_tests
shape_tests-IsShaped e h =
    let flags = flags_not_bool e evidence_flags in
    let counts = counts_invalid e evidence_counts in
    let h1 = All-right IsPassed flags (counts ++ other_tests e) (h.1) in
    record {
      flags = λ name m.
          flags-passed e evidence_flags (All-left IsPassed flags (counts ++ other_tests e) (h.1))
            (contains-mem name evidence_flags m);
      counts = λ name m.
          counts-passed e evidence_counts (All-left IsPassed counts (other_tests e) h1)
            (contains-mem name evidence_counts m);
    }

-- a flag, from its type and its truth
flag_true : (v : Value) → is_bool v ≡ true → not (truth v) ≡ false → v ≡ bool true
flag_true (bool true) h t = refl
flag_true (bool false) h t = cc
flag_true null h t = cc
flag_true _ h t = cc

pub flag_false : (v : Value) → is_bool v ≡ true → truth v ≡ false → v ≡ bool false
flag_false (bool false) h t = refl
flag_false (bool true) h t = cc
flag_false null h t = cc
flag_false _ h t = cc

count-IsZero : (v : Value) → count_invalid v ≡ ok false → truth v ≡ false → IsZero v
count-IsZero (bool false) h t = inr refl
count-IsZero (bool true) h t = cc
count-IsZero (int (pos zero)) h t = inl refl
count-IsZero (int (pos (suc n))) h t = absurd (ground arith)
count-IsZero (int (negsuc n)) h t = absurd (ground arith)
count-IsZero null h t = cc
count-IsZero _ h t = cc

none_below : (v : Value) → count_invalid v ≡ ok false → more_than v (int (pos 0)) ≡ false → IsZero v
none_below (bool false) h t = inr refl
none_below (bool true) h t = absurd (ground arith)
none_below (int (pos zero)) h t = inl refl
none_below (int (pos (suc n))) h t = absurd (ground arith)
none_below (int (negsuc n)) h t = absurd (ground arith)
none_below null h t = cc
none_below _ h t = cc

pub count_most :
    (v w : Value) → count_invalid v ≡ ok false → IsZero w → more_than v w ≡ false → IsZero v
count_most v w h (inl z) t = none_below v h (rw z at t)
count_most v w h (inr z) t = none_below v h (rw z at t)

needed : (r b : Bool) → r ≡ true → (r && b) ≡ false → b ≡ false
needed r b p h = ground arith

-- The verdict of judge is not "block" only on contained evidence.
pub strongest-IsContained :
    (p e : Fields)
    → IsStrict p
    → IsShaped e
    → strongest (mapping (get "severity_rules" p)) (
        holding (
          observations
            (mapping (get "expected_behavior" p))
            (mapping (get "observer_requirements" p))
            e))
      ≢ "block"
    → IsContained (truth (get "runtime_hook_required" (mapping (get "observer_requirements" p)))) e
unfolding observations
strongest-IsContained p e strict shaped n =
    let observers = mapping (get "observer_requirements" p) in
    let expected = mapping (get "expected_behavior" p) in
    let q = not_blocked (mapping (get "severity_rules" p)) (observations expected observers e) n in
    let b = strict.severity in
    record {
      observed =
          flag_true (get "observer_available" e) (shaped.flags "observer_available" refl)
            (q.0 (b.1.1.1.1.1.0));
      hooked = λ h. record {
        available =
            flag_true (get "runtime_hook_available" e) (shaped.flags "runtime_hook_available" refl)
              (needed _ _ (h) (q.1.0 (b.1.1.1.1.1.0)));
        active =
            flag_true (get "runtime_hook_active" e) (shaped.flags "runtime_hook_active" refl)
              (needed _ _ (h) (q.1.1.0 (b.1.1.1.1.1.0)));
        parsed =
            flag_true (get "runtime_hook_parse_succeeded" e)
              (shaped.flags "runtime_hook_parse_succeeded" refl)
              (needed _ _ (h) (q.1.1.1.0 (b.1.1.1.1.1.0)));
      };
      undegraded =
          flag_false (get "observer_degraded" e) (shaped.flags "observer_degraded" refl)
            (q.1.1.1.1.0 (b.1.1.1.1.1.0));
      logged =
          flag_true (get "strace_log_present" e) (shaped.flags "strace_log_present" refl)
            (needed _ _ (ap truth strict.strace) (q.1.1.1.1.1.0 (b.1.1.1.1.1.1.0)));
      parsed =
          flag_true (get "strace_parse_succeeded" e) (shaped.flags "strace_parse_succeeded" refl)
            (needed _ _ (ap truth strict.strace) (q.1.1.1.1.1.1.0 (b.1.1.1.1.1.1.1.0)));
      parse_errors =
          count-IsZero (get "strace_parse_error_count" e)
            (shaped.counts "strace_parse_error_count" refl) (q.1.1.1.1.1.1.1.0 (b.1.1.1.1.1.1.1.0));
      hook_errors =
          count-IsZero (get "runtime_hook_parse_error_count" e)
            (shaped.counts "runtime_hook_parse_error_count" refl)
            (q.1.1.1.1.1.1.1.1.0 (b.1.1.1.1.1.0));
      complete =
          flag_true (get "evidence_complete" e) (shaped.flags "evidence_complete" refl)
            (needed _ _ (ap truth strict.evidence) (q.1.1.1.1.1.1.1.1.1.0 (b.1.1.1.1.1.1.1.1.0)));
      network =
          count-IsZero (get "network_event_count" e) (shaped.counts "network_event_count" refl)
            (q.1.1.1.1.1.1.1.1.1.1.0 (b.0));
      writes =
          count-IsZero (get "write_outside_allowed_prefix_count" e)
            (shaped.counts "write_outside_allowed_prefix_count" refl)
            (q.1.1.1.1.1.1.1.1.1.1.1.0 (b.1.0));
      sockets =
          count-IsZero (get "docker_socket_access_count" e)
            (shaped.counts "docker_socket_access_count" refl)
            (q.1.1.1.1.1.1.1.1.1.1.1.1.0 (b.1.1.0));
      home =
          count-IsZero (get "host_home_access_count" e)
            (shaped.counts "host_home_access_count" refl)
            (q.1.1.1.1.1.1.1.1.1.1.1.1.1.0 (b.1.1.1.0));
      reads =
          count-IsZero (get "denied_read_access_count" e)
            (shaped.counts "denied_read_access_count" refl)
            (q.1.1.1.1.1.1.1.1.1.1.1.1.1.1.0 (b.1.1.1.1.0));
      deletes =
          count_most (get "outside_writable_delete_count" e)
            (get "max_outside_writable_delete" expected)
            (shaped.counts "outside_writable_delete_count" refl) strict.deletes
            (q.1.1.1.1.1.1.1.1.1.1.1.1.1.1.1.1.0 (b.1.1.1.1.1.1.1.1.1.0));
    }
