-- ===== src/Gate/Evaluator/Signals.antt =====
-- The items of evidence that must stop an execution, and the signals that they raise.
use repo_health_doctor.Base.{
  String, ◌≡◌, inl, inr, refl, sym, ap, Bool, true, false, ◌||◌, List, [], ◌∷◌, Memᴰ, is_empty,
  eq_iff, Bool-cases, if◌then◌else◌, arith, any, has_text, or_left, or_right, mem-contains,
  mem-append_right, mem-append_left,
}
use repo_health_doctor.Json.Runtime.{Runtime, replace}
use repo_health_doctor.Gate.Limitations.{
  Severity, low, medium, high, critical, highest_limitation_severity,
}
use repo_health_doctor.Gate.Evaluator.Markers.{tokens, has_any, blocking_marker}
use repo_health_doctor.Base.Py.{ok}
use repo_health_doctor.Json.{Value, bool, str, dict, Fields, get, is_true, is_text, mapping}
use repo_health_doctor.Evidence.Validation.{EvidenceValidationResult, validate_evidence}
use repo_health_doctor.Gate.Evaluator.{
  Signal, verdicts_of, select, severity_signal, limitation_signal, limitation_signals,
}

abbrev pub retained_fields : List String
retained_fields = "raw_output_retained" ∷ "raw_stdout_retained" ∷ "raw_stderr_retained" ∷ []

-- the texts that no token of an item may hold, in lower case and with underscores
abbrev pub blocking_texts : List String
blocking_texts =
    "raw secret leakage" ∷ "raw host path leak" ∷ "expected commit mismatch" ∷ "approval mismatch"
    ∷ "policy violation that attempted execution without approval"
    ∷ "network allowed during target scan" ∷ "docker socket mount" ∷ "host home mount"
    ∷ "credential mount" ∷ []

-- An item that must stop the execution: it is invalid, claims to authorize an execution, keeps raw
-- output, is not redacted, or asks for it.
pub data Blocking (rt : Runtime) (policy item : Fields) : Type 0 where
  invalid :
      (r : EvidenceValidationResult)
      → validate_evidence (dict item) ≡ ok r
      → r.valid ≡ false
      → Blocking rt policy item
  attempts : get "execution_authorized" item ≡ bool true → Blocking rt policy item
  authorizes :
      get "can_authorize_execution" (mapping (get "effects" item)) ≡ bool true
      → Blocking rt policy item
  retains :
      (name : String)
      → Memᴰ name retained_fields
      → get name (mapping (get "raw_handling" item)) ≡ bool true
      → Blocking rt policy item
  unredacted :
      get "redaction_status" (mapping (get "raw_handling" item)) ≡ str "failed"
      → Blocking rt policy item
  recommended :
      get "recommended_gate_effect" (mapping (get "effects" item)) ≡ str "block"
      → Blocking rt policy item
  leaks :
      (tokens_of : List String) (name : String)
      → tokens rt item ≡ ok tokens_of
      → Memᴰ name ("raw_secret_leak" ∷ "raw_host_path_leak" ∷ [])
      → Memᴰ name tokens_of
      → Blocking rt policy item
  marked :
      (tokens_of : List String) (token marker : String)
      → tokens rt item ≡ ok tokens_of
      → Memᴰ marker blocking_texts
      → Memᴰ token tokens_of
      → has_text (replace b' ' "_" (rt.lower marker)) token ≡ true
      → Blocking rt policy item
  critical_limitation :
      (r : EvidenceValidationResult) (limitation : String)
      → validate_evidence (dict item) ≡ ok r
      → Memᴰ limitation r.limitations
      → highest_limitation_severity rt (limitation ∷ []) policy ≡ critical
      → Blocking rt policy item

pub value_eq {ℓ} : {A : Type ℓ} (a b : A) → ok a ≡ ok b → a ≡ b
value_eq a b h = cc

pub select-mem : {s : Signal} (cs : List (Bool × Signal)) → Memᴰ (true, s) cs → Memᴰ s (select cs)
select-mem [] m = elim m [ ]
select-mem ((test, t) ∷ cs) (Memᴰ.head e) =
    let f : true ≡ test = ap (λ x. x.0) e in rw (sym f) (Memᴰ.head (ap (λ x. x.1) e))
select-mem ((test, t) ∷ cs) (Memᴰ.tail m) = elim (Bool-cases test) [
  | inl e ↦ rw e (Memᴰ.tail (select-mem cs m))
  | inr e ↦ rw e (select-mem cs m)
]

pub verdicts-mem : {s : Signal} (ss : List Signal) → Memᴰ s ss → Memᴰ s.verdict (verdicts_of ss)
verdicts-mem [] m = elim m [ ]
verdicts-mem (t ∷ ss) (Memᴰ.head e) = Memᴰ.head (ap (λ x. x.verdict) e)
verdicts-mem (t ∷ ss) (Memᴰ.tail m) = Memᴰ.tail (verdicts-mem ss m)

pub here :
    {b : Bool} (s : Signal) (cs : List (Bool × Signal)) → b ≡ true → Memᴰ (true, s) ((b, s) ∷ cs)
here s cs e = Memᴰ.head (ap (λ x. (x, s)) (sym e))

pub text-is : (v : Value) (t : String) → v ≡ str t → is_text v t ≡ true
text-is v t e = rw e ((eq_iff t t).1 refl)

pub retained-true :
    (r : Fields) (name : String)
    → Memᴰ name retained_fields
    → get name r ≡ bool true
    → (is_true (get "raw_output_retained" r)
        || is_true (get "raw_stdout_retained" r)
        || is_true (get "raw_stderr_retained" r))
      ≡ true
retained-true r name (Memᴰ.head e) h =
    let k = rw e at h in
    let j : is_true (get "raw_output_retained" r) ≡ true = rw k refl in ground arith
retained-true r name (Memᴰ.tail (Memᴰ.head e)) h =
    let k = rw e at h in
    let j : is_true (get "raw_stdout_retained" r) ≡ true = rw k refl in ground arith
retained-true r name (Memᴰ.tail (Memᴰ.tail (Memᴰ.head e))) h =
    let k = rw e at h in
    let j : is_true (get "raw_stderr_retained" r) ≡ true = rw k refl in ground arith
retained-true r name (Memᴰ.tail (Memᴰ.tail (Memᴰ.tail m))) h = elim m [ ]

pub mem-or_default :
    {c : String} (xs ys : List String) → Memᴰ c xs → Memᴰ c (if is_empty xs then ys else xs)
mem-or_default [] ys m = elim m [ ]
mem-or_default (x ∷ xs) ys m = m

any-true :
    (test : String → Bool) (xs : List String) {x : String}
    → Memᴰ x xs
    → test x ≡ true
    → any test xs ≡ true
any-true test [] m e = elim m [ ]
any-true test (y ∷ ys) (Memᴰ.head q) e = let k : test y ≡ true = rw q at e in or_left (test y) _ k
any-true test (y ∷ ys) (Memᴰ.tail m) e = or_right (test y) _ (any-true test ys m e)

pub marked-true :
    (rt : Runtime) (ts : List String) {token marker : String}
    → Memᴰ marker blocking_texts
    → Memᴰ token ts
    → has_text (replace b' ' "_" (rt.lower marker)) token ≡ true
    → blocking_marker rt ts ≡ true
unfolding blocking_marker has_any
marked-true rt ts {marker = marker} m n e = or_left _ _ (
    or_left _ _ (
      any-true (λ marker. any (has_text (replace b' ' "_" (rt.lower marker))) ts) blocking_texts m
        (any-true (has_text (replace b' ' "_" (rt.lower marker))) ts n e)))

pub leaks-true :
    (rt : Runtime) (ts : List String) (name : String)
    → Memᴰ name ("raw_secret_leak" ∷ "raw_host_path_leak" ∷ [])
    → Memᴰ name ts
    → blocking_marker rt ts ≡ true
unfolding blocking_marker
leaks-true rt ts name (Memᴰ.head e) m =
    or_left _ _ (or_right _ _ (mem-contains "raw_secret_leak" ts (rw e at m)))
leaks-true rt ts name (Memᴰ.tail (Memᴰ.head e)) m =
    or_right _ _ (mem-contains "raw_host_path_leak" ts (rw e at m))
leaks-true rt ts name (Memᴰ.tail (Memᴰ.tail m)) n = elim m [ ]

severity_signal-critical :
    (id limitation : String) (severity : Severity)
    → severity ≡ critical
    → (s : Signal) × Memᴰ s (severity_signal id limitation severity) × (s.verdict ≡ "block")
severity_signal-critical id limitation critical h = (_, Memᴰ.head refl, refl)
severity_signal-critical id limitation high h = absurd (cc)
severity_signal-critical id limitation medium h = absurd (cc)
severity_signal-critical id limitation low h = absurd (cc)

-- A critical limitation is among the signals, with the verdict "block".
pub critical-mem :
    (rt : Runtime) (policy : Fields) (id : String) (ls : List String) {l : String}
    → Memᴰ l ls
    → highest_limitation_severity rt (l ∷ []) policy ≡ critical
    → (s : Signal) × Memᴰ s (limitation_signals rt policy id ls) × (s.verdict ≡ "block")
unfolding limitation_signals limitation_signal
critical-mem rt policy id [] m e = elim m [ ]
critical-mem rt policy id (k ∷ ls) (Memᴰ.head q) e =
    let (s, n, b) = severity_signal-critical id k _ (rw q at e) in
    (s, mem-append_left (limitation_signals rt policy id ls) n, b)
critical-mem rt policy id (k ∷ ls) (Memᴰ.tail m) e =
    let (s, n, b) = critical-mem rt policy id ls m e in
    (s, mem-append_right (limitation_signal rt policy id k) n, b)
