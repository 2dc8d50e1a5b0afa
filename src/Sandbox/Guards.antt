-- ===== src/Sandbox/Guards.antt =====
-- `if test: raise ValueError(...)`, one after the other, as the validators of sandbox/ are written.
use repo_health_doctor.Base.{
  ◌≡◌, refl, Bool, true, false, not, List, [], ◌∷◌, if◌then◌else◌, String, same_set, not-false, All,
  all,
}
use repo_health_doctor.Base.Py.{Py, ok, raise, value_error}
use repo_health_doctor.Json.{Value, null, str, list, dict, Fields, cons, keys, items}

-- The tests in order: the first that holds raises ValueError. The message of the error is left out.
abbrev pub raise_if : List (Py Bool) → Py {0} Unit
raise_if [] = ok tt
raise_if (ok b ∷ tests) = let rest = raise_if tests in if b then raise value_error else rest
raise_if (raise e ∷ tests) = raise e

-- A test that does not hold.
abbrev pub IsPassed : Py Bool → Type 0
IsPassed test = test ≡ ok false

-- `not isinstance(value, Mapping) or set(value) != expected`
abbrev pub not_exactly : Value → List String → Bool
not_exactly (dict d) expected = not (same_set (keys d) expected)
not_exactly _ expected = true

-- `isinstance(v, str) and test(v)`
abbrev pub text_that : (String → Bool) → Value → Bool
text_that test (str s) = test s
text_that test _ = false

-- `isinstance(v, list) and all(test(item) for item in v)`
abbrev pub list_of : (Value → Bool) → Value → Bool
list_of test (list vs) = all test (items vs)
list_of test _ = false

-- `isinstance(v, list) and bool(v)`
abbrev pub non_empty_list : Value → Bool
non_empty_list (list (cons v vs)) = true
non_empty_list _ = false

pub raise_if-IsPassed : (tests : List (Py Bool)) → raise_if tests ≡ ok tt → All IsPassed tests
raise_if-IsPassed [] h = tt
raise_if-IsPassed (ok false ∷ tests) h = (refl, raise_if-IsPassed tests h)
raise_if-IsPassed (ok true ∷ tests) h = cc
raise_if-IsPassed (raise e ∷ tests) h = cc

pub IsPassed-raise_if : (tests : List (Py Bool)) → All IsPassed tests → raise_if tests ≡ ok tt
IsPassed-raise_if [] h = refl
IsPassed-raise_if (ok false ∷ tests) (p, h) = IsPassed-raise_if tests h
IsPassed-raise_if (ok true ∷ tests) (p, h) = cc
IsPassed-raise_if (raise e ∷ tests) (p, h) = cc

pub not_exactly-dict :
    (v : Value) (expected : List String)
    → not_exactly v expected ≡ false
    → (d : Fields) × (v ≡ dict d) × (same_set (keys d) expected ≡ true)
not_exactly-dict (dict d) expected h = (d, refl, not-false _ h)
not_exactly-dict null expected h = cc
not_exactly-dict _ expected h = cc
