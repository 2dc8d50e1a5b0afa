-- ===== src/Json/Equality.antt =====
-- Python's `==` on JSON-like values: numbers by value (True == 1 == 1.0), dicts in any order.
pub mod Laws
use repo_health_doctor.Base.{
  ℕ, ◌^◌, String, ◌≡◌, refl, Bool, true, false, ◌&&◌, Option, none, some, List, [], ◌∷◌, ◌==◌, eqb,
  if◌then◌else◌, length, arith, eq_iff, eq_refl,
}
use repo_health_doctor.Base.Int.{scaled_eqb}
use repo_health_doctor.Json.{
  Value, null, bool, int, float, str, list, dict, Items, nil, cons, Fields, end, field, keys,
  is_null, is_text, as_number,
}

abbrev pub find_field : String → Fields → Option Value
find_field k end = none
find_field k (field j v d) = if j == k then some v else find_field k d

pub same_number : Value → Value → Bool
same_number v w = elim (as_number v) [
  | none ↦ false
  | some (m, k) ↦ elim (as_number w) [ none ↦ false | some (n, j) ↦ scaled_eqb m (2 ^ j) n (2 ^ k) ]
]

-- a key that is missing on the right is a difference
abbrev pub matches : (Value → Bool) → Option Value → Bool
matches test none = false
matches test (some w) = test w

unfoldable mutual
  unfolding same_number

  pub equal : Value → Value → Bool
  equal null w = is_null w
  equal (bool b) w = same_number (bool b) w
  equal (int n) w = same_number (int n) w
  equal (float m k) w = same_number (float m k) w
  equal (str s) w = is_text w s
  equal (list vs) (list ws) = equal_items vs ws
  equal (dict d) (dict e) = eqb (length (keys d)) (length (keys e)) && equal_fields d e
  equal _ _ = false

  pub equal_items : Items → Items → Bool
  equal_items nil nil = true
  equal_items (cons v vs) (cons w ws) = equal v w && equal_items vs ws
  equal_items _ _ = false

  pub equal_fields : Fields → Fields → Bool
  equal_fields end e = true
  equal_fields (field k v d) e = matches (equal v) (find_field k e) && equal_fields d e

equal_any_order :
    equal
      (dict (field "a" (bool true) (field "b" null end)))
      (dict (field "b" null (field "a" (float (repo_health_doctor.Base.Int.pos 2) 1) end)))
    ≡ true
unfolding equal
equal_any_order = refl
