-- ===== src/Json/Equality/Laws.antt =====
-- What Python's equality says of strings, of lists of strings, and of the entries of equal dicts.
use repo_health_doctor.Base.{
  String, ◌≡◌, refl, true, false, some, ◌==◌, arith, eq_iff, contains, and_true, Bool-cases, inl,
  inr, Option-cases,
}
use repo_health_doctor.Json.{Value, null, str, Fields, end, field, keys, get}
use repo_health_doctor.Json.Equality.{find_field, matches, equal, equal_fields}

-- Only a string equals a string.
pub equal-str : (v : Value) (s : String) → equal v (str s) ≡ true → v ≡ str s
unfolding equal
equal-str (str t) s h = let e : t ≡ s = (eq_iff t s).0 (rw (flip t s) h) in cc
  where
    flip : (a b : String) → (a == b) ≡ (b == a)
    flip a b = ground (arith, eq_iff a b, eq_iff b a)
equal-str null s h = cc
equal-str _ s h = ground arith

pub str-equal : (v : Value) (s : String) → v ≡ str s → equal v (str s) ≡ true
unfolding equal
str-equal v s e = rw e ((eq_iff s s).1 refl)

pub find-get : (k : String) (d : Fields) (v : Value) → find_field k d ≡ some v → get k d ≡ v
find-get k end v h = cc
find-get k (field j w d) v h = elim (Bool-cases (j == k)) [
  | inl e ↦ rw e (ground arith)
  | inr n ↦ rw n (find-get k d v (rw n at h))
]

-- Equal dicts have equal entries.
pub equal_fields-get :
    (d e : Fields) (k : String)
    → equal_fields d e ≡ true
    → contains (keys d) k ≡ true
    → equal (get k d) (get k e) ≡ true
unfolding equal
equal_fields-get end e k h m = cc
equal_fields-get (field j v d) e k h m =
    let (here, later) = and_true (matches (equal v) (find_field j e)) (equal_fields d e) h in
    elim (Bool-cases (j == k)) [
      | inl same ↦ elim (Option-cases (find_field j e)) [
        | inl missing ↦ absurd (false_true (rw missing at here))
        | inr (w, found) ↦
            rw same (rw (find-get k e w (rw ((eq_iff j k).0 same) at found)) (rw found at here))
      ]
      | inr other ↦ rw other (equal_fields-get d e k later (rest other))
    ]
  where
    false_true : false ≡ true → ⊥
    false_true h = cc

    rest : (j == k) ≡ false → contains (keys d) k ≡ true
    rest n = ground (arith, eq_iff j k, eq_iff k j)
