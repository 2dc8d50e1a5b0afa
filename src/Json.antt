-- ===== src/Json.antt =====
-- The JSON-like values that the validators take (`Any`, `Mapping[str, Any]`), and what Python does
-- with them: `dict.get`, `isinstance`, truth, comparison and set membership. A dict is an
-- association list with unique keys, in insertion order; a float is a finite double m / 2^k.
pub mod Equality
pub mod Fingerprint
pub mod RawPath
pub mod Checks
pub mod Runtime
use repo_health_doctor.Base.{
  ℕ, zero, suc, ◌+◌, ◌^◌, String, ◌≡◌, refl, Bool, true, false, not, ◌&&◌, ◌||◌, Option, none, some,
  List, [], ◌∷◌, ◌==◌, arith, eqb, if◌then◌else◌, contains, same_set, is_empty, format, eq_iff,
}
use repo_health_doctor.Base.Int.{ℤ, pos, scaled_eqb, scaled_ltb}
use repo_health_doctor.Base.Py.{Py, ok, raise, type_error, ◌>>=◌, Check, flag, collect}

mutual
  pub data Value : Type 0 where
    null : Value
    bool : Bool → Value
    int : ℤ → Value
    float : ℤ → ℕ → Value
    str : String → Value
    list : Items → Value
    dict : Fields → Value

  pub data Fields : Type 0 where
    end : Fields
    field : String → Value → Fields → Fields

  pub data Items : Type 0 where
    nil : Items
    cons : Value → Items → Items

abbrev pub items : Items → List Value
items nil = []
items (cons v vs) = v ∷ items vs

abbrev pub keys : Fields → List String
keys end = []
keys (field k v d) = k ∷ keys d

-- `d.get(k, default)`
abbrev pub get_or : Value → String → Fields → Value
get_or default k end = default
get_or default k (field j v d) = if j == k then v else get_or default k d

-- `d.get(k)`: null stands for `None`
abbrev pub get : String → Fields → Value
get k d = get_or null k d

-- `k in d`
abbrev pub has_key : String → Fields → Bool
has_key k d = contains (keys d) k

-- `isinstance(v, Mapping)`, `isinstance(v, list)`, with the value that passes the test
abbrev pub as_dict : Value → Option Fields
as_dict (dict d) = some d
as_dict _ = none

abbrev pub as_list : Value → Option (List Value)
as_list (list vs) = some (items vs)
as_list _ = none

abbrev pub as_str : Value → Option String
as_str (str s) = some s
as_str _ = none

abbrev pub is_dict : Value → Bool
is_dict (dict d) = true
is_dict _ = false

abbrev pub is_list : Value → Bool
is_list (list vs) = true
is_list _ = false

abbrev pub is_str : Value → Bool
is_str (str s) = true
is_str _ = false

abbrev pub is_bool : Value → Bool
is_bool (bool b) = true
is_bool _ = false

-- `isinstance(v, int)`: a bool is an int
abbrev pub is_int : Value → Bool
is_int (int n) = true
is_int (bool b) = true
is_int _ = false

-- `v is None`, `v is True`, `v is False`
abbrev pub is_null : Value → Bool
is_null null = true
is_null _ = false

abbrev pub is_true : Value → Bool
is_true (bool true) = true
is_true _ = false

abbrev pub is_false : Value → Bool
is_false (bool false) = true
is_false _ = false

-- `v == "text"`
abbrev pub is_text : Value → String → Bool
is_text (str s) t = s == t
is_text _ t = false

-- `bool(v)`
abbrev pub truth : Value → Bool
truth null = false
truth (bool b) = b
truth (int n) = not (scaled_eqb n 1 (pos 0) 1)
truth (float m k) = not (scaled_eqb m 1 (pos 0) 1)
truth (str s) = not (s == "")
truth (list nil) = false
truth (list (cons v vs)) = true
truth (dict end) = false
truth (dict (field k v d)) = true

-- The number that a bool, an int or a float is, as a numerator over a power of two.
abbrev pub as_number : Value → Option (ℤ × ℕ)
as_number (bool true) = some (pos 1, 0)
as_number (bool false) = some (pos 0, 0)
as_number (int n) = some (n, 0)
as_number (float m k) = some (m, k)
as_number _ = none

-- `v < n` for a number n; what is no number raises
abbrev pub lt_num : Value → ℤ → Py Bool
lt_num v n = elim (as_number v) [
  | none ↦ raise type_error
  | some (m, k) ↦ ok (scaled_ltb m 1 n (2 ^ k))
]

-- `v <= n`
abbrev pub le_num : Value → ℤ → Py Bool
le_num v n = elim (as_number v) [
  | none ↦ raise type_error
  | some (m, k) ↦ ok (not (scaled_ltb n (2 ^ k) m 1))
]

-- `v == n`
abbrev pub is_num : Value → ℤ → Bool
is_num v n = elim (as_number v) [ none ↦ false | some (m, k) ↦ scaled_eqb m 1 n (2 ^ k) ]

-- `v in {"a", ...}`: a list or a dict is not hashable, and raises
abbrev pub member : List String → Value → Py Bool
member set (str s) = ok (contains set s)
member set (list vs) = raise type_error
member set (dict d) = raise type_error
member set _ = ok false

-- `_string_items`: the strings of a list
abbrev pub strings : List Value → List String
strings [] = []
strings (str s ∷ vs) = s ∷ strings vs
strings (_ ∷ vs) = strings vs

abbrev pub string_items : Value → List String
string_items (list vs) = strings (items vs)
string_items _ = []

-- `isinstance(v, str) and bool(v)`
abbrev pub non_empty_string : Value → Bool
non_empty_string (str s) = not (s == "")
non_empty_string _ = false

-- `_mapping(value)` of the gate modules: the dict, or an empty one
abbrev pub mapping : Value → Fields
mapping (dict d) = d
mapping _ = end

-- The report of `_mapping(value, fields, name, errors)`.
abbrev pub closed_dict : Value → List String → String → Check
closed_dict (dict d) fields name =
    flag (not (same_set (keys d) fields)) (format (name ∷ "_required_or_unknown_field" ∷ []))
closed_dict _ fields name = ok (format (name ∷ "_must_be_object" ∷ []) ∷ [])

-- Checks on a value that is a dict; none where it is not.
abbrev pub on_dict : Value → (Fields → List Check) → Check
on_dict (dict d) checks = collect (checks d)
on_dict _ checks = ok []

pub is_true-eq : (v : Value) → is_true v ≡ true → v ≡ bool true
is_true-eq (bool true) h = refl
is_true-eq _ h = cc

pub is_false-eq : (v : Value) → is_false v ≡ true → v ≡ bool false
is_false-eq (bool false) h = refl
is_false-eq _ h = cc

pub is_text-eq : (v : Value) (t : String) → is_text v t ≡ true → v ≡ str t
is_text-eq (str s) t h = ap-str ((eq_iff s t).0 h)
  where
    ap-str : s ≡ t → str s ≡ str t
    ap-str e = cc
is_text-eq null t h = cc
is_text-eq (bool b) t h = cc
is_text-eq (int n) t h = cc
is_text-eq (float m k) t h = cc
is_text-eq (list vs) t h = cc
is_text-eq (dict d) t h = cc

-- `v not in {"a", ...}`
abbrev pub not_member : List String → Value → Py Bool
not_member set v = member set v >>= λ b. ok (not b)

-- `_require_strings(data, fields, errors, prefix)`
abbrev pub require_strings : Fields → List String → String → List Check
require_strings d [] prefix = []
require_strings d (name ∷ names) prefix =
    flag (not (non_empty_string (get name d))) (format (prefix ∷ "_" ∷ name ∷ "_required" ∷ []))
    ∷ require_strings d names prefix

-- `not isinstance(count, int) or count < 0`
abbrev pub count_invalid : Value → Py Bool
count_invalid n = if is_int n then lt_num n (pos 0) else ok true
