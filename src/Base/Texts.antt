-- ===== src/Base/Texts.antt =====
-- Texts: Python's `in` on strings, sets of strings as lists, and `dict.fromkeys`.
use Prim.Native.String
use Prim.Native.String.{String}
use mathlib.Core.Path.{◌≡◌, refl, ◌∙◌}
use mathlib.Core.Logic.{◌≢◌, inl, inr}
use mathlib.Core.Bool.{Bool, true, false, ◌&&◌, ◌||◌}
use mathlib.Core.Option.{none, some}
use mathlib.Core.List.{List, [], ◌∷◌, Memᴰ}
use native.Mathlib.Omega.{arith}
use text.Mathlib.Text.{◌==◌, find?}
use text.Mathlib.TextEquality.{eq_iff}
use repo_health_doctor.Base.Tests.{if◌then◌else◌, Bool-cases}
use repo_health_doctor.Base.Lists.{all}

-- An f-string: its pieces in order.
abbrev pub format : List String → String
format [] = ""
format (s ∷ ss) = String.◌++◌ s (format ss)

-- `needle in text`
abbrev pub has_text : String → String → Bool
has_text needle text = elim (find? text needle) [ none ↦ false | some _ ↦ true ]

-- `x in xs`, for a list or a set of strings
abbrev pub contains : List String → String → Bool
contains [] x = false
contains (y ∷ ys) x = x == y || contains ys x

-- `xs.issubset(ys)`, and the equality of two sets
abbrev pub subset : List String → List String → Bool
subset xs ys = all (contains ys) xs

abbrev pub same_set : List String → List String → Bool
same_set xs ys = subset xs ys && subset ys xs

-- the members of `xs` that are not `x`
abbrev pub without : String → List String → List String
without x [] = []
without x (y ∷ ys) = let rest = without x ys in if y == x then rest else y ∷ rest

-- `dict.fromkeys(xs)`: the first occurrence of each string, in order
abbrev pub dedupe : List String → List String
dedupe [] = []
dedupe (x ∷ xs) = x ∷ without x (dedupe xs)

pub dedupe-eq-nil : (xs : List String) → dedupe xs ≡ [] → xs ≡ []
dedupe-eq-nil [] h = refl
dedupe-eq-nil (x ∷ xs) h = cc

pub mem-contains : (x : String) (xs : List String) → Memᴰ x xs → contains xs x ≡ true
mem-contains x [] m = elim m [ ]
mem-contains x (y ∷ ys) (Memᴰ.head e) = ground (arith, eq_iff x y)
mem-contains x (y ∷ ys) (Memᴰ.tail m) = ground (arith, mem-contains x ys m, eq_iff x y)

pub contains-mem : (x : String) (xs : List String) → contains xs x ≡ true → Memᴰ x xs
contains-mem x [] h = cc
contains-mem x (y ∷ ys) h = elim (Bool-cases (x == y)) [
  | inl e ↦ Memᴰ.head ((eq_iff x y).0 e)
  | inr n ↦ Memᴰ.tail (contains-mem x ys (rw n at h))
]

mem-without :
    {x : String} (y : String) (xs : List String) → Memᴰ x xs → x ≢ y → Memᴰ x (without y xs)
mem-without y [] m n = elim m [ ]
mem-without y (z ∷ zs) (Memᴰ.head e) n = elim (Bool-cases (z == y)) [
  | inl q ↦ absurd (n (e ∙ (eq_iff z y).0 q))
  | inr q ↦ rw q (Memᴰ.head e)
]
mem-without y (z ∷ zs) (Memᴰ.tail m) n = elim (Bool-cases (z == y)) [
  | inl q ↦ rw q (mem-without y zs m n)
  | inr q ↦ rw q (Memᴰ.tail (mem-without y zs m n))
]

pub mem-dedupe : {x : String} (xs : List String) → Memᴰ x xs → Memᴰ x (dedupe xs)
mem-dedupe [] m = elim m [ ]
mem-dedupe (y ∷ ys) (Memᴰ.head e) = Memᴰ.head e
mem-dedupe {x = x} (y ∷ ys) (Memᴰ.tail m) = elim (Bool-cases (x == y)) [
  | inl q ↦ Memᴰ.head ((eq_iff x y).0 q)
  | inr q ↦ Memᴰ.tail (mem-without y _ (mem-dedupe ys m) (λ e. ground (arith, eq_iff x y)))
]
