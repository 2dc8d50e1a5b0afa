-- ===== src/Base/Select.antt =====
-- Python's `max(xs, key=f)`: the first of the largest.
use mathlib.Core.Path.{◌≡◌, refl}
use mathlib.Core.Logic.{◌⊎◌, inl, inr}
use mathlib.Core.Bool.{true, false}
use mathlib.Core.List.{List, [], ◌∷◌, Memᴰ}
use native.Mathlib.Omega.{arith}
use repo_health_doctor.Base.Tests.{if◌then◌else◌, Bool-cases}
use repo_health_doctor.Base.Int.{ℤ, ltb_ℤ, ◌≤ℤ◌}

module _ {ℓ} {A : Type ℓ} (key : A → ℤ) where
  -- the first of two, unless the second is larger
  abbrev pub larger : A → A → A
  larger best x = if ltb_ℤ (key best) (key x) then x else best

  -- `best` is the largest so far
  unfoldable pub max_by : A → List A → A
  max_by best [] = best
  max_by best (x ∷ xs) = max_by (larger best x) xs

  le-larger_left : (best x : A) → key best ≤ℤ key (larger best x)
  le-larger_left best x = ground arith

  le-larger_right : (best x : A) → key x ≤ℤ key (larger best x)
  le-larger_right best x = ground arith

  pub le-max_by : (best : A) (xs : List A) → key best ≤ℤ key (max_by best xs)
  unfolding max_by
  le-max_by best [] = omega arith
  le-max_by best (x ∷ xs) = omega (arith, le-larger_left best x, le-max_by (larger best x) xs)

  later-le-max_by : {x : A} (best : A) (xs : List A) → Memᴰ x xs → key x ≤ℤ key (max_by best xs)
  unfolding max_by
  later-le-max_by best [] m = elim m [ ]
  later-le-max_by best (x ∷ xs) (Memᴰ.head e) =
      rw e (omega (arith, le-larger_right best x, le-max_by (larger best x) xs))
  later-le-max_by best (x ∷ xs) (Memᴰ.tail m) = later-le-max_by (larger best x) xs m

  pub mem-le-max_by :
      {x : A} (best : A) (xs : List A) → Memᴰ x (best ∷ xs) → key x ≤ℤ key (max_by best xs)
  mem-le-max_by best xs (Memᴰ.head e) = rw e (le-max_by best xs)
  mem-le-max_by best xs (Memᴰ.tail m) = later-le-max_by best xs m

  pub max_by-mem : (best : A) (xs : List A) → Memᴰ (max_by best xs) (best ∷ xs)
  unfolding max_by
  max_by-mem best [] = Memᴰ.head refl
  max_by-mem best (x ∷ xs) =
      skip (Bool-cases (ltb_ℤ (key best) (key x))) (max_by-mem (larger best x) xs)
    where
      skip :
          {y : A}
          → (ltb_ℤ (key best) (key x) ≡ true) ⊎ (ltb_ℤ (key best) (key x) ≡ false)
          → Memᴰ y (larger best x ∷ xs)
          → Memᴰ y (best ∷ x ∷ xs)
      skip (inl less) (Memᴰ.head e) = Memᴰ.tail (Memᴰ.head (rw less at e))
      skip (inr more) (Memᴰ.head e) = Memᴰ.head (rw more at e)
      skip c (Memᴰ.tail m) = Memᴰ.tail (Memᴰ.tail m)
