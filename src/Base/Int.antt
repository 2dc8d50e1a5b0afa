-- ===== src/Base/Int.antt =====
-- Signed integers over the native numbers, under the library's names (its ℤ stands on the unary ℕ).
use Prim.Native.Nat.{ℕ, suc, ◌+◌, ◌-◌, ◌*◌, ◌≤◌}
use mathlib.Core.Bool.{Bool}
use repo_health_doctor.Base.Tests.{if◌then◌else◌, ltb, eqb}

-- `negsuc n` is -(n + 1).
pub data ℤ : Type 0 where
  pos : ℕ → ℤ
  negsuc : ℕ → ℤ

abbrev pub pos_part : ℤ → ℕ
pos_part (pos n) = n
pos_part (negsuc n) = 0

abbrev pub neg_part : ℤ → ℕ
neg_part (pos n) = 0
neg_part (negsuc n) = suc n

-- a * k < b * j and a * k = b * j, for scales k and j.
abbrev pub scaled_ltb : ℤ → ℕ → ℤ → ℕ → Bool
scaled_ltb a k b j = ltb (pos_part a * k + neg_part b * j) (pos_part b * j + neg_part a * k)

abbrev pub scaled_eqb : ℤ → ℕ → ℤ → ℕ → Bool
scaled_eqb a k b j = eqb (pos_part a * k + neg_part b * j) (pos_part b * j + neg_part a * k)

abbrev pub ltb_ℤ : ℤ → ℤ → Bool
ltb_ℤ a b = ltb (pos_part a + neg_part b) (pos_part b + neg_part a)

infix 50 ◌≤ℤ◌
abbrev pub ◌≤ℤ◌ : ℤ → ℤ → Type 0
a ≤ℤ b = pos_part a + neg_part b ≤ pos_part b + neg_part a

abbrev difference : ℕ → ℕ → ℤ
difference a b = if ltb a b then negsuc (b - (a + 1)) else pos (a - b)

infixl 60 ◌+ℤ◌
abbrev pub ◌+ℤ◌ : ℤ → ℤ → ℤ
x +ℤ y = difference (pos_part x + pos_part y) (neg_part x + neg_part y)
