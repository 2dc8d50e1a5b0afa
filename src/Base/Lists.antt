-- ===== src/Base/Lists.antt =====
-- Lists: tests, predicates, and the predicate `All`.
use Prim.Native.Nat.{ℕ, suc}
use mathlib.Core.Path.{◌≡◌, refl, sym, ap}
use mathlib.Core.Logic.{inl, inr}
use repo_health_doctor.Base.Tests.{if◌then◌else◌, Bool-cases}
use mathlib.Core.Bool.{Bool, true, false, ◌&&◌, ◌||◌}
use mathlib.Core.List.{List, [], ◌∷◌, ◌++◌, Memᴰ}

module _ {ℓ} {A : Type ℓ} where
  abbrev pub length : List A → ℕ
  length [] = 0
  length (x ∷ xs) = suc (length xs)

  abbrev pub is_empty : List A → Bool
  is_empty [] = true
  is_empty (x ∷ xs) = false

  abbrev pub all : (A → Bool) → List A → Bool
  all p [] = true
  all p (x ∷ xs) = p x && all p xs

  abbrev pub any : (A → Bool) → List A → Bool
  any p [] = false
  any p (x ∷ xs) = p x || any p xs

  pub is_empty→nil : (xs : List A) → is_empty xs ≡ true → xs ≡ []
  is_empty→nil [] h = refl
  is_empty→nil (x ∷ xs) h = cc

  pub append-eq-nil : (xs ys : List A) → xs ++ ys ≡ [] → (xs ≡ []) × (ys ≡ [])
  append-eq-nil [] ys h = (refl, h)
  append-eq-nil (x ∷ xs) ys h = cc

module _ {ℓ κ} {A : Type ℓ} (P : A → Type κ) where
  abbrev pub All : List A → Type κ
  All [] = Unit
  All (x ∷ xs) = P x × All xs

  pub All-append : (xs ys : List A) → All xs → All ys → All (xs ++ ys)
  All-append [] ys h k = k
  All-append (x ∷ xs) ys (p, h) k = (p, All-append xs ys h k)

  pub All-left : (xs ys : List A) → All (xs ++ ys) → All xs
  All-left [] ys h = tt
  All-left (x ∷ xs) ys (p, h) = (p, All-left xs ys h)

  pub All-right : (xs ys : List A) → All (xs ++ ys) → All ys
  All-right [] ys h = h
  All-right (x ∷ xs) ys (p, h) = All-right xs ys h

pub All-mem {ℓ κ} : {A : Type ℓ} (P : A → Type κ) {x : A} (xs : List A) → All P xs → Memᴰ x xs → P x
All-mem P [] h m = elim m [ ]
All-mem P (y ∷ xs) (p, h) (Memᴰ.head e) = rw e p
All-mem P (y ∷ xs) (p, h) (Memᴰ.tail m) = All-mem P xs h m

module _ {ℓ} {A : Type ℓ} where
  pub mem-append_left : {x : A} {xs : List A} (ys : List A) → Memᴰ x xs → Memᴰ x (xs ++ ys)
  mem-append_left ys (Memᴰ.head e) = Memᴰ.head e
  mem-append_left ys (Memᴰ.tail m) = Memᴰ.tail (mem-append_left ys m)

  pub mem-append_right : {x : A} {ys : List A} (xs : List A) → Memᴰ x ys → Memᴰ x (xs ++ ys)
  mem-append_right [] m = m
  mem-append_right (y ∷ xs) m = Memᴰ.tail (mem-append_right xs m)

  pub append_assoc : (xs ys zs : List A) → (xs ++ ys) ++ zs ≡ xs ++ (ys ++ zs)
  append_assoc [] ys zs = refl
  append_assoc (x ∷ xs) ys zs = ap (λ t. x ∷ t) (append_assoc xs ys zs)

  pub append_nil : (xs : List A) → xs ++ [] ≡ xs
  append_nil [] = refl
  append_nil (x ∷ xs) = ap (λ t. x ∷ t) (append_nil xs)

  pub mem-not_nil : {x : A} {xs : List A} → Memᴰ x xs → is_empty xs ≡ false
  mem-not_nil {xs = []} m = elim m [ ]
  mem-not_nil {xs = y ∷ ys} m = refl

  pub not_empty-mem : (xs : List A) → is_empty xs ≡ false → (x : A) × Memᴰ x xs
  not_empty-mem [] h = cc
  not_empty-mem (x ∷ xs) h = (x, Memᴰ.head refl)

module _ {ℓ} {A : Type ℓ} (p : A → Bool) where
  -- `[x for x in xs if p(x)]`
  abbrev pub kept : List A → List A
  kept [] = []
  kept (x ∷ xs) = let rest = kept xs in if p x then x ∷ rest else rest

  pub mem-kept : (x : A) (xs : List A) → Memᴰ x (kept xs) → Memᴰ x xs × (p x ≡ true)
  mem-kept x [] m = elim m [ ]
  mem-kept x (y ∷ ys) m = elim (Bool-cases (p y)) [
    | inl e ↦ split e (rw e at m) (mem-kept x ys)
    | inr e ↦ later (mem-kept x ys (rw e at m))
  ]
    where
      later : Memᴰ x ys × (p x ≡ true) → Memᴰ x (y ∷ ys) × (p x ≡ true)
      later (k, e) = (Memᴰ.tail k, e)

      split :
          p y ≡ true
          → Memᴰ x (y ∷ kept ys)
          → (Memᴰ x (kept ys) → Memᴰ x ys × (p x ≡ true))
          → Memᴰ x (y ∷ ys) × (p x ≡ true)
      split e (Memᴰ.head q) rest = (Memᴰ.head q, rw q e)
      split e (Memᴰ.tail k) rest = later (rest k)

  pub kept-mem : (x : A) (xs : List A) → Memᴰ x xs → p x ≡ true → Memᴰ x (kept xs)
  kept-mem x [] m e = elim m [ ]
  kept-mem x (y ∷ ys) (Memᴰ.head q) e = let r : p y ≡ true = rw (sym q) e in rw r (Memᴰ.head q)
  kept-mem x (y ∷ ys) (Memᴰ.tail m) e = elim (Bool-cases (p y)) [
    | inl r ↦ rw r (Memᴰ.tail (kept-mem x ys m e))
    | inr r ↦ rw r (kept-mem x ys m e)
  ]
