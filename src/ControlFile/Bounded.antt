-- ===== src/ControlFile/Bounded.antt =====
-- The loop of _bounded_read ends, keeps its bound, and gives the whole file.
use repo_health_doctor.Base.{
  ℕ, zero, suc, ◌+◌, ◌-◌, ◌≤◌, ◌<◌, true, false, ◌≡◌, ◌≢◌, ◌↔◌, refl, ap, sym, ◌∙◌, Option, none,
  some, List, [], ◌∷◌, ◌++◌, length, ltb, arith, inl, inr, Bool-cases, append_assoc, append_nil,
}
use repo_health_doctor.Base.Int.{ℤ, pos, negsuc, ◌+ℤ◌}
use repo_health_doctor.ControlFile.Loop.{
  Reading, content, too_much, read_failed, out_of_fuel, asked, limited, add_chunk, read_loop,
  bounded_read,
}

-- os.read of a descriptor: what is left begins with the chunk, which is no longer than asked, and is
-- empty only at the end of the file.
pub record IsReading (read : List ℕ → ℤ → Option (List ℕ × List ℕ)) (left : List ℕ) (n : ℕ)
    : Type 0 where
  pub chunk : List ℕ
  pub rest : List ℕ
  pub answer : read left (pos n) ≡ some (chunk, rest)
  pub parts : chunk ++ rest ≡ left
  pub short : length chunk ≤ n
  pub ended : chunk ≡ [] → left ≡ []

-- A read of a negative length raises OSError, as os.read does.
abbrev pub RefusesNegative : (List ℕ → ℤ → Option (List ℕ × List ℕ)) → Type 0
RefusesNegative read = (l : List ℕ) (n : ℕ) → read l (negsuc n) ≡ none

length-append : (xs ys : List ℕ) → length (xs ++ ys) ≡ length xs + length ys
length-append [] ys = omega arith
length-append (x ∷ xs) ys = omega (arith, length-append xs ys)

-- the length asked for is positive, and at most what remains
asked-pos : (r : ℕ) → (n : ℕ) × (asked (pos (suc r)) ≡ pos n) × (1 ≤ n) × (n ≤ suc r)
asked-pos r = elim (Bool-cases (ltb (suc r + 0) (8192 + 0))) [
  | inl e ↦ (suc r, rw e refl, omega arith, omega arith)
  | inr e ↦ (8192, rw e refl, omega arith, ground (arith, e))
]

asked-negsuc : (n : ℕ) → asked (negsuc n) ≡ negsuc n
asked-negsuc n = let e : ltb 0 (8192 + suc n) ≡ true = ground arith in rw e refl

-- What remains after a chunk of k + 1 bytes, where so many were left.
remaining-within : (r k : ℕ) → k ≤ r → pos (suc r) +ℤ negsuc k ≡ pos (r - k)
remaining-within r k h =
    let e : ltb (suc r + 0) (0 + suc k) ≡ false = ground arith in rw e (ap pos (omega arith))

-- and after a longer one
remaining-beyond : (r k : ℕ) → r < k → (n : ℕ) × (pos (suc r) +ℤ negsuc k ≡ negsuc n)
remaining-beyond r k h =
    let e : ltb (suc r + 0) (0 + suc k) ≡ true = ground arith in
    ((0 + suc k) - ((suc r + 0) + 1), rw e refl)

limited-answers : (max_bytes : ℕ) (bytes : List ℕ) → limited max_bytes bytes ≢ out_of_fuel
limited-answers max_bytes bytes h = elim (Bool-cases (ltb max_bytes (length bytes))) [
  | inl e ↦ absurd (no (rw e at h))
  | inr e ↦ absurd (no_content (rw e at h))
]
  where
    no : too_much ≢ out_of_fuel
    no h = cc

    no_content : content bytes ≢ out_of_fuel
    no_content h = cc

limited-content :
    (max_bytes : ℕ) (bytes result : List ℕ)
    → limited max_bytes bytes ≡ content result
    → length result ≤ max_bytes
limited-content max_bytes bytes result h = elim (Bool-cases (ltb max_bytes (length bytes))) [
  | inl e ↦ absurd (no (rw e at h))
  | inr e ↦ same (rw e at h) (ground (arith, e))
]
  where
    no : too_much ≢ content result
    no h = cc

    same : content bytes ≡ content result → length bytes ≤ max_bytes → length result ≤ max_bytes
    same h small = let q : bytes ≡ result = cc in rw q at small

module _ (read : List ℕ → ℤ → Option (List ℕ × List ℕ)) (max_bytes : ℕ) where
  refused-answers :
      RefusesNegative read
      → (fuel n : ℕ) (left bytes : List ℕ)
      → read_loop read max_bytes (suc fuel) (negsuc n) left bytes ≢ out_of_fuel
  unfolding read_loop
  refused-answers refuses fuel n left bytes h =
      let q : read left (asked (negsuc n)) ≡ none = rw (asked-negsuc n) (refuses left n) in
      failed (rw q at h)
    where
      failed : read_failed ≢ out_of_fuel
      failed h = cc

  read_loop-answers :
      RefusesNegative read
      → (fuel remaining : ℕ) (left bytes : List ℕ) → remaining < fuel
      → read_loop read max_bytes fuel (pos remaining) left bytes ≢ out_of_fuel
  unfolding read_loop
  read_loop-answers refuses zero remaining left bytes r = absurd (omega arith)
  read_loop-answers refuses (suc fuel) zero left bytes r = limited-answers max_bytes bytes
  read_loop-answers refuses (suc zero) (suc remaining) left bytes r = absurd (omega arith)
  read_loop-answers refuses (suc (suc fuel)) (suc remaining) left bytes r =
      step (read left (asked (pos (suc remaining))))
        (λ n l b small. read_loop-answers refuses (suc fuel) n l b small)
    where
      step :
          (answer : Option (List ℕ × List ℕ))
          → ((n : ℕ) (l b : List ℕ)
              → n < suc fuel
              → read_loop read max_bytes (suc fuel) (pos n) l b ≢ out_of_fuel)
          → add_chunk read max_bytes
              (λ n l b. read_loop read max_bytes (suc fuel) n l b)
              (pos (suc remaining))
              bytes
              answer
            ≢ out_of_fuel
      step none again = λ h. cc
      step (some ([], l)) again = limited-answers max_bytes bytes
      step (some (b ∷ chunk, l)) again = elim (Bool-cases (ltb remaining (length chunk))) [
        | inl e ↦
            let (n, q) = remaining-beyond remaining (length chunk) (ground (arith, e)) in
            rw q (refused-answers refuses fuel n l (bytes ++ (b ∷ chunk)))
        | inr e ↦
            rw (remaining-within remaining (length chunk) (ground (arith, e)))
              (again (remaining - length chunk) l (bytes ++ (b ∷ chunk)) (omega arith))
      ]

  chunk-content :
      (remaining : ℤ) (again : ℤ → List ℕ → List ℕ → Reading) (bytes result : List ℕ)
      (answer : Option (List ℕ × List ℕ))
      → ((n : ℤ) (l b : List ℕ) → again n l b ≡ content result → length result ≤ max_bytes)
      → add_chunk read max_bytes again remaining bytes answer ≡ content result
      → length result ≤ max_bytes
  chunk-content remaining again bytes result none next k = cc
  chunk-content remaining again bytes result (some ([], l)) next k =
      limited-content max_bytes bytes result k
  chunk-content remaining again bytes result (some (b ∷ chunk, l)) next k = next _ l _ k

  read_loop-content :
      (fuel : ℕ) (remaining : ℤ) (left bytes result : List ℕ)
      → read_loop read max_bytes fuel remaining left bytes ≡ content result
      → length result ≤ max_bytes
  unfolding read_loop
  read_loop-content zero remaining left bytes result h = cc
  read_loop-content (suc fuel) (pos zero) left bytes result h =
      limited-content max_bytes bytes result h
  read_loop-content (suc fuel) (pos (suc n)) left bytes result h =
      chunk-content (pos (suc n)) (λ n l b. read_loop read max_bytes fuel n l b) bytes result
        (read left (asked (pos (suc n)))) (λ n l b k. read_loop-content fuel n l b result k) h
  read_loop-content (suc fuel) (negsuc n) left bytes result h =
      chunk-content (negsuc n) (λ n l b. read_loop read max_bytes fuel n l b) bytes result
        (read left (asked (negsuc n))) (λ n l b k. read_loop-content fuel n l b result k) h

  -- _bounded_read ends, whatever `read_descriptor` answers to a length that is not negative: the fuel is
  -- enough.
  pub bounded_read-answers :
      RefusesNegative read → (left : List ℕ) → bounded_read read max_bytes left ≢ out_of_fuel
  unfolding bounded_read
  bounded_read-answers refuses left =
      read_loop-answers refuses (max_bytes + 2) (max_bytes + 1) left [] (omega arith)

  -- the bound holds whatever `read_descriptor` answers
  pub bounded_read-content :
      (left result : List ℕ)
      → bounded_read read max_bytes left ≡ content result
      → length result ≤ max_bytes
  unfolding bounded_read
  bounded_read-content left result h =
      read_loop-content (max_bytes + 2) (pos (max_bytes + 1)) left [] result h

limited-over :
    (max_bytes : ℕ) (bytes : List ℕ) → max_bytes < length bytes → limited max_bytes bytes ≡ too_much
limited-over max_bytes bytes h = ground arith

limited-within :
    (max_bytes : ℕ) (bytes : List ℕ)
    → length bytes ≤ max_bytes
    → limited max_bytes bytes ≡ content bytes
limited-within max_bytes bytes h = ground arith

module _ (read : List ℕ → ℤ → Option (List ℕ × List ℕ)) (max_bytes : ℕ)
    (reads : (l : List ℕ) (n : ℕ) → 1 ≤ n → IsReading read l n) where
  read_loop-whole :
      (fuel remaining : ℕ) (left bytes : List ℕ)
      → remaining < fuel
      → length bytes + remaining ≡ max_bytes + 1
      → read_loop read max_bytes fuel (pos remaining) left bytes ≡ limited max_bytes (bytes ++ left)
  unfolding read_loop
  read_loop-whole zero remaining left bytes r room = absurd (omega arith)
  read_loop-whole (suc fuel) zero left bytes r room =
      limited-over max_bytes bytes (omega arith)
      ∙ sym (limited-over max_bytes (bytes ++ left) (omega (arith, length-append bytes left)))
  read_loop-whole (suc fuel) (suc remaining) left bytes r room =
      let (n, q, positive, small) = asked-pos remaining in
      let answered = reads left n positive in
      ap (λ k. add_chunk read max_bytes again (pos (suc remaining)) bytes (read left k)) q
      ∙ ap (add_chunk read max_bytes again (pos (suc remaining)) bytes) answered.answer
      ∙ step answered.chunk answered.rest answered.parts (omega (arith, answered.short, small))
          answered.ended (λ n l b small fits. read_loop-whole fuel n l b small fits)
    where
      again : ℤ → List ℕ → List ℕ → Reading
      again = λ n l b. read_loop read max_bytes fuel n l b

      step :
          (chunk rest : List ℕ)
          → chunk ++ rest ≡ left
          → length chunk ≤ suc remaining
          → (chunk ≡ [] → left ≡ [])
          → ((n : ℕ) (l b : List ℕ)
              → n < fuel
              → length b + n ≡ max_bytes + 1
              → read_loop read max_bytes fuel (pos n) l b ≡ limited max_bytes (b ++ l))
          → add_chunk read max_bytes
              (λ n l b. read_loop read max_bytes fuel n l b)
              (pos (suc remaining))
              bytes
              (some (chunk, rest))
            ≡ limited max_bytes (bytes ++ left)
      step [] rest parts short ended next =
          ap (limited max_bytes) (sym (append_nil bytes) ∙ ap (λ t. bytes ++ t) (sym (ended refl)))
      step (b ∷ chunk) rest parts short ended next =
          ap (λ n. read_loop read max_bytes fuel n rest (bytes ++ (b ∷ chunk)))
            (remaining-within remaining (length chunk) (omega arith))
          ∙ next (remaining - length chunk) rest (bytes ++ (b ∷ chunk)) (omega arith)
              (omega (arith, length-append bytes (b ∷ chunk)))
          ∙ ap (limited max_bytes)
              (append_assoc bytes (b ∷ chunk) rest ∙ ap (λ t. bytes ++ t) parts)

  loop-limited : (left : List ℕ) → bounded_read read max_bytes left ≡ limited max_bytes left
  unfolding bounded_read
  loop-limited left =
      read_loop-whole (max_bytes + 2) (max_bytes + 1) left [] (omega arith) (omega arith)

  -- Where the reads succeed and deliver the file piece by piece, in pieces of any length, _bounded_read
  -- gives the whole file exactly where it has at most max_bytes bytes.
  pub bounded_read-whole :
      (left : List ℕ)
      → (bounded_read read max_bytes left ≡ content left) ↔ (length left ≤ max_bytes)
  bounded_read-whole left = (
    λ h. bounded_read-content read max_bytes left left h,
    λ h. loop-limited left ∙ limited-within max_bytes left h,
  )
