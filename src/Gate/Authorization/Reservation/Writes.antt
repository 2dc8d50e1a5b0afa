-- ===== src/Gate/Authorization/Reservation/Writes.antt =====
-- The store of markers, and the loop that writes one.
use repo_health_doctor.Base.{
  ℕ, zero, suc, length, ◌++◌, Bool, true, false, ◌||◌, Option, none, some, [], ◌∷◌, ◌≡◌, ◌≤◌, ◌⊎◌,
  inl, inr, refl, sym, ap, ◌∙◌, arith, eq_iff, Bool-cases, and_true,
}
use repo_health_doctor.Gate.Authorization.Reservation.{
  Bytes, FilePath, same_path, Store, lookup, append, take, drop, System, write_all,
}

abbrev pub present : FilePath → Store → Bool
present p [] = false
present p ((q, text) ∷ rest) = same_path p q || present p rest

pub path_eq : (p q : FilePath) → same_path p q ≡ true → p ≡ q
path_eq p q h =
    let (a, b) = and_true _ _ h in
    let e = (eq_iff p.parent q.parent).0 a in
    let f = (eq_iff p.name q.name).0 b in λ i. record { parent = e i; name = f i }

pub same_path_refl : (p : FilePath) → same_path p p ≡ true
same_path_refl p = rw ((eq_iff p.parent p.parent).1 refl, (eq_iff p.name p.name).1 refl) refl

pub append_assoc : (a b c : Bytes) → (a ++ b) ++ c ≡ a ++ (b ++ c)
append_assoc [] b c = refl
append_assoc (x ∷ a) b c = ap (λ l. x ∷ l) (append_assoc a b c)

pub append_nil : (a : Bytes) → a ++ [] ≡ a
append_nil [] = refl
append_nil (x ∷ a) = ap (λ l. x ∷ l) (append_nil a)

pub take-drop : (n : ℕ) (s : Bytes) → take n s ++ drop n s ≡ s
take-drop zero s = refl
take-drop (suc n) [] = refl
take-drop (suc n) (c ∷ s) = ap (λ l. c ∷ l) (take-drop n s)

pub length-drop : (n : ℕ) (s : Bytes) → length (drop n s) ≤ length s
length-drop zero s = omega arith
length-drop (suc n) [] = omega arith
length-drop (suc n) (c ∷ s) = let h = length-drop n s in omega arith

pub append-present :
    (q p : FilePath) (t : Bytes) (s : Store) → present q (append p t s) ≡ present q s
append-present q p t [] = refl
append-present q p t ((r, old) ∷ rest) = elim (Bool-cases (same_path p r)) [
  | inl e ↦ rw e refl
  | inr e ↦ rw e (ap (λ b. same_path q r || b) (append-present q p t rest))
]

pub lookup-cases :
    (p : FilePath) (s : Store)
    → ((present p s ≡ true) × ((text : Bytes) × (lookup p s ≡ some text)))
      ⊎ ((present p s ≡ false) × (lookup p s ≡ none))
lookup-cases p [] = inr (refl, refl)
lookup-cases p ((q, text) ∷ rest) = elim (Bool-cases (same_path p q)) [
  | inl e ↦ inl (rw e refl, (text, rw e refl))
  | inr e ↦ rw e (lookup-cases p rest)
]

pub append-lookup :
    (p : FilePath) (t old : Bytes) (s : Store)
    → lookup p s ≡ some old
    → lookup p (append p t s) ≡ some (old ++ t)
append-lookup p t old [] h = cc
append-lookup p t old ((r, text) ∷ rest) h = elim (Bool-cases (same_path p r)) [
  | inl e ↦ let k : text ≡ old = (let j = rw e at h in cc) in rw (e, e, k) refl
  | inr e ↦ rw (e, e) (append-lookup p t old rest (rw e at h))
]

pub answer-cases : (o : Option ℕ) → (o ≡ none) ⊎ ((o ≡ some zero) ⊎ ((w : ℕ) × (o ≡ some (suc w))))
answer-cases none = inl refl
answer-cases (some zero) = inr (inl refl)
answer-cases (some (suc w)) = inr (inr (w, refl))

-- The loop of writes ends within attempts many calls attempts there are bytes.
pub write_all-total :
    (fuel : ℕ) (sys : System) (n : ℕ) (p : FilePath) (view : Bytes) (s : Store)
    → length view ≤ fuel
    → (r : Store × Bool) × (write_all fuel sys n p view s ≡ some r)
unfolding write_all
write_all-total fuel sys n p [] s h = ((s, true), refl)
write_all-total zero sys n p (c ∷ view) s h = absurd (omega arith)
write_all-total (suc fuel) sys n p (c ∷ view) s h = elim (answer-cases (sys.writes n)) [
  | inl e ↦ rw (e, write_all) ((s, false), refl)
  | inr (inl e) ↦ rw (e, write_all) ((s, false), refl)
  | inr (inr (w, e)) ↦
      let k = length-drop w view in
      rw (e, write_all)
        (write_all-total fuel sys (suc n) p (drop w view) (append p (take (suc w) (c ∷ view)) s)
          (omega arith))
]

pub write_all-present :
    (fuel : ℕ) (sys : System) (n : ℕ) (p : FilePath) (view : Bytes) (s end : Store) (done : Bool)
    (q : FilePath)
    → write_all fuel sys n p view s ≡ some (end, done)
    → present q end ≡ present q s
unfolding write_all
write_all-present fuel sys n p [] s end done q h = let e : s ≡ end = cc in rw e refl
write_all-present zero sys n p (c ∷ view) s end done q h = cc
write_all-present (suc fuel) sys n p (c ∷ view) s end done q h =
    elim (answer-cases (sys.writes n)) [
      | inl e ↦ let k : s ≡ end = (let j = rw (e, write_all) at h in cc) in rw k refl
      | inr (inl e) ↦ let k : s ≡ end = (let j = rw (e, write_all) at h in cc) in rw k refl
      | inr (inr (w, e)) ↦
          write_all-present fuel sys (suc n) p (drop w view) _ end done q (rw (e, write_all) at h)
          ∙ append-present q p (take (suc w) (c ∷ view)) s
    ]

pub write_all-lookup :
    (fuel : ℕ) (sys : System) (n : ℕ) (p : FilePath) (view old : Bytes) (s end : Store)
    → write_all fuel sys n p view s ≡ some (end, true)
    → lookup p s ≡ some old
    → lookup p end ≡ some (old ++ view)
unfolding write_all
write_all-lookup fuel sys n p [] old s end h k =
    let e : s ≡ end = cc in rw (sym e) (k ∙ ap some (sym (append_nil old)))
write_all-lookup zero sys n p (c ∷ view) old s end h k = cc
write_all-lookup (suc fuel) sys n p (c ∷ view) old s end h k = elim (answer-cases (sys.writes n)) [
  | inl e ↦ let j = rw (e, write_all) at h in cc
  | inr (inl e) ↦ let j = rw (e, write_all) at h in cc
  | inr (inr (w, e)) ↦
      write_all-lookup fuel sys (suc n) p (drop w view) (old ++ take (suc w) (c ∷ view)) _ end
        (rw (e, write_all) at h) (append-lookup p (take (suc w) (c ∷ view)) old s k)
      ∙ ap some (
          append_assoc old (take (suc w) (c ∷ view)) (drop w view)
          ∙ ap (λ l. old ++ l) (take-drop (suc w) (c ∷ view)))
]
