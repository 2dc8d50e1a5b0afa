-- ===== src/Gate/Authorization/Reservation/Once.antt =====
-- An authorization is consumed at most once, and a reservation leaves the whole marker behind.
use repo_health_doctor.Base.{
  ℕ, length, Bool, true, false, ◌&&◌, ◌||◌, Option, none, some, List, [], ◌∷◌, if◌then◌else◌, ◌≡◌,
  ◌≤◌, ◌+◌, inl, inr, refl, sym, ap, ◌∙◌, arith, Bool-cases, or_right,
}
use repo_health_doctor.Gate.Authorization.Reservation.{
  FilePath, same_path, Store, lookup, System, Reservation, exists_reason, write_failure,
  authorization_reservation_path, payload, write_all, outcome, after_writing, reserve,
}
use repo_health_doctor.Gate.Authorization.Reservation.Writes.{
  present, path_eq, same_path_refl, lookup-cases, write_all-total, write_all-present,
  write_all-lookup,
}

abbrev marker : FilePath → FilePath
marker a = authorization_reservation_path a

-- How an attempt ends: the marker was there, or could not be opened, or is there now.
data Ends (sys : System) (a : FilePath) (s : Store) : Type 0 where
  found :
      present (marker a) s ≡ true
      → reserve sys a s ≡ some (s, outcome (marker a) (some exists_reason))
      → Ends sys a s
  refused :
      present (marker a) s ≡ false
      → reserve sys a s ≡ some (s, outcome (marker a) (some write_failure))
      → Ends sys a s
  opened :
      present (marker a) s ≡ false
      → lookup (marker a) s ≡ none
      → (end : Store) (done : Bool)
      → write_all (length payload) sys 0 (marker a) payload ((marker a, []) ∷ s) ≡ some (end, done)
      → reserve sys a s ≡ after_writing sys (marker a) (some (end, done))
      → Ends sys a s

reserve-Ends : (sys : System) (a : FilePath) (s : Store) → Ends sys a s
unfolding reserve
reserve-Ends sys a s = elim (lookup-cases (marker a) s) [
  | inl (e, (text, f)) ↦ found e (rw (f, reserve) refl)
  | inr (e, f) ↦ elim (Bool-cases sys.refuses_open) [
    | inl g ↦ refused e (rw (f, g, reserve) refl)
    | inr g ↦
        let r =
          write_all-total (length payload) sys 0 (marker a) payload ((marker a, []) ∷ s)
            (omega arith) in
        opened e f r.0.0 r.0.1 r.1 (
          rw (f, reserve)
            (ap
                (λ b.
                  if b
                  then some (s, outcome (marker a) (some write_failure))
                  else after_writing sys (marker a)
                      (write_all (length payload) sys 0 (marker a) payload ((marker a, []) ∷ s)))
                g
              ∙ ap (after_writing sys (marker a)) r.1))
  ]
]

-- Attempts one after the other: the store at the end, and what each of them returned.
pub reserve_all : List (System × FilePath) → Store → Option (Store × List Reservation)
reserve_all [] s = some (s, [])
reserve_all ((sys, a) ∷ rest) s = elim (reserve sys a s) [
  | none ↦ none
  | some (next, r) ↦ elim (reserve_all rest next) [
    | none ↦ none
    | some (end, rs) ↦ some (end, r ∷ rs)
  ]
]

-- How many of the reservations got the marker p.
pub winners : FilePath → List Reservation → ℕ
winners p [] = 0
winners p (r ∷ rs) = (if r.reserved && same_path p r.reservation_path then 1 else 0) + winners p rs

-- What one attempt does: it ends, keeps what is there, and gets a marker only where there was none.
record Step (p : FilePath) (sys : System) (a : FilePath) (s : Store) : Type 0 where
  next : Store
  result : Reservation
  ends : reserve sys a s ≡ some (next, result)
  keeps : present p s ≡ true → present p next ≡ true
  wins :
      (result.reserved && same_path p result.reservation_path) ≡ true
      → (present p s ≡ false) × (present p next ≡ true)

kept :
    (p : FilePath) (sys : System) (a : FilePath) (s end : Store) (done : Bool)
    → write_all (length payload) sys 0 (marker a) payload ((marker a, []) ∷ s) ≡ some (end, done)
    → present p end ≡ (same_path p (marker a) || present p s)
kept p sys a s end done h = write_all-present _ sys 0 (marker a) payload _ end done p h

wins_of :
    (p : FilePath) (sys : System) (a : FilePath) (s end : Store) (done : Bool)
    → present (marker a) s ≡ false
    → present p end ≡ (same_path p (marker a) || present p s)
    → same_path p (marker a) ≡ true
    → (present p s ≡ false) × (present p end ≡ true)
wins_of p sys a s end done e h k = let q = path_eq p (marker a) k in (rw q e, rw (h, k) refl)

Step-of : (p : FilePath) (sys : System) (a : FilePath) (s : Store) → Ends sys a s → Step p sys a s
unfolding after_writing
Step-of p sys a s (found e f) = record {
  next = s;
  result = outcome (marker a) (some exists_reason);
  ends = f;
  keeps = λ h. h;
  wins = λ h. cc;
}
Step-of p sys a s (refused e f) = record {
  next = s;
  result = outcome (marker a) (some write_failure);
  ends = f;
  keeps = λ h. h;
  wins = λ h. cc;
}
Step-of p sys a s (opened e f end false g r) = record {
  next = end;
  result = outcome (marker a) (some write_failure);
  ends = r;
  keeps = λ h. kept p sys a s end false g ∙ rw h (or_right _ _ refl);
  wins = λ h. cc;
}
Step-of p sys a s (opened e f end true g r) = elim (Bool-cases sys.sync_fails) [
  | inl w ↦ record {
    next = end;
    result = outcome (marker a) (some write_failure);
    ends = r ∙ ap (λ b. some (end, outcome (marker a) (if b then some write_failure else none))) w;
    keeps = λ h. kept p sys a s end true g ∙ rw h (or_right _ _ refl);
    wins = λ h. cc;
  }
  | inr w ↦ record {
    next = end;
    result = outcome (marker a) none;
    ends = r ∙ ap (λ b. some (end, outcome (marker a) (if b then some write_failure else none))) w;
    keeps = λ h. kept p sys a s end true g ∙ rw h (or_right _ _ refl);
    wins = λ h. wins_of p sys a s end true e (kept p sys a s end true g) h;
  }
]

step : (p : FilePath) (sys : System) (a : FilePath) (s : Store) → Step p sys a s
step p sys a s = Step-of p sys a s (reserve-Ends sys a s)

abbrev AtMost : ℕ → FilePath → List (System × FilePath) → Store → Type 0
AtMost n p attempts s =
    ((r : Store × List Reservation) × (reserve_all attempts s ≡ some r) × (winners p r.1 ≤ n))

more :
    (p : FilePath) (sys : System) (a : FilePath) (s : Store) (rest : List (System × FilePath))
    (t : Step p sys a s) (n m : ℕ)
    → AtMost n p rest t.next
    → ((if t.result.reserved && same_path p t.result.reservation_path then 1 else 0) + n) ≤ m
    → AtMost m p ((sys, a) ∷ rest) s
unfolding reserve_all winners
more p sys a s rest t n m ((end, rs), h, few) bound =
    ((end, t.result ∷ rs), rw (t.ends, h, reserve_all) refl, omega arith)

none_after :
    (p : FilePath) (attempts : List (System × FilePath)) (s : Store)
    → present p s ≡ true
    → AtMost 0 p attempts s
unfolding reserve_all winners
none_after p [] s h = ((s, []), refl, omega arith)
none_after p ((sys, a) ∷ rest) s h =
    let t = step p sys a s in
    elim (Bool-cases (t.result.reserved && same_path p t.result.reservation_path)) [
      | inl won ↦ let (free, there) = t.wins won in cc
      | inr lost ↦
          more p sys a s rest t 0 0 (none_after p rest t.next (t.keeps h)) (rw lost (omega arith))
    ]

-- However many attempts are made, from whatever store and whatever the system answers: each of them
-- returns, and at most one of them reserves any one marker.
pub reserve_all-once :
    (p : FilePath) (attempts : List (System × FilePath)) (s : Store)
    → (r : Store × List Reservation) × (reserve_all attempts s ≡ some r) × (winners p r.1 ≤ 1)
unfolding reserve_all winners
reserve_all-once p [] s = ((s, []), refl, omega arith)
reserve_all-once p ((sys, a) ∷ rest) s =
    let t = step p sys a s in
    elim (Bool-cases (t.result.reserved && same_path p t.result.reservation_path)) [
      | inl won ↦
          let (free, there) = t.wins won in
          more p sys a s rest t 0 1 (none_after p rest t.next there) (rw won (omega arith))
      | inr lost ↦
          more p sys a s rest t 1 1 (reserve_all-once p rest t.next) (rw lost (omega arith))
    ]

abbrev reserved_of : Option (Store × Reservation) → Bool
reserved_of none = false
reserved_of (some (s, r)) = r.reserved

abbrev store_of : Store → Option (Store × Reservation) → Store
store_of s none = s
store_of s (some (end, r)) = end

-- An attempt that reserves found no marker, and leaves one that holds the whole payload.
pub reserve_complete :
    (sys : System) (a : FilePath) (s end : Store) (r : Reservation)
    → reserve sys a s ≡ some (end, r)
    → r.reserved ≡ true
    → (lookup (authorization_reservation_path a) s ≡ none)
      × (lookup (authorization_reservation_path a) end ≡ some payload)
unfolding after_writing
reserve_complete sys a s end r h won = of (reserve-Ends sys a s)
  where
    of : Ends sys a s → (lookup (marker a) s ≡ none) × (lookup (marker a) end ≡ some payload)
    of (found e f) = let k : r.reserved ≡ false = ap reserved_of (sym h ∙ f) in cc
    of (refused e f) = let k : r.reserved ≡ false = ap reserved_of (sym h ∙ f) in cc
    of (opened e f last false g q) = let k : r.reserved ≡ false = ap reserved_of (sym h ∙ q) in cc
    of (opened e f last true g q) =
        let k : last ≡ end = ap (store_of s) (sym q ∙ h) in
        (
          f,
          rw (sym k) (
              write_all-lookup _ sys 0 (marker a) payload [] _ last g
                (rw (same_path_refl (marker a)) refl)),
        )
