-- ===== src/Gate/Verdict.antt =====
-- gate/verdict.py: the precedence of verdicts.
use repo_health_doctor.Base.{
  String, ◌≡◌, ◌≢◌, refl, List, [], ◌∷◌, Memᴰ, ◌==◌, ◌∙◌, arith, eq_iff, if◌then◌else◌, Bool-cases,
  inl, inr, false, contains, contains-mem, mem-contains, All, All-mem,
}
use repo_health_doctor.Base.Int.{ℤ, pos, negsuc, ◌≤ℤ◌}
use repo_health_doctor.Base.Select.{max_by, mem-le-max_by, max_by-mem}

-- `VERDICT_ORDER.get(value, -1)`
unfoldable pub verdict_order : String → ℤ
verdict_order v =
    if v == "allow_limited"
    then pos 0
    else if v == "warn"
    then pos 1
    else if v == "unknown"
    then pos 2
    else if v == "quarantine"
    then pos 3
    else if v == "block"
    then pos 4
    else negsuc 0

unfoldable pub strongest_verdict : List String → String
strongest_verdict [] = "allow_limited"
strongest_verdict (c ∷ cs) = max_by verdict_order c cs

pub strongest_verdict-mem :
    (cs : List String)
    → cs ≢ []
    → Memᴰ (strongest_verdict cs) cs
      × ((c : String) → Memᴰ c cs → verdict_order c ≤ℤ verdict_order (strongest_verdict cs))
unfolding strongest_verdict
strongest_verdict-mem [] h = absurd (h refl)
strongest_verdict-mem (c ∷ cs) h =
    (max_by-mem verdict_order c cs, λ d m. mem-le-max_by verdict_order c cs m)

order_block : (v : String) → pos 4 ≤ℤ verdict_order v → v ≡ "block"
unfolding verdict_order
order_block v h = ground (arith, eq_iff v "block")

-- A list that holds "block" has the verdict "block".
pub strongest_verdict-block : (cs : List String) → Memᴰ "block" cs → strongest_verdict cs ≡ "block"
unfolding verdict_order
strongest_verdict-block [] m = elim m [ ]
strongest_verdict-block (c ∷ cs) m =
    order_block _ ((strongest_verdict-mem (c ∷ cs) (λ e. cc)).1 "block" m)

abbrev pub verdicts : List String
verdicts = "block" ∷ "quarantine" ∷ "unknown" ∷ "warn" ∷ "allow_limited" ∷ []

-- The first of the five that the list holds, from "block" down, and "allow_limited" for none.
abbrev pub precedence : List String → String
precedence cs =
    if contains cs "block"
    then "block"
    else if contains cs "quarantine"
    then "quarantine"
    else if contains cs "unknown"
    then "unknown"
    else if contains cs "warn"
    then "warn"
    else "allow_limited"

-- what is stronger than each of the list is not in it
absent :
    (cs : List String) (s t : String)
    → ((c : String) → Memᴰ c cs → verdict_order c ≤ℤ verdict_order s)
    → ¬ (verdict_order t ≤ℤ verdict_order s)
    → contains cs t ≡ false
absent cs s t most n = elim (Bool-cases (contains cs t)) [
  | inl e ↦ absurd (n (most t (contains-mem t cs e)))
  | inr e ↦ e
]

AreMost : List String → String → Type 0
AreMost cs s = (c : String) → Memᴰ c cs → verdict_order c ≤ℤ verdict_order s

at_quarantine :
    (cs : List String)
    → Memᴰ "quarantine" cs
    → AreMost cs "quarantine"
    → "quarantine" ≡ precedence cs
unfolding verdict_order AreMost
at_quarantine cs m most =
    rw (absent cs "quarantine" "block" most (λ h. omega arith), mem-contains "quarantine" cs m) refl

at_unknown :
    (cs : List String) → Memᴰ "unknown" cs → AreMost cs "unknown" → "unknown" ≡ precedence cs
unfolding verdict_order AreMost
at_unknown cs m most =
    rw
      (
        absent cs "unknown" "block" most (λ h. omega arith),
        absent cs "unknown" "quarantine" most (λ h. omega arith),
        mem-contains "unknown" cs m,
      )
      refl

at_warn : (cs : List String) → Memᴰ "warn" cs → AreMost cs "warn" → "warn" ≡ precedence cs
unfolding verdict_order AreMost
at_warn cs m most =
    rw
      (
        absent cs "warn" "block" most (λ h. omega arith),
        absent cs "warn" "quarantine" most (λ h. omega arith),
        absent cs "warn" "unknown" most (λ h. omega arith),
        mem-contains "warn" cs m,
      )
      refl

at_allow : (cs : List String) → AreMost cs "allow_limited" → "allow_limited" ≡ precedence cs
unfolding verdict_order AreMost
at_allow cs most =
    rw
      (
        absent cs "allow_limited" "block" most (λ h. omega arith),
        absent cs "allow_limited" "quarantine" most (λ h. omega arith),
        absent cs "allow_limited" "unknown" most (λ h. omega arith),
        absent cs "allow_limited" "warn" most (λ h. omega arith),
      )
      refl

precedence-most :
    (cs : List String) (s : String) → Memᴰ s cs → AreMost cs s → Memᴰ s verdicts → s ≡ precedence cs
precedence-most cs s m most (Memᴰ.head e) = rw e (rw (mem-contains "block" cs (rw e at m)) refl)
precedence-most cs s m most (Memᴰ.tail (Memᴰ.head e)) =
    e ∙ at_quarantine cs (rw e at m) (rw e at most)
precedence-most cs s m most (Memᴰ.tail (Memᴰ.tail (Memᴰ.head e))) =
    e ∙ at_unknown cs (rw e at m) (rw e at most)
precedence-most cs s m most (Memᴰ.tail (Memᴰ.tail (Memᴰ.tail (Memᴰ.head e)))) =
    e ∙ at_warn cs (rw e at m) (rw e at most)
precedence-most cs s m most (Memᴰ.tail (Memᴰ.tail (Memᴰ.tail (Memᴰ.tail (Memᴰ.head e))))) =
    e ∙ at_allow cs (rw e at most)
precedence-most cs s m most (Memᴰ.tail (Memᴰ.tail (Memᴰ.tail (Memᴰ.tail (Memᴰ.tail v))))) =
    elim v [ ]

-- The strongest of a list of the five verdicts is the first of "block", "quarantine", "unknown" and "warn"
-- that the list holds, and "allow_limited" where it holds none of them.
pub strongest_verdict-precedence :
    (cs : List String) → All (λ c. Memᴰ c verdicts) cs → strongest_verdict cs ≡ precedence cs
unfolding strongest_verdict AreMost
strongest_verdict-precedence [] known = refl
strongest_verdict-precedence (c ∷ cs) known =
    let (m, most) = strongest_verdict-mem (c ∷ cs) (λ e. cc) in
    precedence-most (c ∷ cs) (strongest_verdict (c ∷ cs)) m most
      (All-mem (λ d. Memᴰ d verdicts) (c ∷ cs) known m)
