-- ===== src/Sandbox/Behavior/Partition.antt =====
-- The rules that a run of `record` leaves in its three lists: those of the tests that hold, by level.
use repo_health_doctor.Base.{
  ◌≡◌, ◌≢◌, refl, ap, sym, inl, inr, String, Bool, true, false, not, ◌&&◌, List, [], ◌∷◌, ◌++◌,
  if◌then◌else◌, Bool-cases, is_empty, kept, append_assoc, append_nil, ◌∙◌, any, All, or_false,
}
use repo_health_doctor.Json.{Fields, get, is_text}
use repo_health_doctor.Sandbox.Observer.{holding}
use repo_health_doctor.Sandbox.Behavior.Recorded.{Recorded, record_rule, record_all, verdict_of}

-- the levels of a rule
abbrev pub blocks : Fields → String → Bool
blocks severity rule = is_text (get rule severity) "block"

abbrev pub warns : Fields → String → Bool
warns severity rule = not (blocks severity rule) && is_text (get rule severity) "warn"

abbrev pub reviews : Fields → String → Bool
reviews severity rule = not (blocks severity rule) && not (is_text (get rule severity) "warn")

abbrev pub partition : Fields → List String → Recorded
partition severity rules = record {
  blockers = kept (blocks severity) rules;
  warnings = kept (warns severity) rules;
  needs_review = kept (reviews severity) rules;
}

abbrev join : Recorded → Recorded → Recorded
join r t = record {
  blockers = r.blockers ++ t.blockers;
  warnings = r.warnings ++ t.warnings;
  needs_review = r.needs_review ++ t.needs_review;
}

join_assoc : (r s t : Recorded) → join (join r s) t ≡ join r (join s t)
join_assoc r s t = rw (
  append_assoc r.blockers s.blockers t.blockers,
  append_assoc r.warnings s.warnings t.warnings,
  append_assoc r.needs_review s.needs_review t.needs_review,
)

record_rule-eq :
    (severity : Fields) (rule : String) (r : Recorded)
    → record_rule severity rule r ≡ join r (partition severity (rule ∷ []))
unfolding record_rule
record_rule-eq severity rule r = elim (Bool-cases (is_text (get rule severity) "block")) [
  | inl b ↦ rw (b, append_nil r.warnings, append_nil r.needs_review)
  | inr b ↦ elim (Bool-cases (is_text (get rule severity) "warn")) [
    | inl w ↦ rw (b, w, append_nil r.blockers, append_nil r.needs_review)
    | inr w ↦ rw (b, w, append_nil r.blockers, append_nil r.warnings)
  ]
]

partition-cons :
    (severity : Fields) (rule : String) (rules : List String)
    → partition severity (rule ∷ rules)
      ≡ join (partition severity (rule ∷ [])) (partition severity rules)
partition-cons severity rule rules = elim (Bool-cases (is_text (get rule severity) "block")) [
  | inl b ↦ rw b refl
  | inr b ↦ elim (Bool-cases (is_text (get rule severity) "warn")) [
    | inl w ↦ rw (b, w) refl
    | inr w ↦ rw (b, w) refl
  ]
]

record_all-eq :
    (severity : Fields) (tests : List (Bool × String)) (r : Recorded)
    → record_all severity tests r ≡ join r (partition severity (holding tests))
unfolding record_all
record_all-eq severity [] r =
    rw (append_nil r.blockers, append_nil r.warnings, append_nil r.needs_review)
record_all-eq severity ((false, rule) ∷ tests) r = record_all-eq severity tests r
record_all-eq severity ((true, rule) ∷ tests) r =
    record_all-eq severity tests (record_rule severity rule r)
    ∙ ap (λ t. join t (partition severity (holding tests))) (record_rule-eq severity rule r)
    ∙ join_assoc r (partition severity (rule ∷ [])) (partition severity (holding tests))
    ∙ ap (join r) (sym (partition-cons severity rule (holding tests)))

-- The rules recorded are those of the tests that hold, in the order of the tests, each in the list of its level.
pub record_all-partition :
    (severity : Fields) (tests : List (Bool × String))
    → record_all severity tests record { blockers = []; warnings = []; needs_review = [] }
      ≡ partition severity (holding tests)
record_all-partition severity tests = record_all-eq severity tests _

-- The verdict by the levels of the broken rules alone: the worst level that one of them has.
abbrev pub strongest : Fields → List String → String
strongest severity rules =
    if any (blocks severity) rules
    then "block"
    else if any (reviews severity) rules
    then "needs_review"
    else if any (warns severity) rules
    then "warn"
    else "pass"

kept-any : (p : String → Bool) (rules : List String) → not (is_empty (kept p rules)) ≡ any p rules
kept-any p [] = refl
kept-any p (rule ∷ rules) = elim (Bool-cases (p rule)) [
  | inl e ↦ rw e refl
  | inr e ↦ rw e (kept-any p rules)
]

pub record_all-strongest :
    (severity : Fields) (tests : List (Bool × String))
    → verdict_of
        (record_all severity tests record { blockers = []; warnings = []; needs_review = [] })
      ≡ strongest severity (holding tests)
unfolding verdict_of
record_all-strongest severity tests =
    rw
      (
        record_all-partition severity tests,
        kept-any (blocks severity) (holding tests),
        kept-any (reviews severity) (holding tests),
        kept-any (warns severity) (holding tests),
      )
      refl

-- a verdict that is not "block" leaves each test of a blocking rule unmet
abbrev pub Quiet : Fields → Bool × String → Type 0
Quiet severity (test, rule) = blocks severity rule ≡ true → test ≡ false

any-holding :
    (severity : Fields) (tests : List (Bool × String))
    → any (blocks severity) (holding tests) ≡ false
    → All (Quiet severity) tests
any-holding severity [] h = tt
any-holding severity ((false, rule) ∷ tests) h = (λ b. refl, any-holding severity tests h)
any-holding severity ((true, rule) ∷ tests) h =
    let (p, q) = or_false (blocks severity rule) _ h in (λ b. cc, any-holding severity tests q)

pub not_blocked :
    (severity : Fields) (tests : List (Bool × String))
    → strongest severity (holding tests) ≢ "block"
    → All (Quiet severity) tests
not_blocked severity tests n = elim (Bool-cases (any (blocks severity) (holding tests))) [
  | inl e ↦ absurd (n (rw e refl))
  | inr e ↦ any-holding severity tests e
]
