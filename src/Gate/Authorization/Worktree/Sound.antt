-- ===== src/Gate/Authorization/Worktree/Sound.antt =====
-- The worktree binding is matched exactly where the worktree is the one that was approved.
use Prim.Native.String
use repo_health_doctor.Base.{
  String, ◌≡◌, ◌≢◌, ◌↔◌, ◌⊎◌, inl, inr, refl, ap, Bool, true, false, ◌&&◌, ◌||◌, List, ◌==◌, arith,
  eq_iff, contains, Bool-cases, contains-mem, mem-contains, and_true, and_intro, or_left, or_right,
}
use repo_health_doctor.Base.Py.{Py, ok, >>=-eq-ok}
use repo_health_doctor.Json.{
  Value, null, bool, str, dict, Fields, get, is_null, is_true, is_text, is_text-eq, is_true-eq,
  member,
}
use repo_health_doctor.Json.Checks.{OneOf}
use repo_health_doctor.Gate.Authorization.Worktree.{
  matched, unresolved, WorktreeBinding, same_text, tree_hash_matches, repo_identity_matches,
  known_state, judge, compare_worktree, bound_kinds, with_scope, with_subject,
  validate_worktree_binding, IsApprovedWorktree, unresolved_binding,
}

same_text-eq : (v w : Value) → (same_text v w ≡ true) ↔ ((s : String) × (v ≡ str s) × (w ≡ str s))
same_text-eq (str s) w = (
  λ h. (s, refl, is_text-eq w s h),
  λ (t, e, k). let q : t ≡ s = cc in rw (k, q, (eq_iff s s).1 refl) refl,
)
same_text-eq null w = (λ h. cc, λ (s, e, k). cc)
same_text-eq _ w = (λ h. cc, λ (s, e, k). cc)

tree_matches-eq :
    (e o : Value)
    → (tree_hash_matches e o ≡ true)
      ↔ ((s : String) × (o ≡ str s) × ((e ≡ str s) ⊎ (e ≡ str (String.◌++◌ "sha256:" s))))
tree_matches-eq (str e) (str o) = (
  λ h. elim (Bool-cases (e == o)) [
    | inl p ↦ (o, refl, inl (ap str ((eq_iff e o).0 p)))
    | inr n ↦ (o, refl, inr (ap str ((eq_iff _ _).0 (rw n at h))))
  ],
  λ (s, p, q). let k : s ≡ o = cc in found s k q,
)
  where
    found :
        (s : String)
        → s ≡ o
        → (str e ≡ str s) ⊎ (str e ≡ str (String.◌++◌ "sha256:" s))
        → (e == o || e == String.◌++◌ "sha256:" o) ≡ true
    found s k (inl c) = or_left _ _ ((eq_iff e o).1 (cc))
    found s k (inr c) = or_right _ _ ((eq_iff e _).1 (cc))
tree_matches-eq (str e) null = (λ h. cc, λ (s, p, q). cc)
tree_matches-eq (str e) _ = (λ h. cc, λ (s, p, q). cc)
tree_matches-eq null o = (λ h. cc, λ (s, p, q). ground arith)
tree_matches-eq _ o = (λ h. cc, λ (s, p, q). ground arith)

judged :
    (observed : Fields) (m : Bool) (state : String)
    → ((judge observed m state).0 ≡ matched) ↔ (
        (is_true (get "git_available" observed) ≡ true)
        × (is_null (get "commit" observed) ≡ false)
        × (is_null (get "tree_hash" observed) ≡ false)
        × (state ≢ "unknown")
        × (state ≢ "dirty")
        × (m ≡ true))
unfolding judge
judged observed m state = (
  λ h. ground (arith, eq_iff state "unknown", eq_iff state "dirty"),
  λ h. ground (arith, eq_iff state "unknown", eq_iff state "dirty"),
)

abbrev SameRepo : Fields → Fields → Type 0
SameRepo subject observed =
    (get "repo" subject ≡ str "<repo>")
    ⊎ ((s : String) × (get "repo" subject ≡ str s) × (get "repo_identity" observed ≡ str s))

repo-eq :
    (subject observed : Fields)
    → (repo_identity_matches subject observed ≡ true)
      ↔ (SameRepo subject observed × (get "repo_root_matches_target" observed ≡ bool true))
repo-eq subject observed = elim (Bool-cases (is_text (get "repo" subject) "<repo>")) [
  | inl any_ ↦ (
    λ h. (inl (is_text-eq _ _ any_), is_true-eq _ (rw any_ at h)),
    λ (r, root). rw (any_, root) refl,
  )
  | inr named ↦ (
    λ h.
        let (p, q) = and_true _ _ (rw named at h) in (inr ((same_text-eq _ _).0 p), is_true-eq _ q),
    λ (r, root). rw (named, root) (and_intro _ _ (from named r) refl),
  )
]
  where
    from :
        is_text (get "repo" subject) "<repo>" ≡ false
        → SameRepo subject observed
        → same_text (get "repo" subject) (get "repo_identity" observed) ≡ true
    from n (inl e) = let k = rw e at n in cc
    from n (inr e) = (same_text-eq _ _).1 e

known-eq : (v : Value) (s : String) → known_state v ≡ ok s → s ≢ "unknown" → v ≡ str s
known-eq (str t) s h n = ground (arith, eq_iff t "clean", eq_iff t "dirty", eq_iff t "unknown")
known-eq null s h n = ground arith
known-eq _ s h n = ground arith

clean_of :
    (v : Value) (s : String) → known_state v ≡ ok s → s ≢ "unknown" → s ≢ "dirty" → v ≡ str "clean"
clean_of (str t) s h n m = ground (arith, eq_iff t "clean", eq_iff t "dirty", eq_iff t "unknown")
clean_of null s h n m = ground arith
clean_of _ s h n m = ground arith

null_of_text : (v : Value) (s : String) → v ≡ str s → is_null v ≡ false
null_of_text v s e = rw e refl

matches_in : Fields → Fields → Bool
matches_in subject observed =
    repo_identity_matches subject observed
    && (same_text (get "commit" subject) (get "commit" observed)
        && tree_hash_matches (get "tree_hash" subject) (get "tree_hash" observed))

abbrev IsMatched : Py WorktreeBinding → Type 0
IsMatched m = (b : WorktreeBinding) × (m ≡ ok b) × (b.status ≡ matched)

-- What the comparison of the subject alone finds.
record IsSame (subject observed : Fields) : Type 0 where
  git : get "git_available" observed ≡ bool true
  root : get "repo_root_matches_target" observed ≡ bool true
  clean : get "dirty_state" observed ≡ str "clean"
  repo : SameRepo subject observed
  commit : (s : String) × (get "commit" subject ≡ str s) × (get "commit" observed ≡ str s)
  tree :
      (s : String) × (get "tree_hash" observed ≡ str s)
      × ((get "tree_hash" subject ≡ str s)
          ⊎ (get "tree_hash" subject ≡ str (String.◌++◌ "sha256:" s)))

from_judged :
    (subject observed : Fields) (s : String)
    → known_state (get "dirty_state" observed) ≡ ok s
    → (judge observed (matches_in subject observed) s).0 ≡ matched
    → IsSame subject observed
unfolding matches_in
from_judged subject observed s k e =
    let (git, c, t, known, settled, m) = (judged observed (matches_in subject observed) s).0 e in
    let (r, ct) = and_true _ _ m in
    let (commit, tree) = and_true _ _ ct in
    let (repo, root) = (repo-eq subject observed).0 r in
    record {
      git = is_true-eq _ git;
      root = root;
      clean = clean_of _ s k known settled;
      repo = repo;
      commit = (same_text-eq _ _).0 commit;
      tree = (tree_matches-eq _ _).0 tree;
    }

same-matches :
    (subject observed : Fields) → IsSame subject observed → matches_in subject observed ≡ true
unfolding matches_in
same-matches subject observed p =
    and_intro _ _ ((repo-eq subject observed).1 (p.repo, p.root))
      (and_intro _ _ ((same_text-eq _ _).1 p.commit) ((tree_matches-eq _ _).1 p.tree))

commit_known :
    (subject observed : Fields)
    → ((s : String) × (get "commit" subject ≡ str s) × (get "commit" observed ≡ str s))
    → is_null (get "commit" observed) ≡ false
commit_known subject observed (s, e, k) = null_of_text _ s k

tree_known :
    (subject observed : Fields)
    → ((s : String) × (get "tree_hash" observed ≡ str s)
        × ((get "tree_hash" subject ≡ str s)
            ⊎ (get "tree_hash" subject ≡ str (String.◌++◌ "sha256:" s))))
    → is_null (get "tree_hash" observed) ≡ false
tree_known subject observed (s, e, k) = null_of_text _ s e

same-judged :
    (subject observed : Fields)
    → IsSame subject observed
    → (judge observed (matches_in subject observed) "clean").0 ≡ matched
same-judged subject observed p = (judged observed (matches_in subject observed) "clean").1 (
  rw p.git refl,
  commit_known subject observed p.commit,
  tree_known subject observed p.tree,
  λ e. cc,
  λ e. let k = (eq_iff "clean" "dirty").1 e in cc,
  same-matches subject observed p,
)

compared-IsSame :
    (subject observed : Fields)
    → IsMatched (compare_worktree subject observed) ↔ IsSame subject observed
unfolding compare_worktree matches_in
compared-IsSame subject observed = (to, from)
  where
    to : IsMatched (compare_worktree subject observed) → IsSame subject observed
    to (b, h, e) =
        let (s, k, q) = >>=-eq-ok (known_state (get "dirty_state" observed)) _ h in
        let j : (judge observed (matches_in subject observed) s).0 ≡ matched = cc in
        from_judged subject observed s k j

    from : IsSame subject observed → IsMatched (compare_worktree subject observed)
    from p = rw p.clean (_, refl, same-judged subject observed p)

member-eq : (set : List String) (v : Value) → (member set v ≡ ok true) ↔ OneOf set v
member-eq set (str s) = (
  λ h. let k : contains set s ≡ true = cc in (s, refl, contains-mem s set k),
  λ (t, e, k). let q : t ≡ s = cc in ap ok (mem-contains s set (rw q at k)),
)
member-eq set null = (λ h. cc, λ (s, e, k). cc)
member-eq set _ = (λ h. cc, λ (s, e, k). cc)

unresolved-false : IsMatched (ok unresolved_binding) → ⊥
unfolding unresolved_binding
unresolved-false (b, h, e) = let k : unresolved ≡ matched = cc in ground arith

abbrev InScope : Fields → Value → Fields → Type 0
InScope subject v observed =
    (scope : Fields) × (v ≡ dict scope)
    × OneOf bound_kinds (get "binding_kind" scope)
    × IsSame subject observed

scope-eq :
    (subject : Fields) (v : Value) (observed : Fields)
    → IsMatched (with_scope subject v observed) ↔ InScope subject v observed
unfolding with_scope
scope-eq subject (dict scope) observed = (to, from)
  where
    to :
        IsMatched (with_scope subject (dict scope) observed) → InScope subject (dict scope) observed
    to (b, h, e) =
        let (bound, k, q) = >>=-eq-ok (member bound_kinds (get "binding_kind" scope)) _ h in
        elim (Bool-cases bound) [
          | inl within ↦ (
            scope,
            refl,
            (member-eq _ _).0 (rw within at k),
            (compared-IsSame subject observed).0 (b, rw within at q, e),
          )
          | inr other ↦ absurd (unresolved-false (b, rw other at q, e))
        ]

    from :
        InScope subject (dict scope) observed → IsMatched (with_scope subject (dict scope) observed)
    from (other, same, bound, p) =
        let q : other ≡ scope = cc in
        let k = (member-eq bound_kinds (get "binding_kind" scope)).1 (rw q at bound) in
        rw k ((compared-IsSame subject observed).1 p)
scope-eq subject null observed = (λ h. absurd (unresolved-false h), λ (s, e, _, _). cc)
scope-eq subject _ observed = (λ h. absurd (unresolved-false h), λ (s, e, _, _). cc)

subject-eq :
    (a observed : Fields) (v : Value)
    → IsMatched (with_subject v (get "approved_scope" a) observed) ↔ (
        (subject : Fields) × (v ≡ dict subject) × InScope subject (get "approved_scope" a) observed)
unfolding with_subject
subject-eq a observed (dict subject) = (
  λ h. (subject, refl, (scope-eq subject _ observed).0 h),
  λ (other, same, p). let q : other ≡ subject = cc in (scope-eq subject _ observed).1 (rw q at p),
)
subject-eq a observed null = (λ h. absurd (unresolved-false h), λ (s, e, _). cc)
subject-eq a observed _ = (λ h. absurd (unresolved-false h), λ (s, e, _). cc)

-- A worktree binding is matched exactly where the worktree observed is what IsApprovedWorktree describes:
-- clean, with the approved repository, commit and tree, under a scope that binds a commit, a tree or a
-- snapshot.
pub validate_worktree_binding-IsApprovedWorktree :
    (a observed : Fields)
    → ((b : WorktreeBinding) × (validate_worktree_binding a observed ≡ ok b) × (b.status ≡ matched))
      ↔ IsApprovedWorktree a observed
unfolding validate_worktree_binding
validate_worktree_binding-IsApprovedWorktree a observed = (to, from)
  where
    to : IsMatched (validate_worktree_binding a observed) → IsApprovedWorktree a observed
    to h =
        let (subject, at, (scope, at_scope, bound, p)) =
          (subject-eq a observed (get "subject" a)).0 h in
        record {
          subject = subject;
          subject_at = at;
          scope = scope;
          scope_at = at_scope;
          bound = bound;
          git = p.git;
          root = p.root;
          clean = p.clean;
          repo = p.repo;
          commit = p.commit;
          tree = p.tree;
        }

    from : IsApprovedWorktree a observed → IsMatched (validate_worktree_binding a observed)
    from w =
        let same : IsSame w.subject observed = record {
          git = w.git;
          root = w.root;
          clean = w.clean;
          repo = w.repo;
          commit = w.commit;
          tree = w.tree;
        } in
        (subject-eq a observed (get "subject" a)).1
          (w.subject, w.subject_at, (w.scope, w.scope_at, w.bound, same))
