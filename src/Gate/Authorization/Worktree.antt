-- ===== src/Gate/Authorization/Worktree.antt =====
-- gate/authorization.py: the worktree that runs against the subject that was approved.
pub mod Sound
use Prim.Native.String
use repo_health_doctor.Base.{
  String, ◌≡◌, ◌↔◌, ◌⊎◌, inl, inr, refl, Bool, true, false, not, ◌&&◌, ◌||◌, List, [], ◌∷◌, ◌==◌,
  arith, eq_iff, if◌then◌else◌, contains, Bool-cases, Memᴰ, contains-mem, mem-contains,
}
use repo_health_doctor.Base.Py.{Py, ok, ◌>>=◌, >>=-eq-ok}
use repo_health_doctor.Json.{
  bool, Value, null, str, dict, Fields, get, is_null, is_str, is_true, is_text, is_text-eq,
  is_true-eq, as_str, as_dict, member,
}
use repo_health_doctor.Json.Checks.{OneOf}

pub data Status : Type 0 where
  matched mismatch unresolved dirty : Status

pub record WorktreeBinding : Type 0 where
  pub status : Status
  pub repo_matches : Bool
  pub commit_matches : Bool
  pub tree_matches : Bool
  pub dirty_state : String
  pub refusal_reasons : List String

abbrev unresolved_reason : String
unresolved_reason = "authorization_worktree_binding_unresolved"

pub unresolved_binding : WorktreeBinding
unresolved_binding = record {
  status = unresolved;
  repo_matches = false;
  commit_matches = false;
  tree_matches = false;
  dirty_state = "unknown";
  refusal_reasons = unresolved_reason ∷ [];
}

-- `isinstance(a, str) and isinstance(b, str) and a == b`
abbrev pub same_text : Value → Value → Bool
same_text (str s) v = is_text v s
same_text _ v = false

-- `_tree_hash_matches`
abbrev pub tree_hash_matches : Value → Value → Bool
tree_hash_matches (str e) (str o) = e == o || e == String.◌++◌ "sha256:" o
tree_hash_matches _ _ = false

abbrev pub repo_identity_matches : Fields → Fields → Bool
repo_identity_matches subject observed =
    let root = is_true (get "repo_root_matches_target" observed) in
    let repo = get "repo" subject in
    if is_text repo "<repo>" then root else same_text repo (get "repo_identity" observed) && root

-- `dirty_state if dirty_state in {"clean", "dirty", "unknown"} else "unknown"`
abbrev pub known_state : Value → Py String
known_state v = member ("clean" ∷ "dirty" ∷ "unknown" ∷ []) v >>= λ known.
    ok (if known then (elim v [ str s ↦ s | _ ↦ "unknown" ]) else "unknown")

-- The status and the reasons, by the first test that fails.
pub judge : Fields → Bool → String → Status × List String
judge observed matches state =
    if not (is_true (get "git_available" observed))
    then (unresolved, "authorization_worktree_not_git" ∷ unresolved_reason ∷ [])
    else if is_null (get "commit" observed) || is_null (get "tree_hash" observed)
    then (unresolved, unresolved_reason ∷ [])
    else if state == "unknown"
    then (unresolved, unresolved_reason ∷ [])
    else if state == "dirty"
    then (dirty, "authorization_worktree_dirty" ∷ [])
    else if not matches
    then (mismatch, "authorization_worktree_binding_mismatch" ∷ [])
    else (matched, [])

pub compare_worktree : Fields → Fields → Py WorktreeBinding
unfolding judge
compare_worktree subject observed =
    let repo = repo_identity_matches subject observed in
    let commit = same_text (get "commit" subject) (get "commit" observed) in
    let tree = tree_hash_matches (get "tree_hash" subject) (get "tree_hash" observed) in
    known_state (get "dirty_state" observed) >>= λ state. ok (
      let verdict = judge observed (repo && (commit && tree)) state in
      record {
        status = verdict.0;
        repo_matches = repo;
        commit_matches = commit;
        tree_matches = tree;
        dirty_state = state;
        refusal_reasons = verdict.1;
      })

abbrev pub bound_kinds : List String
bound_kinds = "commit_bound" ∷ "tree_bound" ∷ "snapshot_bound" ∷ []

pub with_scope : Fields → Value → Fields → Py WorktreeBinding
unfolding compare_worktree unresolved_binding
with_scope subject (dict scope) observed =
    member bound_kinds (get "binding_kind" scope) >>= λ bound.
    let compared = compare_worktree subject observed in
    if bound then compared else ok unresolved_binding
with_scope subject _ observed = ok unresolved_binding

pub with_subject : Value → Value → Fields → Py WorktreeBinding
unfolding with_scope
with_subject (dict subject) scope observed = with_scope subject scope observed
with_subject _ scope observed = ok unresolved_binding

-- `validate_execution_authorization_worktree_binding`
unfoldable pub validate_worktree_binding : Fields → Fields → Py WorktreeBinding
unfolding with_subject
validate_worktree_binding a observed =
    with_subject (get "subject" a) (get "approved_scope" a) observed

-- What a worktree that matches the approval has.
pub record IsApprovedWorktree (a observed : Fields) : Type 0 where
  pub subject : Fields
  pub subject_at : get "subject" a ≡ dict subject
  pub scope : Fields
  pub scope_at : get "approved_scope" a ≡ dict scope
  pub bound : OneOf bound_kinds (get "binding_kind" scope)
  pub git : get "git_available" observed ≡ bool true
  pub root : get "repo_root_matches_target" observed ≡ bool true
  pub clean : get "dirty_state" observed ≡ str "clean"
  pub repo :
      (get "repo" subject ≡ str "<repo>")
      ⊎ ((s : String) × (get "repo" subject ≡ str s) × (get "repo_identity" observed ≡ str s))
  pub commit : (s : String) × (get "commit" subject ≡ str s) × (get "commit" observed ≡ str s)
  pub tree :
      (s : String) × (get "tree_hash" observed ≡ str s)
      × ((get "tree_hash" subject ≡ str s)
          ⊎ (get "tree_hash" subject ≡ str (String.◌++◌ "sha256:" s)))
