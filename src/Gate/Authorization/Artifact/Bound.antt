-- ===== src/Gate/Authorization/Artifact/Bound.antt =====
-- The check of the snapshot in `validate_execution_authorization`: the binding that the artifact names,
-- and what is known at run time of the repository, the commit, the tree and the snapshot.
use repo_health_doctor.Base.{
  String, ◌≡◌, ◌↔◌, inl, inr, refl, Bool, true, false, not, ◌&&◌, ◌||◌, [], ◌∷◌, arith, ◌==◌,
  eq_iff, if◌then◌else◌, and_true, Bool-cases, Option, none, some,
}
use repo_health_doctor.Base.Py.{ok, flag, IsSilent}
use repo_health_doctor.Json.{Value, str, Fields, get, is_text, is_text-eq, mapping}
use repo_health_doctor.Json.Fingerprint.{fingerprint}
use repo_health_doctor.Gate.Authorization.Subject.{GateSubject}
use repo_health_doctor.Gate.Authorization.Artifact.{
  Expected, is_current, snapshot_binding_present, snapshot_matches, runtime_matches,
  unless_expected, entry_matches, snapshot_id_matches, manifest_matches, snapshot_check,
  unresolved_reason, mismatch_reason,
}
use repo_health_doctor.Gate.Authorization.Artifact.Grants.{
  IsBoundSnapshot, IsSameAtRun, IsSameEntry, Expects,
}

present_parts :
    (a : Fields)
    → is_current a ≡ true
    → (snapshot_binding_present a ≡ true) ↔ (
        (fingerprint (get "snapshot_id" (mapping (get "subject" a))) ≡ true)
        × (fingerprint (get "manifest_fingerprint" (mapping (get "subject" a))) ≡ true)
        × (fingerprint (get "snapshot_id" (mapping (get "approved_scope" a))) ≡ true)
        × (fingerprint (get "manifest_fingerprint" (mapping (get "approved_scope" a))) ≡ true))
unfolding snapshot_binding_present
present_parts a current = rw current (four _ _ _ _)
  where
    four :
        (p q r t : Bool)
        → ((p && (q && (r && t))) ≡ true) ↔ ((p ≡ true) × (q ≡ true) × (r ≡ true) × (t ≡ true))
    four p q r t = (λ h. ground arith, λ h. ground arith)

both_true : {a b : Bool} → a ≡ true → b ≡ true → (a && b) ≡ true
both_true h k = rw h k

is_text_iff : (v : Value) (s : String) → (is_text v s ≡ true) ↔ (v ≡ str s)
is_text_iff v s = (is_text-eq v s, λ e. rw e ((eq_iff s s).1 refl))

runtime_matches_iff :
    (name : String) (a : Fields) (v : Value) (expected : Option String)
    → (runtime_matches name a v expected ≡ true) ↔ IsSameAtRun name a v expected
unfolding runtime_matches
runtime_matches_iff name a v none = (λ h. tt, λ h. refl)
runtime_matches_iff name a v (some s) = (
  λ h.
      let (p, k) = and_true _ _ h in
      let (q, r) = and_true _ _ k in
      ((is_text_iff _ s).0 p, (is_text_iff _ s).0 q, (is_text_iff _ s).0 r),
  λ (p, q, r).
      both_true ((is_text_iff _ s).1 p) (both_true ((is_text_iff _ s).1 q) ((is_text_iff _ s).1 r)),
)

unless_expected_iff :
    (expected : Option String) (v : Value)
    → (unless_expected expected v ≡ true) ↔ Expects expected v
unless_expected_iff none v = (λ h. tt, λ h. refl)
unless_expected_iff (some s) v = is_text_iff v s

entry_matches_iff :
    (name : String) (a : Fields) (v : Value) (expected : Option String)
    → (entry_matches name a v expected ≡ true) ↔ IsSameEntry name a v expected
unfolding entry_matches
entry_matches_iff name a v expected = (
  λ h.
      let (p, k) = and_true _ _ h in
      let (q, r) = and_true _ _ k in (p, q, (unless_expected_iff expected _).0 r),
  λ (p, q, r). both_true p (both_true q ((unless_expected_iff expected _).1 r)),
)

-- Everything that is known at run time, for a snapshot that is named by fingerprints.
snapshot_matches_iff :
    (a : Fields) (s : GateSubject) (x : Expected)
    → snapshot_binding_present a ≡ true
    → (snapshot_matches a s x ≡ true) ↔ (
        IsSameAtRun "repo" a (str s.repo) x.repository_identity
        × IsSameAtRun "commit" a s.commit x.commit
        × IsSameAtRun "tree_hash" a s.tree_hash x.tree
        × IsSameEntry "snapshot_id" a s.snapshot_id x.snapshot_id
        × IsSameEntry "manifest_fingerprint" a s.manifest_fingerprint x.manifest_fingerprint)
unfolding snapshot_matches snapshot_id_matches manifest_matches
snapshot_matches_iff a s x present = (
  λ h.
      let (p, h1) = and_true _ _ h in
      let (q, h2) = and_true _ _ h1 in
      let (r, h3) = and_true _ _ h2 in
      let (i, m) = and_true _ _ h3 in
      (
        (runtime_matches_iff _ a _ _).0 p,
        (runtime_matches_iff _ a _ _).0 q,
        (runtime_matches_iff _ a _ _).0 r,
        (entry_matches_iff _ a _ _).0 (and_true _ _ i).1,
        (entry_matches_iff _ a _ _).0 (and_true _ _ m).1,
      ),
  λ (p, q, r, i, m). both_true ((runtime_matches_iff _ a _ _).1 p) (
      both_true ((runtime_matches_iff _ a _ _).1 q) (
        both_true ((runtime_matches_iff _ a _ _).1 r) (
          both_true (both_true present ((entry_matches_iff _ a _ _).1 i))
            (both_true present ((entry_matches_iff _ a _ _).1 m))))),
)

-- The three tests of the snapshot's check.
parts :
    (p k m : Bool)
    → IsSilent
        (if not p || not k then ok (unresolved_reason ∷ []) else flag (not m) mismatch_reason)
      ↔ ((p ≡ true) × (k ≡ true) × (m ≡ true))
parts true true true = (λ h. (refl, refl, refl), λ h. refl)
parts true true false = (λ h. cc, λ h. cc)
parts true false m = (λ h. cc, λ h. cc)
parts false k m = (λ h. cc, λ h. cc)

pub snapshot-IsSilent :
    (a : Fields) (s : GateSubject) (x : Expected)
    → IsSilent (snapshot_check a s x) ↔ (is_current a ≡ true → IsBoundSnapshot a s x)
unfolding snapshot_check
snapshot-IsSilent a s x = elim (Bool-cases (is_current a)) [
  | inr old ↦ (λ h e. let t = rw old at e in cc, λ f. rw old refl)
  | inl current ↦ (
    λ h e.
        let (present, kind, agrees) =
          (parts (snapshot_binding_present a) (s.binding_kind == "snapshot_bound")
              (snapshot_matches a s x)).0
            (rw current at h) in
        let (p, q, r, t) = (present_parts a current).0 present in
        let (repository, commit, tree, id, manifest) =
          (snapshot_matches_iff a s x present).0 agrees in
        record {
          subject_id = p;
          subject_manifest = q;
          scope_id = r;
          scope_manifest = t;
          kind = (eq_iff _ _).0 kind;
          repository = repository;
          commit = commit;
          tree = tree;
          snapshot_id = id;
          manifest = manifest;
        },
    λ f.
        let b = f current in
        let present : snapshot_binding_present a ≡ true =
          (present_parts a current).1
            (b.subject_id, b.subject_manifest, b.scope_id, b.scope_manifest) in
        rw current (
          (parts (snapshot_binding_present a) (s.binding_kind == "snapshot_bound")
              (snapshot_matches a s x)).1
            (
              present,
              (eq_iff _ _).1 b.kind,
              (snapshot_matches_iff a s x present).1
                  (b.repository, b.commit, b.tree, b.snapshot_id, b.manifest),
            )),
  )
]
