-- ===== src/Gate/Authorization/Snapshot/Sound.antt =====
-- A snapshot binding is matched exactly where the run has the snapshot that was approved.
use repo_health_doctor.Base.{
  String, ◌≡◌, ◌↔◌, refl, ap, Bool, true, false, ◌&&◌, Option, none, some, arith, eq_iff,
  Bool-cases, inl, inr, and_true, and_intro,
}
use repo_health_doctor.Json.{Value, null, str, Fields, is_text, is_text-eq}
use repo_health_doctor.Json.Runtime.{Runtime}
use repo_health_doctor.Gate.Authorization.Subject.{GateSubject, gate_subject}
use repo_health_doctor.Gate.Authorization.Snapshot.{
  matched, Observed, is_some_fingerprint, is_some_text, option_equal, is_resolved, approved_matches,
  gate_subject_matches, compared, validate_snapshot_binding, IsApprovedEntry, IsApprovedSnapshot,
}

abbrev is_given : Option String → Bool
is_given none = false
is_given (some s) = true

option_equal-eq : (v : Value) (s : String) → (option_equal v (some s) ≡ true) ↔ (v ≡ str s)
option_equal-eq v s = (λ h. is_text-eq v s (plain v h), λ e. rw e ((eq_iff s s).1 refl))
  where
    plain : (w : Value) → option_equal w (some s) ≡ true → is_text w s ≡ true
    plain null h = h
    plain _ h = h

-- Each of the five, where the run has a text.
entry-eq :
    (a : Fields) (name : String) (v : Value) (e : Option String)
    → is_given e ≡ true
    → ((approved_matches a name e ≡ true) × (option_equal v e ≡ true))
      ↔ ((s : String) × (e ≡ some s) × IsApprovedEntry a name s × (v ≡ str s))
entry-eq a name v none g = cc
entry-eq a name v (some s) g = (
  λ (h, k).
      let (p, q) = and_true _ _ h in
      (s, refl, ((option_equal-eq _ s).0 p, (option_equal-eq _ s).0 q), (option_equal-eq v s).0 k),
  λ (t, e, (p, q), k).
      let i : t ≡ s = cc in
      (
        and_intro _ _ ((option_equal-eq _ s).1 (rw i at p)) ((option_equal-eq _ s).1 (rw i at q)),
        (option_equal-eq v s).1 (rw i at k),
      ),
)

given_of_fingerprint : (e : Option String) → is_some_fingerprint e ≡ true → is_given e ≡ true
given_of_fingerprint none h = cc
given_of_fingerprint (some s) h = refl

given_of_text : (e : Option String) → is_some_text e ≡ true → is_given e ≡ true
given_of_text none h = cc
given_of_text (some s) h = refl

record Matches (a : Fields) (g : GateSubject) (o : Observed) : Type 0 where
  resolved : is_resolved o ≡ true
  repo : approved_matches a "repo" o.repository_identity ≡ true
  commit : approved_matches a "commit" o.commit ≡ true
  tree : approved_matches a "tree_hash" o.tree ≡ true
  snapshot_id : approved_matches a "snapshot_id" o.snapshot_id ≡ true
  manifest : approved_matches a "manifest_fingerprint" o.manifest_fingerprint ≡ true
  gate : gate_subject_matches g o ≡ true

six :
    (p q r s t u : Bool)
    → (compared p q r s t u).status ≡ matched
    → (p ≡ true) × (q ≡ true) × (r ≡ true) × (s ≡ true) × (t ≡ true) × (u ≡ true)
unfolding compared
six p q r s t u h = ground arith

module _ (rt : Runtime) (a gate : Fields) (o : Observed) where
  to_matches :
      (validate_snapshot_binding rt a gate o).status ≡ matched → Matches a (gate_subject rt gate) o
  unfolding validate_snapshot_binding
  to_matches h = elim (Bool-cases (is_resolved o)) [
    | inr n ↦ let k = rw n at h in cc
    | inl y ↦
        let (p, q, r, s, t, u) = six _ _ _ _ _ _ (rw y at h) in
        record {
          resolved = y;
          repo = p;
          commit = q;
          tree = r;
          snapshot_id = s;
          manifest = t;
          gate = u;
        }
  ]

  from_Matches :
      Matches a (gate_subject rt gate) o → (validate_snapshot_binding rt a gate o).status ≡ matched
  unfolding validate_snapshot_binding
  from_Matches m =
      rw (m.resolved) (all_match _ _ _ _ _ _ m.repo m.commit m.tree m.snapshot_id m.manifest m.gate)
    where
      all_match :
          (p q r s t u : Bool)
          → p ≡ true
          → q ≡ true
          → r ≡ true
          → s ≡ true
          → t ≡ true
          → u ≡ true
          → (compared p q r s t u).status ≡ matched
      all_match p q r s t u e f g h i j = rw (e, f, g, h, i, j) refl

five_of :
    (p q r s t : Bool)
    → (p && (q && (r && (s && t)))) ≡ true
    → (p ≡ true) × (q ≡ true) × (r ≡ true) × (s ≡ true) × (t ≡ true)
five_of p q r s t h = ground arith

six_of :
    (p q r s t u : Bool)
    → (p && (q && (r && (s && (t && u))))) ≡ true
    → (p ≡ true) × (q ≡ true) × (r ≡ true) × (s ≡ true) × (t ≡ true) × (u ≡ true)
six_of p q r s t u h = ground arith

str-injective : (s t : String) → str s ≡ str t → s ≡ t
str-injective s t e = cc

Matches-iff :
    (a : Fields) (g : GateSubject) (o : Observed) → Matches a g o ↔ IsApprovedSnapshot a g o
Matches-iff a g o = (to, from)
  where
    to : Matches a g o → IsApprovedSnapshot a g o
    to m =
        let (p, q, r, s, t) = five_of _ _ _ _ _ m.resolved in
        let (gp, gq, gr, gs, gt, gu) = six_of _ _ _ _ _ _ m.gate in
        let (repo, at, entry, same) =
          (entry-eq a "repo" (str g.repo) o.repository_identity (given_of_fingerprint _ p)).0
            (m.repo, gp) in
        record {
          repo = (repo, at, entry, str-injective _ _ same);
          commit = (entry-eq a "commit" g.commit o.commit (given_of_text _ q)).0 (m.commit, gq);
          tree = (entry-eq a "tree_hash" g.tree_hash o.tree (given_of_text _ r)).0 (m.tree, gr);
          snapshot_id =
              (entry-eq a "snapshot_id" g.snapshot_id o.snapshot_id (given_of_fingerprint _ s)).0
                (m.snapshot_id, gs);
          manifest =
              (entry-eq a "manifest_fingerprint" g.manifest_fingerprint o.manifest_fingerprint
                  (given_of_fingerprint _ t)).0
                (m.manifest, gt);
          kind = (eq_iff _ _).0 gu;
          resolved = m.resolved;
        }

    from : IsApprovedSnapshot a g o → Matches a g o
    from m =
        let (p, q, r, s, t) = five_of _ _ _ _ _ m.resolved in
        let (repo, at, entry, same) = m.repo in
        let (m1, g1) =
          (entry-eq a "repo" (str g.repo) o.repository_identity (given_of_fingerprint _ p)).1
            (repo, at, entry, ap str same) in
        let (m2, g2) = (entry-eq a "commit" g.commit o.commit (given_of_text _ q)).1 m.commit in
        let (m3, g3) = (entry-eq a "tree_hash" g.tree_hash o.tree (given_of_text _ r)).1 m.tree in
        let (m4, g4) =
          (entry-eq a "snapshot_id" g.snapshot_id o.snapshot_id (given_of_fingerprint _ s)).1
            m.snapshot_id in
        let (m5, g5) =
          (entry-eq a "manifest_fingerprint" g.manifest_fingerprint o.manifest_fingerprint
              (given_of_fingerprint _ t)).1
            m.manifest in
        record {
          resolved = m.resolved;
          repo = m1;
          commit = m2;
          tree = m3;
          snapshot_id = m4;
          manifest = m5;
          gate = and_intro _ _ g1 (
              and_intro _ _ g2
                (and_intro _ _ g3 (and_intro _ _ g4 (and_intro _ _ g5 ((eq_iff _ _).1 m.kind)))));
        }

-- A snapshot binding is matched exactly where the run has five texts of the right shape, and each of
-- them is that of the gate decision, of the approved subject and of the approved scope.
pub validate_snapshot_binding-IsApprovedSnapshot :
    (rt : Runtime) (a gate : Fields) (o : Observed)
    → ((validate_snapshot_binding rt a gate o).status ≡ matched)
      ↔ IsApprovedSnapshot a (gate_subject rt gate) o
validate_snapshot_binding-IsApprovedSnapshot rt a gate o =
    let (to, from) = Matches-iff a (gate_subject rt gate) o in
    (λ h. to (to_matches rt a gate o h), λ m. from_Matches rt a gate o (from m))
