-- ===== src/Gate/Authorization/Snapshot.antt =====
-- gate/authorization.py: one snapshot subject across the gate, the approval and the run.
pub mod Sound
use repo_health_doctor.Base.{
  String, ◌≡◌, ◌≢◌, ◌↔◌, refl, ap, Bool, true, false, not, ◌&&◌, ◌||◌, Option, none, some, List, [],
  ◌∷◌, ◌==◌, arith, eq_iff, if◌then◌else◌, Bool-cases, inl, inr, and_true, and_intro,
}
use repo_health_doctor.Json.{Value, null, str, Fields, get, is_text, is_text-eq, mapping}
use repo_health_doctor.Json.Fingerprint.{fingerprint}
use repo_health_doctor.Json.Runtime.{Runtime}
use repo_health_doctor.Gate.Authorization.Subject.{GateSubject, gate_subject}

pub data Status : Type 0 where
  matched mismatch unresolved : Status

pub record SnapshotBinding : Type 0 where
  pub status : Status
  pub repo_matches : Bool
  pub commit_matches : Bool
  pub tree_matches : Bool
  pub snapshot_id_matches : Bool
  pub manifest_fingerprint_matches : Bool
  pub gate_matches : Bool
  pub refusal_reasons : List String

-- What is known at run time; `none` stands for `None`.
pub record Observed : Type 0 where
  pub repository_identity : Option String
  pub commit : Option String
  pub tree : Option String
  pub snapshot_id : Option String
  pub manifest_fingerprint : Option String

abbrev pub is_some_fingerprint : Option String → Bool
is_some_fingerprint none = false
is_some_fingerprint (some s) = fingerprint (str s)

abbrev pub is_some_text : Option String → Bool
is_some_text none = false
is_some_text (some s) = not (s == "")

-- `value == expected`, where None is equal to None alone
abbrev pub option_equal : Value → Option String → Bool
option_equal null none = true
option_equal _ none = false
option_equal v (some s) = is_text v s

abbrev pub is_resolved : Observed → Bool
is_resolved o =
    is_some_fingerprint o.repository_identity
    && (is_some_text o.commit
        && (is_some_text o.tree
            && (is_some_fingerprint o.snapshot_id && is_some_fingerprint o.manifest_fingerprint)))

-- an entry of the approved subject and of the approved scope, against the run
abbrev pub approved_matches : Fields → String → Option String → Bool
approved_matches a name expected =
    option_equal (get name (mapping (get "subject" a))) expected
    && option_equal (get name (mapping (get "approved_scope" a))) expected

abbrev pub gate_subject_matches : GateSubject → Observed → Bool
gate_subject_matches s o =
    option_equal (str s.repo) o.repository_identity
    && (option_equal s.commit o.commit
        && (option_equal s.tree_hash o.tree
            && (option_equal s.snapshot_id o.snapshot_id
                && (option_equal s.manifest_fingerprint o.manifest_fingerprint
                    && s.binding_kind == "snapshot_bound"))))

abbrev pub unresolved_binding : SnapshotBinding
unresolved_binding = record {
  status = unresolved;
  repo_matches = false;
  commit_matches = false;
  tree_matches = false;
  snapshot_id_matches = false;
  manifest_fingerprint_matches = false;
  gate_matches = false;
  refusal_reasons = "authorization_snapshot_binding_unresolved" ∷ [];
}

-- The binding of the six matches.
pub compared : Bool → Bool → Bool → Bool → Bool → Bool → SnapshotBinding
compared repo commit tree snapshot manifest gate =
    if repo && (commit && (tree && (snapshot && (manifest && gate))))
    then record {
      status = matched;
      repo_matches = true;
      commit_matches = true;
      tree_matches = true;
      snapshot_id_matches = true;
      manifest_fingerprint_matches = true;
      gate_matches = true;
      refusal_reasons = [];
    }
    else record {
      status = mismatch;
      repo_matches = repo;
      commit_matches = commit;
      tree_matches = tree;
      snapshot_id_matches = snapshot;
      manifest_fingerprint_matches = manifest;
      gate_matches = gate;
      refusal_reasons = "authorization_snapshot_binding_mismatch" ∷ [];
    }

-- `validate_execution_authorization_snapshot_binding`
unfoldable pub validate_snapshot_binding : Runtime → Fields → Fields → Observed → SnapshotBinding
unfolding compared
validate_snapshot_binding rt a gate o =
    if not (is_resolved o)
    then unresolved_binding
    else compared (approved_matches a "repo" o.repository_identity)
        (approved_matches a "commit" o.commit) (approved_matches a "tree_hash" o.tree)
        (approved_matches a "snapshot_id" o.snapshot_id)
        (approved_matches a "manifest_fingerprint" o.manifest_fingerprint)
        (gate_subject_matches (gate_subject rt gate) o)

-- One text for an entry of the approved subject, of the approved scope, and of the run.
abbrev pub IsApprovedEntry : Fields → String → String → Type 0
IsApprovedEntry a name s =
    (get name (mapping (get "subject" a)) ≡ str s)
    × (get name (mapping (get "approved_scope" a)) ≡ str s)

-- The five texts of a snapshot subject, the same in the gate decision, in the approval and in the run.
pub record IsApprovedSnapshot (a : Fields) (g : GateSubject) (o : Observed) : Type 0 where
  pub repo :
      (s : String) × (o.repository_identity ≡ some s) × IsApprovedEntry a "repo" s × (g.repo ≡ s)
  pub commit :
      (s : String) × (o.commit ≡ some s) × IsApprovedEntry a "commit" s × (g.commit ≡ str s)
  pub tree :
      (s : String) × (o.tree ≡ some s) × IsApprovedEntry a "tree_hash" s × (g.tree_hash ≡ str s)
  pub snapshot_id :
      (s : String) × (o.snapshot_id ≡ some s)
      × IsApprovedEntry a "snapshot_id" s
      × (g.snapshot_id ≡ str s)
  pub manifest :
      (s : String) × (o.manifest_fingerprint ≡ some s)
      × IsApprovedEntry a "manifest_fingerprint" s
      × (g.manifest_fingerprint ≡ str s)
  pub kind : g.binding_kind ≡ "snapshot_bound"
  pub resolved : is_resolved o ≡ true
