-- ===== src/Gate/Discovery/Untracked.antt =====
-- A discovered authorization is an untracked file that was read safely; discovery ends.
use repo_health_doctor.Base.{
  ℕ, ◌≡◌, ◌≢◌, refl, ap, sym, ◌∙◌, String, Bool, true, false, Option, none, some, List, contains,
  ltb, if◌then◌else◌, Bool-cases, inl, inr, ◌⊎◌,
}
use repo_health_doctor.Json.{Value, null, dict, Fields}
use repo_health_doctor.ControlFile.{
  ControlFileState, FileSystem, Outcome, read_all, control_file_error, os_error, stuck,
  read_bounded_control_file,
}
use repo_health_doctor.ControlFile.Bounded.{RefusesNegative}
use repo_health_doctor.ControlFile.Ends.{read_bounded_control_file-answers}
use repo_health_doctor.ControlFile.Safe.{IsSafe, read_bounded_control_file-IsSafe}
use repo_health_doctor.Gate.Discovery.{
  authorization_discovery_filename, Refusal, AuthorizationDiscoveryResult, Discovery, answered,
  endless, refused, Snapshot, failed, no_commit, commit, from_payload, parsed, from_read,
  read_candidate, with_tracked, tracked_paths, discover_execution_authorization,
}

-- the paths that are looked at are the caller's, or those of the snapshot of a commit
abbrev pub Looked : Option (List String) → Snapshot → List String → Type 0
Looked given snapshot paths = (given ≡ some paths) ⊎ ((given ≡ none) × (snapshot ≡ commit paths))

-- The file is not among the tracked paths, was read safely, and holds the object that is returned.
pub record IsDiscovered (fs : FileSystem) (loads : List ℕ → Option Value) (max_bytes : ℕ)
    (given : Option (List String)) (snapshot : Snapshot) (r : AuthorizationDiscoveryResult)
    : Type 0 where
  pub paths : List String
  pub bytes : List ℕ
  pub state : ControlFileState
  pub object : Fields
  pub looked : Looked given snapshot paths
  pub untracked : contains paths authorization_discovery_filename ≡ false
  pub safe : IsSafe fs max_bytes bytes state
  pub loaded : loads bytes ≡ some (dict object)
  pub returned : r.authorization ≡ some object

refused-not :
    (reason : Refusal) (r : AuthorizationDiscoveryResult)
    → refused reason ≡ answered r
    → r.discovered ≡ false
refused-not reason r h = ap discovered_of (sym h)
  where
    discovered_of : Discovery → Bool
    discovered_of (answered r) = r.discovered
    discovered_of _ = false

refused-undiscovered {ℓ} :
    {P : Type ℓ} (reason : Refusal) (r : AuthorizationDiscoveryResult)
    → refused reason ≡ answered r
    → r.discovered ≡ true
    → P
refused-undiscovered reason r h d = absurd (no (sym (refused-not reason r h) ∙ d))
  where
    no : false ≢ true
    no h = cc

parsed-answers : (payload : Option Value) → parsed payload ≢ endless
unfolding from_payload
parsed-answers none = λ h. cc
parsed-answers (some (dict d)) = λ h. cc
parsed-answers (some null) = λ h. cc
parsed-answers (some _) = λ h. cc

parsed-dict :
    (payload : Option Value) (r : AuthorizationDiscoveryResult)
    → parsed payload ≡ answered r
    → r.discovered ≡ true
    → (d : Fields) × (payload ≡ some (dict d)) × (r.authorization ≡ some d)
unfolding from_payload
parsed-dict none r h d = refused-undiscovered _ r h d
parsed-dict (some (dict d)) r h t = (d, refl, ap authorization_of (sym h))
  where
    authorization_of : Discovery → Option Fields
    authorization_of (answered r) = r.authorization
    authorization_of _ = some d
parsed-dict (some null) r h d = refused-undiscovered _ r h d
parsed-dict (some _) r h d = refused-undiscovered _ r h d

module _ (fs : FileSystem) (loads : List ℕ → Option Value) (max_bytes : ℕ) where
  from_read-IsSafe :
      (outcome : Outcome) (r : AuthorizationDiscoveryResult)
      → read_bounded_control_file fs max_bytes ≡ outcome
      → from_read fs loads max_bytes outcome ≡ answered r
      → r.discovered ≡ true
      → (bytes : List ℕ) × (state : ControlFileState) × IsSafe fs max_bytes bytes state
        × (d : Fields) × (loads bytes ≡ some (dict d))
        × (r.authorization ≡ some d)
  unfolding from_read
  from_read-IsSafe (read_all bytes state) r e h t =
      let (d, loaded, returned) = parsed-dict (loads bytes) r h t in
      (
        bytes,
        state,
        read_bounded_control_file-IsSafe fs max_bytes bytes state e,
        d,
        loaded,
        returned,
      )
  from_read-IsSafe (control_file_error reason) r e h t = refused-undiscovered _ r h t
  from_read-IsSafe os_error r e h t = cc
  from_read-IsSafe stuck r e h t = cc

  with_tracked-IsDiscovered :
      (given : Option (List String)) (snapshot : Snapshot) (paths : List String)
      (r : AuthorizationDiscoveryResult)
      → Looked given snapshot paths
      → with_tracked fs loads max_bytes paths ≡ answered r
      → r.discovered ≡ true
      → IsDiscovered fs loads max_bytes given snapshot r
  unfolding with_tracked read_candidate
  with_tracked-IsDiscovered given snapshot paths r l h t =
      elim (Bool-cases (contains paths authorization_discovery_filename)) [
        | inl e ↦ refused-undiscovered _ r (rw e at h) t
        | inr e ↦
            let (bytes, state, safe, d, loaded, returned) =
              from_read-IsSafe (read_bounded_control_file fs max_bytes) r refl (rw e at h) t in
            record {
              paths = paths;
              bytes = bytes;
              state = state;
              object = d;
              looked = l;
              untracked = e;
              safe = safe;
              loaded = loaded;
              returned = returned;
            }
      ]

  tracked_paths-IsDiscovered :
      (given : Option (List String)) (snapshot : Snapshot) (r : AuthorizationDiscoveryResult)
      → tracked_paths fs loads max_bytes given snapshot ≡ answered r
      → r.discovered ≡ true
      → IsDiscovered fs loads max_bytes given snapshot r
  tracked_paths-IsDiscovered (some paths) snapshot r h t =
      with_tracked-IsDiscovered (some paths) snapshot paths r (inl refl) h t
  tracked_paths-IsDiscovered none (commit paths) r h t =
      with_tracked-IsDiscovered none (commit paths) paths r (inr (refl, refl)) h t
  tracked_paths-IsDiscovered none failed r h t = refused-undiscovered _ r h t
  tracked_paths-IsDiscovered none no_commit r h t = refused-undiscovered _ r h t

  -- An authorization that discover_execution_authorization discovers is the object that a file holds which
  -- read_bounded_control_file has read safely, and which is not among the tracked paths: those of the
  -- caller's list, or, where the caller gives none, those of the snapshot of the commit.
  pub discover_execution_authorization-IsDiscovered :
      (resolved : Bool) (given : Option (List String)) (snapshot : Snapshot)
      (r : AuthorizationDiscoveryResult)
      → discover_execution_authorization fs loads max_bytes resolved given snapshot ≡ answered r
      → r.discovered ≡ true
      → IsDiscovered fs loads max_bytes given snapshot r
  unfolding discover_execution_authorization
  discover_execution_authorization-IsDiscovered resolved given snapshot r h t =
      elim (Bool-cases (ltb max_bytes 1)) [
        | inl e ↦ refused-undiscovered _ r (rw e at h) t
        | inr e ↦ elim (Bool-cases resolved) [
          | inl p ↦ tracked_paths-IsDiscovered given snapshot r (rw (e, p) at h) t
          | inr p ↦ refused-undiscovered _ r (rw (e, p) at h) t
        ]
      ]

module _ (fs : FileSystem) (loads : List ℕ → Option Value) (max_bytes : ℕ)
    (refuses : RefusesNegative fs.read) where
  from_read-answers :
      (outcome : Outcome) → outcome ≢ stuck → from_read fs loads max_bytes outcome ≢ endless
  unfolding from_read
  from_read-answers (read_all bytes state) n = parsed-answers (loads bytes)
  from_read-answers (control_file_error reason) n = λ h. cc
  from_read-answers os_error n = λ h. cc
  from_read-answers stuck n = absurd (n refl)

  unless : (b : Bool) (x y : Discovery) → x ≢ endless → y ≢ endless → (if b then x else y) ≢ endless
  unless true x y n m = n
  unless false x y n m = m

  with_tracked-answers : (paths : List String) → with_tracked fs loads max_bytes paths ≢ endless
  unfolding with_tracked read_candidate
  with_tracked-answers paths =
      unless (contains paths authorization_discovery_filename) _ _ (λ h. cc)
        (from_read-answers (read_bounded_control_file fs max_bytes)
          (read_bounded_control_file-answers fs max_bytes refuses))

  tracked_paths-answers :
      (given : Option (List String)) (snapshot : Snapshot)
      → tracked_paths fs loads max_bytes given snapshot ≢ endless
  tracked_paths-answers (some paths) snapshot = with_tracked-answers paths
  tracked_paths-answers none (commit paths) = with_tracked-answers paths
  tracked_paths-answers none failed = λ h. cc
  tracked_paths-answers none no_commit = λ h. cc

  -- Where reads of a negative length fail, discover_execution_authorization ends, whatever the system
  -- answers to the other reads of the file, in bytes more or fewer than asked for.
  pub discover_execution_authorization-answers :
      (resolved : Bool) (given : Option (List String)) (snapshot : Snapshot)
      → discover_execution_authorization fs loads max_bytes resolved given snapshot ≢ endless
  unfolding discover_execution_authorization
  discover_execution_authorization-answers resolved given snapshot =
      unless (ltb max_bytes 1) _ _ (λ h. cc)
        (unless resolved _ _ (tracked_paths-answers given snapshot) (λ h. cc))
