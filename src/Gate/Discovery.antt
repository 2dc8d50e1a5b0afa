-- ===== src/Gate/Discovery.antt =====
-- gate/authorization_discovery.py: discover_execution_authorization, with load_bounded_json_document of
-- control_file.py. `json.loads` of bytes, the resolution of the path and the snapshot of the repository are
-- arguments.
pub mod Untracked
use repo_health_doctor.Base.{
  ℕ, String, Bool, true, false, Option, none, some, List, ltb, contains, if◌then◌else◌,
}
use repo_health_doctor.Json.{Value, dict, Fields}
use repo_health_doctor.ControlFile.{
  ControlFileState, FileSystem, Reason, too_large, no_follow_unsupported, not_found, file_changed,
  symlink_refused, not_regular, parse_failed, Outcome, read_all, control_file_error, os_error,
  stuck, read_bounded_control_file,
}

abbrev pub authorization_discovery_filename : String
authorization_discovery_filename = ".repo-health-doctor.authorization.json"

pub data Refusal : Type 0 where
  tracked not_a_git_repo symlink missing unparsed oversized git_failed changed : Refusal

pub record AuthorizationDiscoveryResult : Type 0 where
  pub discovered : Bool
  pub authorization : Option Fields
  pub reason : Option Refusal

-- A result, or the OSError of a read, which nothing catches; `endless` would stand for a loop that has run
-- out of fuel.
pub data Discovery : Type 0 where
  answered : AuthorizationDiscoveryResult → Discovery
  raised endless : Discovery

-- `_refused`
abbrev pub refused : Refusal → Discovery
refused reason = answered record { discovered = false; authorization = none; reason = some reason }

-- What create_verified_snapshot answers: an OSError, no snapshot of a commit, or the paths of its files.
pub data Snapshot : Type 0 where
  failed no_commit : Snapshot
  commit : List String → Snapshot

-- the reasons of ControlFileReadError, and FILE_CHANGED for the others
abbrev pub refusal_of : Reason → Refusal
refusal_of not_found = missing
refusal_of symlink_refused = symlink
refusal_of too_large = oversized
refusal_of parse_failed = unparsed
refusal_of _ = changed

-- `isinstance(authorization, dict)`
unfoldable pub from_payload : Value → Discovery
from_payload (dict d) = answered record { discovered = true; authorization = some d; reason = none }
from_payload _ = refused unparsed

-- `json.loads(control_file.content)`; none is an error that is caught
abbrev pub parsed : Option Value → Discovery
parsed none = refused (refusal_of parse_failed)
parsed (some payload) = from_payload payload

module _ (fs : FileSystem) (loads : List ℕ → Option Value) (max_bytes : ℕ) where
  unfoldable pub from_read : Outcome → Discovery
  unfolding from_payload
  from_read (read_all bytes state) = parsed (loads bytes)
  from_read (control_file_error reason) = refused (refusal_of reason)
  from_read os_error = raised
  from_read stuck = endless

  -- `_read_candidate`
  unfoldable pub read_candidate : Discovery
  unfolding from_read read_bounded_control_file
  read_candidate = from_read (read_bounded_control_file fs max_bytes)

  unfoldable pub with_tracked : List String → Discovery
  unfolding read_candidate
  with_tracked paths =
      if contains paths authorization_discovery_filename then refused tracked else read_candidate

  abbrev pub from_snapshot : Snapshot → Discovery
  from_snapshot failed = refused git_failed
  from_snapshot no_commit = refused not_a_git_repo
  from_snapshot (commit paths) = with_tracked paths

  -- the tracked paths that the caller gives, or those of the snapshot
  abbrev pub tracked_paths : Option (List String) → Snapshot → Discovery
  tracked_paths none snapshot = from_snapshot snapshot
  tracked_paths (some paths) snapshot = with_tracked paths

  -- `resolved` is whether `Path(repo_path).resolve` returns
  unfoldable pub discover_execution_authorization :
      Bool → Option (List String) → Snapshot → Discovery
  unfolding with_tracked
  discover_execution_authorization resolved paths snapshot =
      if ltb max_bytes 1
      then refused oversized
      else if resolved
      then tracked_paths paths snapshot
      else refused not_a_git_repo
