-- ===== src/Examples/Authorizations.antt =====
-- The authorization of one command, run on samples.
use repo_health_doctor.Base.{◌≡◌, ◌≤◌, refl, true, false, none, some, List, [], ◌∷◌}
use repo_health_doctor.Base.Py.{ok}
use repo_health_doctor.Json.{dict, Fields}
use repo_health_doctor.Json.Fingerprint.{fingerprint}
use repo_health_doctor.Json.RawPath.{contains_raw_host_path}
use repo_health_doctor.Gate.Authorization.Forbidden.{contains_forbidden_pattern}
use repo_health_doctor.Json.Equality.{equal}
use repo_health_doctor.Gate.Authorization.Subject.{
  gate_subject, gate_decision_fingerprint, gate_reference,
}
use repo_health_doctor.Gate.Authorization.Artifact.{validate_execution_authorization}
use repo_health_doctor.Gate.Authorization.Artifact.Grants.{IsGranted}
use repo_health_doctor.Gate.Authorization.Artifact.Sound.{
  IsAuthorized, validate_execution_authorization-IsGranted,
}
use repo_health_doctor.Gate.Authorization.Artifact.Single.{validate_execution_authorization-Single}
use repo_health_doctor.Gate.Authorization.Draft.{build_draft}
use repo_health_doctor.Gate.Authorization.Draft.Unapproved.{build_draft-unauthorized}
use repo_health_doctor.Gate.Authorization.Reservation.{
  FilePath, Store, lookup, payload, System, Reservation, authorization_reservation_path, reserve,
}
use repo_health_doctor.Gate.Authorization.Reservation.Once.{
  reserve_all, winners, reserve_all-once, reserve_complete,
}
use repo_health_doctor.Gate.Authorization.Snapshot.{validate_snapshot_binding, IsApprovedSnapshot}
use repo_health_doctor.Gate.Authorization.Snapshot.Sound.{
  validate_snapshot_binding-IsApprovedSnapshot,
}
use repo_health_doctor.Gate.Authorization.Worktree.{
  validate_worktree_binding, matched, IsApprovedWorktree, WorktreeBinding,
}
use repo_health_doctor.Gate.Authorization.Worktree.Sound.{
  validate_worktree_binding-IsApprovedWorktree,
}
use repo_health_doctor.Examples.Artifacts.{
  runtime, decision, command, approval, expected, observed_snapshot, observed_worktree,
}

approval-IsAuthorized : IsAuthorized runtime decision command expected (dict approval)
unfolding validate_execution_authorization gate_subject gate_reference gate_decision_fingerprint
    equal fingerprint contains_forbidden_pattern contains_raw_host_path
approval-IsAuthorized = (_, refl, refl)

validate_execution_authorization-IsGranted_example :
    (a : Fields) × (dict approval ≡ dict a) × IsGranted runtime a decision command expected
validate_execution_authorization-IsGranted_example =
    (validate_execution_authorization-IsGranted runtime decision command expected (dict approval)).0
      approval-IsAuthorized

validate_execution_authorization-Single_example :
    (command ≡ command)
    × (gate_decision_fingerprint runtime decision ≡ gate_decision_fingerprint runtime decision)
validate_execution_authorization-Single_example =
    validate_execution_authorization-Single runtime decision decision command command expected
      expected (dict approval) approval-IsAuthorized approval-IsAuthorized

build_draft-unauthorized_example : ¬ (
    IsAuthorized runtime decision command expected
      (dict (build_draft runtime decision command none none)))
build_draft-unauthorized_example =
    build_draft-unauthorized runtime decision command none none decision command expected

-- A system that writes forty bytes at a time.
abbrev system : System
system = record { refuses_open = false; writes = λ n. some 40; sync_fails = false }

abbrev artifact : FilePath
artifact = record { parent = "/approvals"; name = "approval.json" }

reserve_all-once_example :
    (r : Store × List Reservation) × (reserve_all ((system, artifact) ∷ (system, artifact) ∷ []) []
      ≡ some r)
    × (winners (authorization_reservation_path artifact) r.1 ≤ 1)
reserve_all-once_example =
    reserve_all-once (authorization_reservation_path artifact)
      ((system, artifact) ∷ (system, artifact) ∷ []) []

abbrev reserved_marker : Reservation
reserved_marker = record {
  reserved = true;
  reservation_path = authorization_reservation_path artifact;
  refusal_reason = none;
}

abbrev marked : Store
marked = (authorization_reservation_path artifact, payload) ∷ []

artifact_reserved : reserve system artifact [] ≡ some (marked, reserved_marker)
unfolding reserve
artifact_reserved = refl

reserve_complete_example :
    (lookup (authorization_reservation_path artifact) [] ≡ none)
    × (lookup (authorization_reservation_path artifact) marked ≡ some payload)
reserve_complete_example =
    reserve_complete system artifact [] marked reserved_marker artifact_reserved refl

validate_snapshot_binding-IsApprovedSnapshot_example :
    IsApprovedSnapshot approval (gate_subject runtime decision) observed_snapshot
unfolding validate_snapshot_binding gate_subject fingerprint
validate_snapshot_binding-IsApprovedSnapshot_example =
    (validate_snapshot_binding-IsApprovedSnapshot runtime approval decision observed_snapshot).0
      refl

worktree_matched :
    (b : WorktreeBinding) × (validate_worktree_binding approval observed_worktree ≡ ok b)
    × (b.status ≡ matched)
unfolding validate_worktree_binding
worktree_matched = (_, refl, refl)

validate_worktree_binding-IsApprovedWorktree_example : IsApprovedWorktree approval observed_worktree
validate_worktree_binding-IsApprovedWorktree_example =
    (validate_worktree_binding-IsApprovedWorktree approval observed_worktree).0 worktree_matched
