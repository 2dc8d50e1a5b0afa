-- ===== src/Gate/Authorization/Draft/Unapproved.antt =====
-- A draft is not an authorization.
use repo_health_doctor.Base.{String, ap, ◌≡◌, true, false, List, Option}
use repo_health_doctor.Json.{bool, dict, Fields, get}
use repo_health_doctor.Json.Runtime.{Runtime}
use repo_health_doctor.Gate.Authorization.Artifact.{Expected}
use repo_health_doctor.Gate.Authorization.Artifact.Sound.{
  IsAuthorized, validate_execution_authorization-IsGranted,
}
use repo_health_doctor.Gate.Authorization.Draft.{build_draft}

-- A draft authorizes no execution as it stands: whatever the gate decision, the argv, the expiry and the
-- image it is built from, and whatever it is checked against.
pub build_draft-unauthorized :
    (rt : Runtime) (gate : Fields) (argv : List String) (expires_at : Option String)
    (image : Option Fields)
    → (other_gate : Fields) (other_argv : List String) (x : Expected)
    → ¬ (IsAuthorized rt other_gate other_argv x (dict (build_draft rt gate argv expires_at image)))
unfolding build_draft
build_draft-unauthorized rt gate argv expires_at image other_gate other_argv x h =
    let (a, same, granted) =
      (validate_execution_authorization-IsGranted rt other_gate other_argv x _).0 h in
    refused a same granted.approved
  where
    refused :
        (a : Fields)
        → dict (build_draft rt gate argv expires_at image) ≡ dict a
        → get "approved" a ≡ bool true
        → ⊥
    refused a same k =
        let e : build_draft rt gate argv expires_at image ≡ a = cc in
        let j = ap (get "approved") e in let q : false ≡ true = cc in cc
