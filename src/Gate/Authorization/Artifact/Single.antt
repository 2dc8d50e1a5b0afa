-- ===== src/Gate/Authorization/Artifact/Single.antt =====
-- One artifact authorizes one command on the basis of one gate decision.
use repo_health_doctor.Base.{
  String, ◌≡◌, refl, true, List, [], ◌∷◌, and_true, contains, same_set, subset, eqb, length,
}
use repo_health_doctor.Json.{Value, str, dict, Fields, get, keys}
use repo_health_doctor.Json.Equality.{equal, equal_fields}
use repo_health_doctor.Json.Equality.Laws.{equal-str, equal_fields-get}
use repo_health_doctor.Json.Runtime.{Runtime}
use repo_health_doctor.Gate.Authorization.Subject.{gate_decision_fingerprint, gate_reference}
use repo_health_doctor.Gate.Authorization.Artifact.{Expected, text_items, based_on_fields}
use repo_health_doctor.Gate.Authorization.Artifact.Sound.{
  IsAuthorized, validate_execution_authorization-IsGranted,
}

text_items-injective : (xs ys : List String) → text_items xs ≡ text_items ys → xs ≡ ys
text_items-injective [] [] h = refl
text_items-injective [] (y ∷ ys) h = cc
text_items-injective (x ∷ xs) [] h = cc
text_items-injective (x ∷ xs) (y ∷ ys) h =
    let e : x ≡ y = cc in
    let t : text_items xs ≡ text_items ys = cc in let f = text_items-injective xs ys t in cc

fingerprint_at :
    (rt : Runtime) (b gate : Fields)
    → same_set (keys b) based_on_fields ≡ true
    → equal (dict b) (dict (gate_reference rt gate)) ≡ true
    → get "fingerprint" b ≡ str (gate_decision_fingerprint rt gate)
unfolding gate_reference equal
fingerprint_at rt b gate closed same =
    let all_there = (and_true (subset (keys b) based_on_fields) _ closed).1 in
    let after_kind = (and_true (contains (keys b) "decision_kind") _ all_there).1 in
    let after_version = (and_true (contains (keys b) "schema_version") _ after_kind).1 in
    let after_verdict = (and_true (contains (keys b) "verdict") _ after_version).1 in
    let there = and_true (contains (keys b) "fingerprint") true after_verdict in
    let fields =
      (and_true (eqb (length (keys b)) 4) (equal_fields b (gate_reference rt gate)) same).1 in
    equal-str _ _ (equal_fields-get b (gate_reference rt gate) "fingerprint" fields there.0)

-- An artifact that authorizes two executions authorizes the same command, on the basis of gate decisions
-- with the same fingerprint.
pub validate_execution_authorization-Single :
    (rt : Runtime) (gate other_gate : Fields) (argv other_argv : List String) (x other_x : Expected)
    (v : Value)
    → IsAuthorized rt gate argv x v
    → IsAuthorized rt other_gate other_argv other_x v
    → (argv ≡ other_argv)
      × (gate_decision_fingerprint rt gate ≡ gate_decision_fingerprint rt other_gate)
validate_execution_authorization-Single rt gate other_gate argv other_argv x other_x v h k =
    let (a, e, p) = (validate_execution_authorization-IsGranted rt gate argv x v).0 h in
    let (b, f, q) =
      (validate_execution_authorization-IsGranted rt other_gate other_argv other_x v).0 k in
    let same : a ≡ b = cc in
    let t = fingerprint_at rt _ gate p.based_on_closed p.based_on in
    let u = fingerprint_at rt _ other_gate q.based_on_closed q.based_on in
    let m = rw same at t in
    let n = rw same at p.argv_exact in
    (text_items-injective argv other_argv (let l = q.argv_exact in cc), cc)
