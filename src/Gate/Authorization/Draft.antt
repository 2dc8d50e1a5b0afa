-- ===== src/Gate/Authorization/Draft.antt =====
-- gate/authorization.py: `build_execution_authorization_draft`, the artifact before its approval.
pub mod Unapproved
use repo_health_doctor.Base.{
  String, Bool, true, false, ◌||◌, Option, none, some, List, [], ◌∷◌, ◌++◌, ◌==◌, if◌then◌else◌,
}
use repo_health_doctor.Json.{Value, null, bool, str, list, dict, Fields, Items, end, field}
use repo_health_doctor.Json.Runtime.{Runtime}
use repo_health_doctor.Gate.Authorization.Subject.{
  GateSubject, subject_dict, bound_subject, policy_version, gate_subject, gate_reference,
}
use repo_health_doctor.Gate.Authorization.Artifact.{
  authorization_kind, authorization_schema_version, text_items,
}

abbrev option_text : Option String → Value
option_text none = null
option_text (some s) = str s

-- `not expires_at`
abbrev no_text : Option String → Bool
no_text none = true
no_text (some s) = s == ""

abbrev pub draft_limitations : Option String → Option Fields → List String
draft_limitations expires_at image =
    "draft_only_not_approved"
    ∷ "not_execution_authorization_until_human_approved"
    ∷ "argv_scope_policy_and_gate_decision_must_match_exactly"
    ∷ ((if no_text expires_at then "expires_at_must_be_set_before_approval" ∷ [] else [])
        ++ (elim image [ none ↦ "authorization_not_image_bound" ∷ [] | some i ↦ [] ]))

abbrev image_field : Option Fields → Fields
image_field none = end
image_field (some image) = field "approved_image" (dict image) end

module _ (rt : Runtime) where
  unfoldable pub build_draft : Fields → List String → Option String → Option Fields → Fields
  build_draft gate argv expires_at image =
      let subject = gate_subject rt gate in
      field "authorization_kind" (str authorization_kind) (
        field "schema_version" (str authorization_schema_version) (
          field "approved" (bool false) (
            field "approved_by" null (
              field "approved_at" null (
                field "expires_at" (option_text expires_at) (
                  field "approved_scope" (dict (subject_dict subject)) (
                    field "approved_argv" (list (text_items argv)) (
                      field "approved_policy_version" (policy_version gate) (
                        field "based_on_gate_decision" (dict (gate_reference rt gate)) (
                          field "subject" (dict (bound_subject subject)) (
                            field "limitations"
                              (list (text_items (draft_limitations expires_at image)))
                              (field "residual_risks"
                                (list (
                                  text_items (
                                    "human approval required before execution"
                                    ∷ "authorization is only valid for the exact reviewed command and scope"
                                    ∷ [])))
                                (image_field image)))))))))))))
