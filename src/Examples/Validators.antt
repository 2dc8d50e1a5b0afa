-- ===== src/Examples/Validators.antt =====
-- The validators of evidence and of gate decisions, run on samples.
use repo_health_doctor.Base.{◌≡◌, refl}
use repo_health_doctor.Base.Py.{Raises}
use repo_health_doctor.Json.{dict, Fields}
use repo_health_doctor.Json.Fingerprint.{fingerprint}
use repo_health_doctor.Json.RawPath.{contains_raw_host_path}
use repo_health_doctor.Evidence.Validation.{validate_evidence}
use repo_health_doctor.Evidence.Validation.Accepted.{IsAccepted}
use repo_health_doctor.Evidence.Validation.Sound.{IsValid, validate_evidence-IsAccepted}
use repo_health_doctor.Evidence.Validation.Raises.{validate_evidence-Raises}
use repo_health_doctor.Gate.Decision.{validate_gate_decision}
use repo_health_doctor.Gate.Decision.Accepted.{IsWellFormed}
use repo_health_doctor.Gate.Decision.Sound.{
  IsValid as IsValidDecision, validate_gate_decision-IsWellFormed,
}
use repo_health_doctor.Examples.Artifacts.{
  runtime, finding, broken_finding, evidence_with, decision,
}

evidence-IsValid : IsValid (dict (evidence_with finding "untrusted_import" "warn"))
unfolding validate_evidence contains_raw_host_path fingerprint
evidence-IsValid = (_, refl, refl)

validate_evidence-IsAccepted_example :
    (d : Fields) × (dict (evidence_with finding "untrusted_import" "warn") ≡ dict d) × IsAccepted d
validate_evidence-IsAccepted_example =
    (validate_evidence-IsAccepted (dict (evidence_with finding "untrusted_import" "warn"))).0
      evidence-IsValid

validate_evidence-Raises_example :
    Raises (validate_evidence (dict (evidence_with broken_finding "untrusted_import" "warn")))
validate_evidence-Raises_example =
    validate_evidence-Raises (evidence_with broken_finding "untrusted_import" "warn") broken_finding
      refl refl refl

decision-IsValid : IsValidDecision runtime (dict decision)
unfolding validate_gate_decision fingerprint
decision-IsValid = (_, refl, refl)

validate_gate_decision-IsWellFormed_example :
    (d : Fields) × (dict decision ≡ dict d) × IsWellFormed runtime d
validate_gate_decision-IsWellFormed_example =
    (validate_gate_decision-IsWellFormed runtime (dict decision)).0 decision-IsValid
