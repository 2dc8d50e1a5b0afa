-- ===== src/Gate/Decision/Sections.antt =====
-- The checks of each section of a gate decision are silent exactly where the section is accepted.
use repo_health_doctor.Base.{
  String, ◌≡◌, ◌≢◌, ◌↔◌, inl, inr, refl, true, false, not, List, [], is_empty, Bool-cases,
}
use repo_health_doctor.Base.Py.{
  ok, Check, flag, flag_if, collect, flag_if-IsSilent, IsSilent, collect-IsSilent, IsSilent-collect,
}
use repo_health_doctor.Json.{
  Value, null, bool, str, dict, Fields, get, is_text, is_text-eq, closed_dict, on_dict,
  string_items, is_false, is_false-eq, count_invalid,
}
use repo_health_doctor.Json.Fingerprint.{fingerprint}
use repo_health_doctor.Json.Checks.{
  flag-not-IsSilent, flag-IsSilent_iff, not_member-IsSilent, NonEmpty-IsSilent, IsList-IsSilent,
  IsBoolean-IsSilent, closed_dict-IsSilent, IsSilent-closed_dict, not_empty,
}
use repo_health_doctor.Gate.Decision.{
  explanation_fields, evidence_summary_fields, policy_fields, subject_shape, explanation_checks,
  snapshot_checks, subject_checks, summary_checks, policy_checks,
}
use repo_health_doctor.Gate.Decision.Accepted.{IsExplanation, IsSubject, IsSummary, IsPolicy}

-- A section that must be an object, with what its two checks say.
abbrev Section : Value → List String → String → (Fields → List Check) → Type 0
Section v fields name checks = IsSilent (closed_dict v fields name) × IsSilent (on_dict v checks)

pub items-IsSilent :
    (v : Value) (m : String) → IsSilent (flag (is_empty (string_items v)) m) ↔ (string_items v ≢ [])
items-IsSilent v m = (
  λ h e. let k = (flag-IsSilent_iff _ _).0 h in let j = rw e at k in cc,
  λ n. (flag-IsSilent_iff _ _).1 (not_empty _ n),
)

pub count-IsSilent :
    (v : Value) (m : String) → IsSilent (flag_if (count_invalid v) m) ↔ (count_invalid v ≡ ok false)
count-IsSilent v m = (λ h. flag_if-IsSilent _ m h, λ e. rw e refl)

pub false-IsSilent :
    (v : Value) (m : String) → IsSilent (flag (not (is_false v)) m) ↔ (v ≡ bool false)
false-IsSilent v m = (λ h. is_false-eq v ((flag-not-IsSilent _ _).0 h), λ e. rw e refl)

pub IsExplanation-IsSilent :
    (v : Value)
    → Section v explanation_fields "explanation" explanation_checks
      ↔ ((e : Fields) × (v ≡ dict e) × IsExplanation e)
unfolding explanation_checks
IsExplanation-IsSilent v = (to, from)
  where
    to :
        Section v explanation_fields "explanation" explanation_checks
        → (e : Fields) × (v ≡ dict e) × IsExplanation e
    to (h, k) =
        let (e, same, closed) = closed_dict-IsSilent v explanation_fields "explanation" h in
        let c = collect-IsSilent (explanation_checks e) (rw same at k) in
        (
          e,
          same,
          record {
            closed = closed;
            summary = (NonEmpty-IsSilent (get "summary" e) _).0 c.0;
            key_reasons =
                (items-IsSilent (get "key_reasons" e) "explanation_key_reasons_required").0 c.1.0;
            next_actions =
                (items-IsSilent (get "next_actions" e) "explanation_next_actions_required").0
                  c.1.1.0;
          },
        )

    from :
        (e : Fields) × (v ≡ dict e) × IsExplanation e
        → Section v explanation_fields "explanation" explanation_checks
    from (e, same, p) = rw same (
      IsSilent-closed_dict e explanation_fields "explanation" p.closed,
      IsSilent-collect (explanation_checks e) (
        (NonEmpty-IsSilent _ _).1 p.summary,
        (
          (items-IsSilent (get "key_reasons" e) "explanation_key_reasons_required").1 p.key_reasons,
          (
            (items-IsSilent (get "next_actions" e) "explanation_next_actions_required").1
                p.next_actions,
            tt,
          ),
        ),
      ),
    )

pub IsSummary-IsSilent :
    (v : Value)
    → Section v evidence_summary_fields "evidence_summary" summary_checks
      ↔ ((e : Fields) × (v ≡ dict e) × IsSummary e)
unfolding summary_checks
IsSummary-IsSilent v = (to, from)
  where
    to :
        Section v evidence_summary_fields "evidence_summary" summary_checks
        → (e : Fields) × (v ≡ dict e) × IsSummary e
    to (h, k) =
        let (e, same, closed) =
          closed_dict-IsSilent v evidence_summary_fields "evidence_summary" h in
        let c = collect-IsSilent (summary_checks e) (rw same at k) in
        (
          e,
          same,
          record {
            closed = closed;
            findings_count = (count-IsSilent _ _).0 c.0;
            blocking = (IsList-IsSilent _ _).0 c.1.0;
            warning = (IsList-IsSilent _ _).0 c.1.1.0;
            missing = (IsList-IsSilent _ _).0 c.1.1.1.0;
            degraded = (IsList-IsSilent _ _).0 c.1.1.1.1.0;
          },
        )

    from :
        (e : Fields) × (v ≡ dict e) × IsSummary e
        → Section v evidence_summary_fields "evidence_summary" summary_checks
    from (e, same, p) = rw same (
      IsSilent-closed_dict e evidence_summary_fields "evidence_summary" p.closed,
      IsSilent-collect (summary_checks e) (
        (count-IsSilent _ _).1 p.findings_count,
        (
          (IsList-IsSilent _ _).1 p.blocking,
          (
            (IsList-IsSilent _ _).1 p.warning,
            ((IsList-IsSilent _ _).1 p.missing, ((IsList-IsSilent _ _).1 p.degraded, tt)),
          ),
        ),
      ),
    )

pub IsPolicy-IsSilent :
    (v : Value)
    → Section v policy_fields "policy" policy_checks ↔ ((p : Fields) × (v ≡ dict p) × IsPolicy p)
unfolding policy_checks
IsPolicy-IsSilent v = (to, from)
  where
    to : Section v policy_fields "policy" policy_checks → (p : Fields) × (v ≡ dict p) × IsPolicy p
    to (h, k) =
        let (e, same, closed) = closed_dict-IsSilent v policy_fields "policy" h in
        let c = collect-IsSilent (policy_checks e) (rw same at k) in
        (e, same, record { closed = closed; fail_closed = (IsBoolean-IsSilent _ _).0 c.0 })

    from : (p : Fields) × (v ≡ dict p) × IsPolicy p → Section v policy_fields "policy" policy_checks
    from (e, same, p) = rw same (
      IsSilent-closed_dict e policy_fields "policy" p.closed,
      IsSilent-collect (policy_checks e) ((IsBoolean-IsSilent _ _).1 p.fail_closed, tt),
    )

snapshot-IsSilent :
    (s : Fields)
    → IsSilent (collect (snapshot_checks s)) ↔ (
        get "binding_kind" s ≡ str "snapshot_bound"
        → (fingerprint (get "snapshot_id" s) ≡ true)
          × (fingerprint (get "manifest_fingerprint" s) ≡ true))
unfolding snapshot_checks
snapshot-IsSilent s = elim (Bool-cases (is_text (get "binding_kind" s) "snapshot_bound")) [
  | inl bound ↦ (
    λ h e.
        let c = collect-IsSilent (snapshot_checks s) h in
        let k = rw (bound, snapshot_checks) at c in
        ((flag-not-IsSilent _ _).0 k.0, (flag-not-IsSilent _ _).0 k.1.0),
    λ f. let (id, manifest) = f (is_text-eq _ _ bound) in rw (bound, id, manifest) refl,
  )
  | inr free ↦ (λ h e. let t = rw e at free in cc, λ f. rw free refl)
]

pub subject-IsSilent :
    (v : Value)
    → (IsSilent (subject_shape v) × IsSilent (on_dict v subject_checks))
      ↔ ((s : Fields) × (v ≡ dict s) × IsSubject s)
unfolding subject_shape subject_checks
subject-IsSilent v = (to v, from)
  where
    to :
        (w : Value)
        → IsSilent (subject_shape w) × IsSilent (on_dict w subject_checks)
        → (s : Fields) × (w ≡ dict s) × IsSubject s
    to (dict s) (h, k) =
        let c = collect-IsSilent (subject_checks s) k in
        (
          s,
          refl,
          record {
            closed = (flag-not-IsSilent _ _).0 h;
            repo = (NonEmpty-IsSilent _ _).0 c.0;
            binding_kind = (not_member-IsSilent _ _ _).0 c.1.0;
            snapshot = (snapshot-IsSilent s).0 c.1.1.0;
          },
        )
    to null (h, k) = cc
    to _ (h, k) = cc

    from :
        (s : Fields) × (v ≡ dict s) × IsSubject s
        → IsSilent (subject_shape v) × IsSilent (on_dict v subject_checks)
    from (s, same, p) = rw same (
      (flag-not-IsSilent _ _).1 p.closed,
      IsSilent-collect (subject_checks s) (
        (NonEmpty-IsSilent _ _).1 p.repo,
        ((not_member-IsSilent _ _ _).1 p.binding_kind, ((snapshot-IsSilent s).1 p.snapshot, tt)),
      ),
    )
