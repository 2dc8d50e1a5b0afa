-- ===== src/Gate/Evaluator/Total.antt =====
-- The evaluator raises nothing on valid evidence.
use repo_health_doctor.Base.{
  String, ◌≡◌, ◌≢◌, refl, true, ◌||◌, List, [], ◌∷◌, Memᴰ, Bool-cases, inl, inr, ◌==◌,
}
use repo_health_doctor.Base.Py.{Py, ◌>>=◌, Returns}
use repo_health_doctor.Json.{
  Value, null, str, list, nil, dict, Items, Fields, end, field, get, get_or, is_text, mapping,
  member, string_items,
}
use repo_health_doctor.Json.Checks.{IsList}
use repo_health_doctor.Json.Runtime.{Runtime}
use repo_health_doctor.Evidence.Validation.{validate_evidence, low_trust_levels}
use repo_health_doctor.Evidence.Validation.Accepted.{IsAccepted}
use repo_health_doctor.Evidence.Validation.Sound.{IsValid, validate_evidence-IsAccepted}
use repo_health_doctor.Gate.Evaluator.Markers.{iterated, tokens, warn_signal, has_any, warn_markers}
use repo_health_doctor.Gate.Evaluator.{
  Tally, bound_kinds, evaluate_item, absorb, evaluate_items, start, not_accepted, evaluate_verdict,
}

-- The three lists of names that the policy may have are lists, where it has them.
pub record IsReadable (policy : Fields) : Type 0 where
  pub missing : IsList (get_or (list nil) "missing_evidence" policy)
  pub mandatory : IsList (get_or (list nil) "mandatory_evidence" policy)
  pub accepted : IsList (get_or (list nil) "accepted_missing_evidence" policy)

bind-Returns {ℓ κ} :
    {A : Type ℓ} {B : Type κ} (m : Py A) (f : A → Py B)
    → Returns m
    → ((a : A) → Returns (f a))
    → Returns (m >>= f)
bind-Returns m f (a, e) k = let (b, q) = k a in (b, rw e q)

member-Returns : (set : List String) (v : Value) (s : String) → v ≡ str s → Returns (member set v)
member-Returns set v s e = rw e (_, refl)

iterated-Returns : (v : Value) → IsList v → Returns (iterated v)
iterated-Returns v (vs, e) = rw e (_, refl)

items-IsList : (v : Value) → string_items v ≢ [] → IsList v
items-IsList (list vs) n = (vs, refl)
items-IsList null n = absurd (n refl)
items-IsList _ n = absurd (n refl)

get_or-list :
    (w : Value) (k : String) (d : Fields) (vs : Items) → get k d ≡ list vs → get_or w k d ≡ list vs
get_or-list w k end vs h = cc
get_or-list w k (field j v d) vs h = elim (Bool-cases (j == k)) [
  | inl e ↦ rw e (rw e at h)
  | inr e ↦ rw e (get_or-list w k d vs (rw e at h))
]

get_or-IsList : (k : String) (d : Fields) → IsList (get k d) → IsList (get_or (list nil) k d)
get_or-IsList k d (vs, e) = (vs, get_or-list (list nil) k d vs e)

module _ (rt : Runtime) (policy : Fields) where
  tokens-Returns : (item : Fields) → IsAccepted item → Returns (tokens rt item)
  unfolding tokens
  tokens-Returns item p =
      let s = p.sections in
      let limits : IsList (get_or (list nil) "limitations" (mapping (get "trust" item))) =
        rw s.trust_at (get_or-IsList "limitations" s.trust (items-IsList _ p.trust.limitations)) in
      bind-Returns (iterated (get_or (list nil) "limitations" (mapping (get "trust" item)))) _
        (iterated-Returns _ limits)
        (λ limitations.
          bind-Returns (iterated (get_or (list nil) "residual_risks" item)) _
            (iterated-Returns _ (get_or-IsList "residual_risks" item p.residual_risks))
            (λ risks. (_, refl)))

  warn_signal-Returns :
      (ts : List String) (c : Fields) (s : String)
      → get "subcategory" c ≡ str s
      → Returns (warn_signal rt ts c)
  unfolding warn_signal
  warn_signal-Returns ts c s e =
      elim (Bool-cases
        (has_any rt ts warn_markers || is_text (get "category" c) "known_vulnerability")) [
          | inl k ↦ rw k (true, refl)
          | inr k ↦
              rw k (member-Returns ("low_repo_posture" ∷ "unsupported_scanner_version" ∷ []) _ s e)
        ]

  evaluate_item-Returns :
      (item : Fields)
      → IsValid (dict item)
      → IsAccepted item
      → Returns (evaluate_item rt policy item)
  unfolding evaluate_item
  evaluate_item-Returns item (r, h, _) p =
      let s = p.sections in
      bind-Returns (validate_evidence (dict item)) _ (r, h)
        (λ validation.
          bind-Returns
            (member ("sandbox_observer" ∷ "docker_isolated" ∷ [])
              (get "execution_mode" (mapping (get "source" item))))
            _
            (member-Returns ("sandbox_observer" ∷ "docker_isolated" ∷ []) _ p.source.mode.0
              (rw s.source_at p.source.mode.1))
            (λ runtime.
              bind-Returns (member bound_kinds (get "binding_kind" (mapping (get "subject" item))))
                _
                (member-Returns bound_kinds _ p.subject.binding.0
                  (rw s.subject_at p.subject.binding.1))
                (λ bound.
                  bind-Returns (member low_trust_levels (get "level" (mapping (get "trust" item))))
                    _
                    (member-Returns low_trust_levels _ p.trust.level.0
                      (rw s.trust_at p.trust.level.1))
                    (λ trusted_little.
                      bind-Returns (tokens rt item) _ (tokens-Returns item p) (λ ts.
                        bind-Returns (warn_signal rt ts (mapping (get "classification" item))) _
                          (warn_signal-Returns ts _ p.classification.subcategory.0
                            (rw s.classification_at p.classification.subcategory.1))
                          (λ warns. (_, refl)))))))

  evaluate_items-Returns :
      (items : List Fields) (t : Tally)
      → ((item : Fields) → Memᴰ item items → IsValid (dict item))
      → Returns (evaluate_items rt policy items t)
  unfolding evaluate_items
  evaluate_items-Returns [] t valid = (t, refl)
  evaluate_items-Returns (item ∷ rest) t valid =
      let v = valid item (Memᴰ.head refl) in
      let (d, same, p) = (validate_evidence-IsAccepted (dict item)).0 v in
      let q : item ≡ d = cc in
      bind-Returns (evaluate_item rt policy item) _ (evaluate_item-Returns item v (rw q p))
        (λ u. evaluate_items-Returns rest (absorb rt policy t u) (λ i m. valid i (Memᴰ.tail m)))

  not_accepted-Returns :
      (names : List String) → IsReadable policy → Returns (not_accepted rt policy names)
  not_accepted-Returns [] p = ([], refl)
  not_accepted-Returns (name ∷ names) p =
      bind-Returns (iterated (get_or (list nil) "accepted_missing_evidence" policy)) _
        (iterated-Returns _ p.accepted) (λ accepted. (_, refl))

  -- Where every item of evidence is valid and the policy's lists of names are lists, evaluate_gate_decision
  -- reaches a verdict: it raises nothing, whatever the candidates of the reports are.
  pub evaluate_verdict-Returns :
      (items : List Fields) (reported : List String)
      → IsReadable policy
      → ((item : Fields) → Memᴰ item items → IsValid (dict item))
      → Returns (evaluate_verdict rt policy items reported)
  unfolding evaluate_verdict
  evaluate_verdict-Returns items reported p valid =
      bind-Returns (iterated (get_or (list nil) "missing_evidence" policy)) _
        (iterated-Returns _ p.missing)
        (λ known.
          bind-Returns (evaluate_items rt policy items (start rt policy items)) _
            (evaluate_items-Returns items _ valid)
            (λ t.
              bind-Returns (iterated (get_or (list nil) "mandatory_evidence" policy)) _
                (iterated-Returns _ p.mandatory)
                (λ mandatory.
                  bind-Returns (not_accepted rt policy mandatory) _
                    (not_accepted-Returns mandatory p)
                    (λ missing_mandatory.
                      bind-Returns (not_accepted rt policy _) _ (not_accepted-Returns _ p)
                        (λ missing. (_, refl))))))
