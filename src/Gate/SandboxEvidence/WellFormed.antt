-- ===== src/Gate/SandboxEvidence/WellFormed.antt =====
-- What a report is of which _validate_source_shape reports nothing.
use repo_health_doctor.Base.{
  String, ◌≡◌, refl, Bool, true, false, not, ◌&&◌, inl, inr, ◌⊎◌, List, [], ◌∷◌, ◌++◌, All,
  All-left, All-right, Bool-cases, not-false, subset,
}
use repo_health_doctor.Base.Int.{ℤ}
use repo_health_doctor.Json.{
  Value, null, bool, int, str, Fields, get, keys, is_bool, is_dict, is_false-eq, is_null, is_str,
  is_text, is_text-eq, mapping,
}
use repo_health_doctor.Sandbox.Guards.{list_of}
use repo_health_doctor.Json.Checks.{IsText, IsBoolean}
use repo_health_doctor.Gate.Evaluator.Candidates.{flagged-eq-nil}
use repo_health_doctor.Gate.Evaluator.SandboxRuns.{neither}
use repo_health_doctor.Gate.SandboxEvidence.Shape.{
  object_fields, required_fields, allowed_fields, is_whole, each_field, head_flags, object_flags,
  switch_flags, code_flags, last_flags, shape_flags, source_shape_errors,
}

abbrev pub IsTexts : Value → Type 0
IsTexts v = list_of is_str v ≡ true

-- An int that is no bool.
abbrev pub IsWhole : Value → Type 0
IsWhole v = (n : ℤ) × (v ≡ int n)

-- A source report of the closed form that the gate asks for.
pub record IsWellFormed (d : Fields) : Type 0 where
  pub complete : subset required_fields (keys d) ≡ true
  pub closed : subset (keys d) allowed_fields ≡ true
  pub schema_version : get "schema_version" d ≡ str "0.1-draft"
  pub report_kind : get "report_kind" d ≡ str "sandbox_run"
  pub kind : get "kind" d ≡ str "sandbox_run"
  pub tool : get "tool" d ≡ str "repo-health-doctor"
  pub experimental : IsBoolean (get "experimental" d)
  pub objects : All (λ k. is_dict (get k d) ≡ true) object_fields
  pub policy_blocked : IsBoolean (get "policy_blocked" d)
  pub command_started : IsBoolean (get "command_started" d)
  pub command_exit_code : (get "command_exit_code" d ≡ null) ⊎ IsWhole (get "command_exit_code" d)
  pub block_reason : (get "block_reason" d ≡ null) ⊎ IsText (get "block_reason" d)
  pub sandbox_exit_code : IsWhole (get "sandbox_exit_code" d)
  pub limitations : IsTexts (get "limitations" d)
  pub next_actions : IsTexts (get "next_actions" d)
  pub safety_statement : IsText (get "safety_statement" d)
  pub unpersisted :
      get "raw_stdout_stderr_persisted" (mapping (get "output_summary" d)) ≡ bool false

abbrev Unset : Bool × String → Type 0
Unset f = f.0 ≡ false

each_field-All :
    (test : Value → Bool) (suffix : String) (ks : List String) (d : Fields)
    → All Unset (each_field test suffix ks d)
    → All (λ k. test (get k d) ≡ true) ks
each_field-All test suffix [] d h = tt
each_field-All test suffix (k ∷ ks) d (e, h) = (not-false _ e, each_field-All test suffix ks d h)

is_bool-IsBoolean : (v : Value) → is_bool v ≡ true → IsBoolean v
is_bool-IsBoolean (bool b) h = (b, refl)
is_bool-IsBoolean null h = cc
is_bool-IsBoolean _ h = cc

is_str-IsText : (v : Value) → is_str v ≡ true → IsText v
is_str-IsText (str s) h = (s, refl)
is_str-IsText null h = cc
is_str-IsText _ h = cc

is_whole-IsWhole : (v : Value) → is_whole v ≡ true → IsWhole v
is_whole-IsWhole (int n) h = (n, refl)
is_whole-IsWhole null h = cc
is_whole-IsWhole (bool b) h = cc
is_whole-IsWhole _ h = cc

is_null-eq : (v : Value) → is_null v ≡ true → v ≡ null
is_null-eq null h = refl
is_null-eq (bool b) h = cc
is_null-eq _ h = cc

-- null, or a value that passes a test
null_or :
    {P : Value → Type 0} (test : Value → Bool) (v : Value)
    → ((w : Value) → test w ≡ true → P w)
    → (not (is_null v) && not (test v)) ≡ false
    → (v ≡ null) ⊎ P v
null_or test v f h = elim (Bool-cases (is_null v)) [
  | inl e ↦ inl (is_null-eq v e)
  | inr e ↦ inr (f v (not-false _ (rw e at h)))
]

kept_false : (a b : Bool) → a ≡ true → (a && not b) ≡ false → b ≡ true
kept_false true true e h = refl
kept_false true false e h = cc
kept_false false b e h = cc

pub source_shape_errors-IsWellFormed : (d : Fields) → source_shape_errors d ≡ [] → IsWellFormed d
unfolding source_shape_errors
source_shape_errors-IsWellFormed d h =
    let fs = flagged-eq-nil (shape_flags d) h in
    let (incomplete, unclosed) = neither (not (subset required_fields (keys d))) _ fs.0 in
    let (other_kind, other) =
      neither (not (is_text (get "report_kind" d) "sandbox_run")) _ fs.1.1.0 in
    let h0 =
      All-right Unset (head_flags d)
        (object_flags d ++ (switch_flags d ++ (code_flags d ++ last_flags d))) fs in
    let h1 =
      All-right Unset (object_flags d) (switch_flags d ++ (code_flags d ++ last_flags d)) h0 in
    let o =
      each_field-All is_dict "_must_be_object" object_fields d
        (All-left Unset (object_flags d) (switch_flags d ++ (code_flags d ++ last_flags d)) h0) in
    let b =
      each_field-All is_bool "_must_be_boolean" ("policy_blocked" ∷ "command_started" ∷ []) d
        (All-left Unset (switch_flags d) (code_flags d ++ last_flags d) h1) in
    let h2 = All-right Unset (switch_flags d) (code_flags d ++ last_flags d) h1 in
    record {
      complete = not-false _ incomplete;
      closed = not-false _ unclosed;
      schema_version = is_text-eq _ _ (not-false _ fs.1.0);
      report_kind = is_text-eq _ _ (not-false _ other_kind);
      kind = is_text-eq _ _ (not-false _ other);
      tool = is_text-eq _ _ (not-false _ fs.1.1.1.0);
      experimental = is_bool-IsBoolean _ (not-false _ fs.1.1.1.1.0);
      objects = o;
      policy_blocked = is_bool-IsBoolean _ b.0;
      command_started = is_bool-IsBoolean _ b.1.0;
      command_exit_code = null_or is_whole _ is_whole-IsWhole h2.0;
      block_reason = null_or is_str _ is_str-IsText h2.1.0;
      sandbox_exit_code = is_whole-IsWhole _ (not-false _ h2.1.1.0);
      limitations = not-false _ h2.1.1.1.0;
      next_actions = not-false _ h2.1.1.1.1.0;
      safety_statement = is_str-IsText _ (not-false _ h2.1.1.1.1.1.0);
      unpersisted =
          is_false-eq _ (kept_false _ _ (o.1.1.1.1.1.1.1.1.1.1.1.1.1.1.1.0) h2.1.1.1.1.1.1.0);
    }
