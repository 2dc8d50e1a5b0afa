-- ===== src/Gate/Evaluator/Markers.antt =====
-- gate/evaluator.py: the tokens of an item of evidence, and the markers that are looked for in them.
use repo_health_doctor.Base.{
  String, Bool, true, ◌&&◌, ◌||◌, List, [], ◌∷◌, ◌++◌, any, has_text, contains, subset,
  if◌then◌else◌,
}
use repo_health_doctor.Base.Py.{Py, ok, raise, type_error, ◌>>=◌}
use repo_health_doctor.Json.{
  Value, str, list, dict, nil, Fields, keys, get, get_or, is_text, mapping, member, strings, items,
}
use repo_health_doctor.Json.Runtime.{Runtime, replace}

abbrev blocking_limitation_markers : List String
blocking_limitation_markers =
    "raw secret leakage" ∷ "raw host path leak" ∷ "expected commit mismatch" ∷ "approval mismatch"
    ∷ "policy violation that attempted execution without approval"
    ∷ "network allowed during target scan" ∷ "docker socket mount" ∷ "host home mount"
    ∷ "credential mount" ∷ []

abbrev quarantine_markers : List String
quarantine_markers =
    "verified_secret" ∷ "credential_access_network" ∷ "install_download_exec"
    ∷ "obfuscation_eval_network" ∷ "ci_token_abuse_chain" ∷ "pull_request_target_untrusted_checkout"
    ∷ "docker_socket_subprocess" ∷ "critical_vulnerability_runtime"
    ∷ "observer_degraded_risky_execution" ∷ []

abbrev pub warn_markers : List String
warn_markers =
    "tool unavailable" ∷ "tool output parse failed" ∷ "known_vulnerability" ∷ "low_repo_posture"
    ∷ "unsupported_scanner_version" ∷ "dirty workspace binding"
    ∷ "content digest binding without commit" ∷ []

abbrev characters : String → List String
characters String.[] = []
characters (String.◌∷◌ c s) = String.◌∷◌ c "" ∷ characters s

-- `[item for item in value if isinstance(item, str)]`: a text gives its characters, a dict its keys
abbrev pub iterated : Value → Py (List String)
iterated (list vs) = ok (strings (items vs))
iterated (str s) = ok (characters s)
iterated (dict d) = ok (keys d)
iterated _ = raise type_error

-- `[value]` for a text
abbrev pub text_in : Value → List String
text_in (str s) = s ∷ []
text_in _ = []

module _ (rt : Runtime) where
  -- `_normalize_token`
  unfoldable pub normalize_token : String → String
  normalize_token s = replace b'/' "_" (replace b' ' "_" (replace b'-' "_" (rt.lower s)))

  abbrev normalized : List String → List String
  normalized [] = []
  normalized (s ∷ ss) = normalize_token s ∷ normalized ss

  -- `_tokens`
  unfoldable pub tokens : Fields → Py (List String)
  tokens item =
      let classification = mapping (get "classification" item) in
      iterated (get_or (list nil) "limitations" (mapping (get "trust" item))) >>= λ limitations.
      iterated (get_or (list nil) "residual_risks" item) >>= λ risks. ok (
        normalized (
          text_in (get "category" classification)
          ++ (text_in (get "subcategory" classification)
              ++ (text_in (get "severity" classification)
                  ++ (text_in (get "redacted_summary" (mapping (get "finding" item)))
                      ++ (text_in (get "redaction_status" (mapping (get "raw_handling" item)))
                          ++ (text_in (get "recommended_gate_effect" (mapping (get "effects" item)))
                              ++ (limitations ++ risks))))))))

  -- `_has_any`
  unfoldable pub has_any : List String → List String → Bool
  has_any ts markers =
      any (λ marker. any (has_text (replace b' ' "_" (rt.lower marker))) ts) markers

  unfoldable pub blocking_marker : List String → Bool
  unfolding has_any
  blocking_marker ts =
      has_any ts blocking_limitation_markers
      || contains ts "raw_secret_leak"
      || contains ts "raw_host_path_leak"

  -- `_has_quarantine_signal`
  unfoldable pub quarantine_signal : List String → Fields → Bool
  unfolding has_any
  quarantine_signal ts classification =
      has_any ts quarantine_markers
      || (is_text (get "category" classification) "secret" && contains ts "verified_secret")
      || (contains ts "credential_path_reference"
          && (contains ts "network_request" || contains ts "network_attempt"))
      || subset ("install_script_execution" ∷ "download_exec_chain" ∷ []) ts
      || subset ("obfuscation" ∷ "dynamic_eval" ∷ "network_request" ∷ []) ts
      || subset ("pull_request_target_misuse" ∷ "untrusted_checkout" ∷ []) ts
      || any (λ t. has_text "pull_request_target_misuse" t && has_text "untrusted_checkout" t) ts
      || subset ("broad_token_permission" ∷ "unpinned_action" ∷ []) ts
      || subset ("docker_socket_reference" ∷ "subprocess_indicator" ∷ []) ts
      || (contains ts "known_critical_vulnerability" && contains ts "suspicious_runtime_behavior")

  -- `_has_warn_signal`
  unfoldable pub warn_signal : List String → Fields → Py Bool
  unfolding has_any
  warn_signal ts classification =
      if has_any ts warn_markers || is_text (get "category" classification) "known_vulnerability"
      then ok true
      else member ("low_repo_posture" ∷ "unsupported_scanner_version" ∷ [])
          (get "subcategory" classification)
