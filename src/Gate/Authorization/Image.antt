-- ===== src/Gate/Authorization/Image.antt =====
-- sandbox/image_binding.py and the image binding of gate/authorization.py.
use Prim.Native.Char.{code}
use repo_health_doctor.Base.{
  ℕ, zero, suc, String, Bool, true, false, not, ◌&&◌, ◌||◌, Option, none, some, List, [], ◌∷◌, ◌++◌,
  eqb, leb, if◌then◌else◌, same_set,
}
use repo_health_doctor.Json.{Value, str, dict, keys, get, is_text}
use repo_health_doctor.Json.Fingerprint.{fingerprint}

is_lower_or_digit : ℕ → Bool
is_lower_or_digit c = (leb b'a' c && leb c b'z') || (leb b'0' c && leb c b'9')

-- [a-z0-9./:_-]
is_name_char : ℕ → Bool
unfolding is_lower_or_digit
is_name_char c =
    is_lower_or_digit c || eqb c b'.' || eqb c b'/' || eqb c b':' || eqb c b'_' || eqb c b'-'

-- at most `room` name characters, then "@" and a digest
name_then_digest : ℕ → String → Bool
unfolding is_name_char
name_then_digest room String.[] = false
name_then_digest zero (String.◌∷◌ c s) = eqb (code c) b'@' && fingerprint (str s)
name_then_digest (suc room) (String.◌∷◌ c s) =
    let rest = name_then_digest room s in
    if eqb (code c) b'@' then fingerprint (str s) else is_name_char (code c) && rest

-- `_IMAGE_REFERENCE.fullmatch(value)`, ^[a-z0-9][a-z0-9./:_-]{0,255}@sha256:[0-9a-f]{64}$
unfoldable pub is_digest_pinned_authorization_reference : Value → Bool
unfolding name_then_digest is_lower_or_digit
is_digest_pinned_authorization_reference (str String.[]) = false
is_digest_pinned_authorization_reference (str (String.◌∷◌ c s)) =
    is_lower_or_digit (code c) && name_then_digest 255 s
is_digest_pinned_authorization_reference _ = false

-- `_FULL_IMAGE_ID.fullmatch(value)`, ^sha256:[0-9a-f]{64}$
abbrev pub is_full_local_image_id : Value → Bool
is_full_local_image_id v = fingerprint v

abbrev pub approved_image_fields : List String
approved_image_fields = "requested_reference" ∷ "resolved_image_id" ∷ []

-- What `_validate_image_binding` appends, and the two matches that it returns.
pub record ImageBinding : Type 0 where
  pub errors : List String
  pub reference_matches : Bool
  pub id_matches : Bool

abbrev pub when : Bool → String → List String
when true message = message ∷ []
when false message = []

-- `runtime == value`, for an optional string
abbrev pub option_is : Option String → Value → Bool
option_is none v = false
option_is (some s) v = is_text v s

-- the runtime image ID, where it has the shape of one
abbrev pub resolved_id : Option String → Option String
resolved_id none = none
resolved_id (some s) = if is_full_local_image_id (str s) then some s else none

unfoldable pub id_errors : Option String → Value → List String
id_errors runtime resolved = elim (resolved_id runtime) [
  | none ↦ "runtime_image_id_unresolved" ∷ []
  | some s ↦ when (not (is_text resolved s)) "approved_image_id_mismatch"
]

unfoldable pub validate_image_binding : Value → Option String → Option String → ImageBinding
validate_image_binding (dict image) runtime_reference runtime_id =
    let requested = get "requested_reference" image in
    let resolved = get "resolved_image_id" image in
    if same_set (keys image) approved_image_fields
    then record {
      errors =
          when (not (is_digest_pinned_authorization_reference requested))
            "approved_image_digest_unpinned"
          ++ (when (not (option_is runtime_reference requested)) "approved_image_reference_mismatch"
              ++ (id_errors runtime_id resolved
                  ++ when (not (is_full_local_image_id resolved)) "approved_image_id_mismatch"));
      reference_matches = option_is runtime_reference requested;
      id_matches = option_is (resolved_id runtime_id) resolved && is_full_local_image_id resolved;
    }
    else record {
      errors = "authorization_approved_image_invalid" ∷ [];
      reference_matches = false;
      id_matches = false;
    }
validate_image_binding _ runtime_reference runtime_id = record {
  errors = "authorization_approved_image_invalid" ∷ [];
  reference_matches = false;
  id_matches = false;
}
