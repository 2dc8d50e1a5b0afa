-- ===== src/Sandbox/Docker/Image.antt =====
-- sandbox/docker.py: evaluate_image_policy. What `docker image inspect` answers is an argument.
use Prim.Native.String
use repo_health_doctor.Base.{
  ◌≡◌, refl, String, ◌-◌, count, Bool, true, false, not, ◌&&◌, ◌||◌, Option, none, some, List, [],
  ◌∷◌, ◌==◌, leb, if◌then◌else◌, has_text,
}
use repo_health_doctor.Base.Int.{ℤ, pos}
use repo_health_doctor.Json.{Value, null, str, list, cons, dict, get, has_key, is_text, is_num, int}
use repo_health_doctor.Json.Fingerprint.{fingerprint}

unfoldable pub is_digest_pinned : String → Bool
is_digest_pinned image_reference = has_text "@sha256:" image_reference

-- `FULL_IMAGE_ID_PATTERN.fullmatch(image_id)`
abbrev pub is_full_image_id : String → Bool
is_full_image_id image_id = fingerprint (str image_id)

-- `image_reference == "latest" or image_reference.endswith(":latest")`
unfoldable pub is_latest : String → Bool
is_latest s =
    s == "latest"
    || (leb 7 (count s) && String.slice s (String.len s - 7) (String.len s) == ":latest")

-- The process could not be run, or ended with a code and a text that `json.loads` reads or refuses.
pub data Inspection : Type 0 where
  unavailable : Inspection
  finished : ℤ → Option Value → Inspection

pub record ImagePolicy : Type 0 where
  pub image_reference_kind : String
  pub actual_image_id : Value
  pub image_id_match : Bool
  pub local_sanctioned : Bool
  pub local_sanctioned_limitations : List String
  pub decision : String
  pub execution_allowed : Bool
  pub limitations : List String

-- the policy as it stands at a refusal
abbrev pub refused : Bool → Value → List String → ImagePolicy
refused explicitly actual limitations = record {
  image_reference_kind = "tag_only_rejected";
  actual_image_id = actual;
  image_id_match = false;
  local_sanctioned = false;
  local_sanctioned_limitations = [];
  decision = if explicitly then "rejected" else "gated";
  execution_allowed = false;
  limitations = limitations;
}

abbrev pub digest_accepted : ImagePolicy
digest_accepted = record {
  image_reference_kind = "registry_digest";
  actual_image_id = null;
  image_id_match = true;
  local_sanctioned = false;
  local_sanctioned_limitations = [];
  decision = "accepted";
  execution_allowed = true;
  limitations = [];
}

abbrev pub portability : String
portability =
    "Local sanctioned image acceptance depends on a matching local daemon image ID and is less portable and reproducible than a registry digest reference."

abbrev pub local_accepted : Value → ImagePolicy
local_accepted actual = record {
  image_reference_kind = "local_sanctioned_image";
  actual_image_id = actual;
  image_id_match = true;
  local_sanctioned = true;
  local_sanctioned_limitations =
      portability
      ∷ "Sandbox execution still forbids implicit image pulls and continues to use --pull=never."
      ∷ [];
  decision = "accepted";
  execution_allowed = true;
  limitations = portability ∷ [];
}

-- `payload[0]["Id"]`; what has none raises, and is caught
abbrev pub first_id : Value → Option Value
first_id (list (cons (dict d) vs)) = if has_key "Id" d then some (get "Id" d) else none
first_id _ = none

-- the ID read, compared with the one that is expected
unfoldable pub compare_id : String → Option Value → ImagePolicy
compare_id expected none =
    refused true null ("Local sanctioned image inspection returned an unreadable image ID." ∷ [])
compare_id expected (some actual) =
    if is_text actual expected
    then local_accepted actual
    else refused true actual
        ("Local sanctioned image ID did not match the expected full image ID." ∷ [])

abbrev pub read_id : Option Value → Option Value
read_id none = none
read_id (some payload) = first_id payload

unfoldable pub inspected : String → Inspection → ImagePolicy
unfolding compare_id
inspected expected unavailable =
    refused true null
      ("Local sanctioned image could not be inspected through the local Docker daemon." ∷ [])
inspected expected (finished code payload) =
    if not (is_num (int code) (pos 0))
    then refused true null
        ("Local sanctioned image could not be inspected through the local Docker daemon." ∷ [])
    else compare_id expected (read_id payload)

unfoldable pub with_expected : Option String → Inspection → ImagePolicy
unfolding inspected fingerprint
with_expected none inspection =
    refused true null (
      "Local sanctioned images require an expected full image ID before execution can proceed."
      ∷ [])
with_expected (some expected) inspection =
    if not (is_full_image_id expected)
    then refused true null
        ("Expected local image ID must be a full sha256:<64 lowercase hex> value." ∷ [])
    else inspected expected inspection

unfoldable pub evaluate_image_policy :
    String → Bool → Bool → Option String → Inspection → ImagePolicy
unfolding is_digest_pinned is_latest with_expected
evaluate_image_policy reference explicitly_selected allow_local_image expected inspection =
    if is_digest_pinned reference
    then digest_accepted
    else if not explicitly_selected
    then refused false null (
        "Default selected Docker image is not digest-pinned; execution remains gated until a digest-pinned or sanctioned local image is provided."
        ∷ [])
    else if not allow_local_image
    then refused true null (
        "Non-digest Docker images remain rejected unless local image use is explicitly allowed with a matching full expected image ID."
        ∷ [])
    else if is_latest reference
    then refused true null ("latest-tag images cannot be sanctioned for sandbox execution." ∷ [])
    else with_expected expected inspection

latest_tests :
    (is_latest "latest" ≡ true) × (is_latest "a:latest" ≡ true) × (is_latest "a:latest2" ≡ false)
unfolding is_latest
latest_tests = (refl, refl, refl)
