-- ===== src/Sandbox/Labels.antt =====
-- The patterns of sandbox/behavior_policy.py and sandbox/observer_evidence.py: each is matched against
-- the whole text, and each of its characters is ASCII, so that bytes and characters are counted alike.
use Prim.Native.Char.{code}
use Prim.Native.String
use text.Mathlib.Text.{starts_with}
use repo_health_doctor.Base.{
  ℕ, String, count, Bool, true, false, ◌&&◌, ◌||◌, eqb, leb, ◌≡◌, refl, [], ◌∷◌, any, if◌then◌else◌,
}
use repo_health_doctor.Json.Fingerprint.{all_hex}

is_digit : ℕ → Bool
is_digit c = leb b'0' c && leb c b'9'

is_upper : ℕ → Bool
is_upper c = leb b'A' c && leb c b'Z'

unfoldable pub is_alphanumeric : ℕ → Bool
unfolding is_digit is_upper
is_alphanumeric c = is_digit c || is_upper c || (leb b'a' c && leb c b'z')

-- one of [A-Za-z0-9._-]
is_label_char : ℕ → Bool
unfolding is_alphanumeric
is_label_char c = is_alphanumeric c || eqb c b'.' || eqb c b'_' || eqb c b'-'

-- one of [A-Za-z0-9._:-]
unfoldable pub is_observer_char : ℕ → Bool
unfolding is_label_char
is_observer_char c = is_label_char c || eqb c b':'

-- one of [A-Z0-9_]
is_env_char : ℕ → Bool
unfolding is_upper is_digit
is_env_char c = is_upper c || is_digit c || eqb c b'_'

unfoldable pub all_chars : (ℕ → Bool) → String → Bool
all_chars p String.[] = true
all_chars p (String.◌∷◌ c s) = p (code c) && all_chars p s

-- A first character, then at most `limit` others.
unfoldable pub begins : (ℕ → Bool) → (ℕ → Bool) → ℕ → String → Bool
unfolding all_chars
begins first other limit String.[] = false
begins first other limit (String.◌∷◌ c s) =
    first (code c) && all_chars other s && leb (count s) limit

-- `_SAFE_LABEL`, `_LABEL` and `_SAFE_ENV`
unfoldable pub safe_label : String → Bool
unfolding begins is_alphanumeric is_label_char
safe_label s = begins is_alphanumeric is_label_char 63 s

unfoldable pub observer_label : String → Bool
unfolding begins is_alphanumeric is_observer_char
observer_label s = begins is_alphanumeric is_observer_char 127 s

unfoldable pub safe_env : String → Bool
unfolding begins is_upper is_env_char
safe_env s = begins is_upper is_env_char 63 s

-- `re.fullmatch(r"behavior-policy:sha256:[0-9a-f]{64}", s)`
unfoldable pub policy_id_text : String → Bool
unfolding all_hex
policy_id_text s =
    starts_with s "behavior-policy:sha256:"
    && eqb (count s) 87
    && all_hex (String.slice s 23 (String.len s))

-- (?:/[^.][^/]*)* after a name: where the text stands in a group
pub data Position : Type 0 where
  inside after_slash : Position

segments : Position → String → Bool
segments inside String.[] = true
segments after_slash String.[] = false
segments inside (String.◌∷◌ c s) = segments (if eqb (code c) b'/' then after_slash else inside) s
segments after_slash (String.◌∷◌ c s) =
    let rest = segments inside s in if eqb (code c) b'.' then false else rest

-- the groups follow `head` at once, or there are none
groups : String → Bool
unfolding segments
groups String.[] = true
groups (String.◌∷◌ c s) = eqb (code c) b'/' && segments after_slash s

under : String → String → Bool
unfolding groups
under s head = starts_with s head && groups (String.slice s (count head) (String.len s))

-- ^/(?:workspace|tmp/(?:home|npm-cache|pip-cache|xdg-cache|tmp))(?:/[^.][^/]*)*$
unfoldable pub write_prefix : String → Bool
unfolding under
write_prefix s = any (under s) (
    "/workspace" ∷ "/tmp/home" ∷ "/tmp/npm-cache" ∷ "/tmp/pip-cache" ∷ "/tmp/xdg-cache" ∷ "/tmp/tmp"
    ∷ [])

label_tests :
    (safe_label "python3.12" ≡ true)
    × (safe_label "-python" ≡ false)
    × (safe_label "" ≡ false)
    × (observer_label "run:1" ≡ true)
    × (safe_env "PYTHONPATH" ≡ true)
    × (safe_env "1PATH" ≡ false)
    × (write_prefix "/workspace/src/lib" ≡ true)
    × (write_prefix "/workspace/.git" ≡ false)
    × (write_prefix "/workspaces" ≡ false)
    × (write_prefix "/tmp" ≡ false)
unfolding safe_label observer_label safe_env write_prefix begins all_chars is_alphanumeric
    is_label_char is_digit is_upper is_observer_char is_env_char under groups segments
label_tests = (refl, refl, refl, refl, refl, refl, refl, refl, refl, refl)
