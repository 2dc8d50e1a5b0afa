-- ===== src/Evidence/SandboxRun/Texts.antt =====
-- evidence/sandbox_run.py: the texts that _safe_label, _safe_timestamp, _safe_image and _object_id let
-- through.
use Prim.Native.Char.{code}
use Prim.Native.String
use text.Mathlib.Text.{starts_with}
use repo_health_doctor.Base.{
  ℕ, ◌-◌, String, count, Bool, true, false, not, ◌&&◌, ◌||◌, Option, none, some, List, [], ◌∷◌,
  ◌==◌, eqb, leb, ltb, if◌then◌else◌,
}
use repo_health_doctor.Json.{Value, null, str}
use repo_health_doctor.Json.Fingerprint.{all_hex, fingerprint}
use repo_health_doctor.Sandbox.Labels.{
  observer_label, all_chars, begins, is_alphanumeric, is_observer_char,
}

is_slash : ℕ → Bool
is_slash c = eqb c 47 || eqb c 92

-- a slash at the start of the text
slash_next : String → Bool
unfolding is_slash
slash_next String.[] = false
slash_next (String.◌∷◌ c s) = is_slash (code c)

-- (?:home|Users)(?:[\\/])
user_directory : String → Bool
unfolding slash_next
user_directory s =
    (starts_with s "home" && slash_next (String.slice s 4 (String.len s)))
    || (starts_with s "Users" && slash_next (String.slice s 5 (String.len s)))

-- that, behind a slash
directory_after : String → Bool
unfolding user_directory is_slash
directory_after String.[] = false
directory_after (String.◌∷◌ c s) = (is_slash (code c) && user_directory s) || directory_after s

-- ^[A-Za-z]:[\\]
drive : String → Bool
drive (String.◌∷◌ c (String.◌∷◌ d (String.◌∷◌ e s))) =
    ((leb b'a' (code c) && leb (code c) b'z') || (leb b'A' (code c) && leb (code c) b'Z'))
    && eqb (code d) b':'
    && eqb (code e) 92
drive _ = false

-- `_UNSAFE_PATH.search`
unfoldable pub unsafe_path : String → Bool
unfolding user_directory directory_after drive
unsafe_path s = user_directory s || directory_after s || drive s

-- `value.endswith(">")`
ends_in_bracket : String → Bool
ends_in_bracket s = leb 1 (String.len s) && String.slice s (String.len s - 1) (String.len s) == ">"

abbrev pub kept_if : Bool → String → Option String
kept_if true s = some s
kept_if false s = none

unfoldable pub safe_label : Value → Option String
unfolding unsafe_path ends_in_bracket observer_label
safe_label (str s) =
    kept_if
      (not (ltb 128 (count s) || unsafe_path s)
        && ((starts_with s "<" && ends_in_bracket s) || observer_label s))
      s
safe_label _ = none

-- one of [0-9T:+.Z-]
is_timestamp_char : ℕ → Bool
is_timestamp_char c =
    (leb b'0' c && leb c b'9')
    || eqb c b'T'
    || eqb c b':'
    || eqb c b'+'
    || eqb c b'.'
    || eqb c b'Z'
    || eqb c b'-'

unfoldable pub safe_timestamp : Value → Option String
unfolding all_chars is_timestamp_char
safe_timestamp (str s) =
    kept_if (not (ltb 40 (count s)) && not (s == "") && all_chars is_timestamp_char s) s
safe_timestamp _ = none

-- one of [A-Za-z0-9._:/@+-]
is_image_char : ℕ → Bool
unfolding is_observer_char
is_image_char c = is_observer_char c || eqb c b'/' || eqb c b'@' || eqb c b'+'

unfoldable pub safe_image : Value → Option String
unfolding unsafe_path begins is_alphanumeric is_image_char
safe_image (str s) = kept_if (not (unsafe_path s) && begins is_alphanumeric is_image_char 255 s) s
safe_image _ = none

-- `_OBJECT_ID.fullmatch`: 40 or 64 hexadecimal digits
unfoldable pub object_id : Value → Option String
unfolding all_hex
object_id (str s) = kept_if ((eqb (count s) 40 || eqb (count s) 64) && all_hex s) s
object_id _ = none

-- `_first_fingerprint`
unfoldable pub first_fingerprint : List Value → Option String
unfolding fingerprint
first_fingerprint [] = none
first_fingerprint (str s ∷ vs) =
    let rest = first_fingerprint vs in if fingerprint (str s) then some s else rest
first_fingerprint (v ∷ vs) = first_fingerprint vs

-- `_SAFE_LABEL.fullmatch` of a text
unfoldable pub label_of : Value → Option String
unfolding observer_label
label_of (str s) = kept_if (observer_label s) s
label_of _ = none

-- `a or b`, of texts that are not empty
abbrev pub or_else : Option String → Option String → Option String
or_else none b = b
or_else (some a) b = some a

abbrev pub or_text : Option String → String → String
or_text none t = t
or_text (some s) t = s

abbrev pub or_null : Option String → Value
or_null none = null
or_null (some s) = str s
