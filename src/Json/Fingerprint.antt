-- ===== src/Json/Fingerprint.antt =====
-- `_is_fingerprint` (evidence/validation.py, gate/validation.py and gate/authorization.py): the text
-- "sha256:" and 64 hexadecimal digits in lower case.
use Prim.Native.Char.{code}
use Prim.Native.String
use text.Mathlib.Text.{starts_with}
use repo_health_doctor.Base.{ℕ, String, count, Bool, true, false, ◌&&◌, ◌||◌, eqb, leb}
use repo_health_doctor.Json.{Value, str}

pub is_hex_digit : ℕ → Bool
is_hex_digit c = (leb b'0' c && leb c b'9') || (leb b'a' c && leb c b'f')

-- `all(c in "0123456789abcdef" for c in text)`
unfoldable pub all_hex : String → Bool
unfolding is_hex_digit
all_hex String.[] = true
all_hex (String.◌∷◌ c s) = is_hex_digit (code c) && all_hex s

-- the prefix is ASCII, so `value[7:]` is a slice of bytes
unfoldable pub fingerprint : Value → Bool
unfolding all_hex
fingerprint (str s) =
    starts_with s "sha256:" && eqb (count s) 71 && all_hex (String.slice s 7 (String.len s))
fingerprint _ = false
