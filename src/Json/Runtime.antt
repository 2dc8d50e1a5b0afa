-- ===== src/Json/Runtime.antt =====
-- What the model takes from the Python runtime: `str.lower`, `str` of a value that is no string,
-- `str.isalnum`, `json.dumps`, `hashlib.sha256` and `datetime.fromisoformat`.
use Prim.Native.Char.{code}
use Prim.Native.String
use repo_health_doctor.Base.{ℕ, String, Bool, Option, eqb, if◌then◌else◌}
use repo_health_doctor.Base.Int.{ℤ}
use repo_health_doctor.Json.{Value, str}

-- A datetime: whether it has a time zone, and its microseconds on the UTC axis; one without a zone is
-- read as UTC, as `replace(tzinfo=timezone.utc)` does.
pub record Time : Type 0 where
  pub aware : Bool
  pub ticks : ℤ

pub record Runtime : Type 0 where
  pub lower : String → String
  pub repr : Value → String
  pub is_alnum : ℕ → Bool
  pub dumps : Value → String
  pub sha256_hex : String → String
  pub parse_time : String → Option Time

-- `str(value)`
abbrev pub text_of : Runtime → Value → String
text_of rt (str s) = s
text_of rt v = rt.repr v

-- `text.replace(c, by)` for one character c
abbrev pub replace : ℕ → String → String → String
replace c by String.[] = ""
replace c by (String.◌∷◌ d s) =
    String.◌++◌ (if eqb (code d) c then by else String.◌∷◌ d "") (replace c by s)
