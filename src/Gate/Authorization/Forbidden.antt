-- ===== src/Gate/Authorization/Forbidden.antt =====
-- gate/authorization.py: the text that no authorization artifact may hold.
use Prim.Native.Char.{code}
use text.Mathlib.Text.{starts_with}
use repo_health_doctor.Base.{
  ℕ, zero, suc, String, ◌≡◌, refl, Bool, true, false, not, ◌&&◌, ◌||◌, List, [], ◌∷◌, eqb, leb, any,
  has_text,
}
use repo_health_doctor.Json.{Value, str, list, dict, Items, nil, cons, Fields, end, field}

abbrev forbidden_patterns : List String
forbidden_patterns =
    "/home/" ∷ "/Users/" ∷ "C:\\Users\\" ∷ ".ssh" ∷ ".aws" ∷ ".npmrc" ∷ ".pypirc" ∷ ".netrc"
    ∷ "BEGIN OPENSSH PRIVATE KEY" ∷ "BEGIN RSA PRIVATE KEY" ∷ "AKIA" ∷ "ghp_" ∷ "github_pat_"
    ∷ "xoxb-" ∷ "-----BEGIN" ∷ "password=" ∷ "token=" ∷ []

-- [A-Za-z0-9_-]
is_token_char : ℕ → Bool
is_token_char c =
    (leb b'a' c && leb c b'z')
    || (leb b'A' c && leb c b'Z')
    || (leb b'0' c && leb c b'9')
    || eqb c b'_'
    || eqb c b'-'

-- the text begins with n token characters
begins_with_token : ℕ → String → Bool
unfolding is_token_char
begins_with_token zero s = true
begins_with_token (suc n) String.[] = false
begins_with_token (suc n) (String.◌∷◌ c s) = is_token_char (code c) && begins_with_token n s

-- "sk-" and eight token characters here: the pattern takes the whole run, and so ends where it does
token_here : String → Bool
unfolding begins_with_token
token_here s = starts_with s "sk-" && begins_with_token 11 s

-- (?<![A-Za-z0-9_-])sk-[A-Za-z0-9_-]{8}(?![A-Za-z0-9_-]), searched
token_after : Bool → String → Bool
unfolding token_here is_token_char
token_after inside String.[] = false
token_after inside (String.◌∷◌ c s) =
    (not inside && token_here (String.◌∷◌ c s)) || token_after (is_token_char (code c)) s

unfoldable pub forbidden_text : String → Bool
unfolding token_after
forbidden_text s = any (λ pattern. has_text pattern s) forbidden_patterns || token_after false s

unfoldable mutual
  unfolding forbidden_text

  pub contains_forbidden_pattern : Value → Bool
  contains_forbidden_pattern (str s) = forbidden_text s
  contains_forbidden_pattern (dict d) = fields_forbidden d
  contains_forbidden_pattern (list vs) = items_forbidden vs
  contains_forbidden_pattern _ = false

  pub items_forbidden : Items → Bool
  items_forbidden nil = false
  items_forbidden (cons v vs) = contains_forbidden_pattern v || items_forbidden vs

  pub fields_forbidden : Fields → Bool
  fields_forbidden end = false
  fields_forbidden (field k v d) = contains_forbidden_pattern v || fields_forbidden d

forbidden_text_tests :
    (forbidden_text "key sk-abcdefgh." ≡ true)
    × (forbidden_text "ask-abcdefgh" ≡ false)
    × (forbidden_text "sk-short" ≡ false)
    × (forbidden_text "password=1" ≡ true)
unfolding forbidden_text
forbidden_text_tests = (refl, refl, refl, refl)
