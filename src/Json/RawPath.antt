-- ===== src/Json/RawPath.antt =====
-- RAW_HOST_PATH, the pattern (?:^|[\s"'=])(?:/(?:home|Users)/|/mnt/[A-Za-z]/Users/|[A-Za-z]:\\Users\\),
-- and the search for it through all the strings of a value.
use Prim.Native.Char.{code}
use Prim.Native.String.{[], ◌∷◌}
use text.Mathlib.Text.{starts_with}
use repo_health_doctor.Base.{ℕ, String, ◌≡◌, refl, Bool, true, false, ◌&&◌, ◌||◌, eqb, leb}
use repo_health_doctor.Json.{Value, str, list, dict, Items, nil, cons, Fields, end, field}

-- `\s` of a Unicode pattern
is_space : ℕ → Bool
is_space c =
    (leb 9 c && leb c 13)
    || (leb 28 c && leb c 32)
    || eqb c 0x85
    || eqb c 0xa0
    || eqb c 0x1680
    || (leb 0x2000 c && leb c 0x200a)
    || eqb c 0x2028
    || eqb c 0x2029
    || eqb c 0x202f
    || eqb c 0x205f
    || eqb c 0x3000

is_letter : ℕ → Bool
is_letter c = (leb b'a' c && leb c b'z') || (leb b'A' c && leb c b'Z')

-- one of \s " ' =
is_opening : ℕ → Bool
unfolding is_space
is_opening c = is_space c || eqb c 34 || eqb c 39 || eqb c b'='

letter_then : String → String → Bool
unfolding is_letter
letter_then rest [] = false
letter_then rest (c ∷ s) = is_letter (code c) && starts_with s rest

mounted : String → Bool
unfolding letter_then
mounted (_ ∷ _ ∷ _ ∷ _ ∷ _ ∷ s) = letter_then "/Users/" s
mounted _ = false

-- the second group, at the start of the text
host_path_here : String → Bool
unfolding letter_then mounted
host_path_here s =
    starts_with s "/home/"
    || starts_with s "/Users/"
    || (starts_with s "/mnt/" && mounted s)
    || letter_then ":\\Users\\" s

host_path_after : String → Bool
unfolding host_path_here is_opening
host_path_after [] = false
host_path_after (c ∷ s) = (is_opening (code c) && host_path_here s) || host_path_after s

unfoldable pub raw_host_path : String → Bool
unfolding host_path_after host_path_here
raw_host_path s = host_path_here s || host_path_after s

unfoldable mutual
  unfolding raw_host_path

  pub contains_raw_host_path : Value → Bool
  contains_raw_host_path (str s) = raw_host_path s
  contains_raw_host_path (dict d) = fields_raw_host_path d
  contains_raw_host_path (list vs) = items_raw_host_path vs
  contains_raw_host_path _ = false

  pub items_raw_host_path : Items → Bool
  items_raw_host_path nil = false
  items_raw_host_path (cons v vs) = contains_raw_host_path v || items_raw_host_path vs

  pub fields_raw_host_path : Fields → Bool
  fields_raw_host_path end = false
  fields_raw_host_path (field k v d) = contains_raw_host_path v || fields_raw_host_path d

raw_host_path_tests :
    (raw_host_path "see ='C:\\Users\\me" ≡ true)
    × (raw_host_path "at /mnt/c/Users/x" ≡ true)
    × (raw_host_path "/home/x" ≡ true)
    × (raw_host_path "x/home/x" ≡ false)
    × (raw_host_path "/mnt/cc/Users/" ≡ false)
unfolding raw_host_path
raw_host_path_tests = (refl, refl, refl, refl, refl)
