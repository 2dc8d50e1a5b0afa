-- ===== src/Base/Sort.antt =====
-- `sorted(...)` of texts: by code points, equal texts in the order in which they stand.
use Prim.Native.Char.{code}
use Prim.Native.String
use mathlib.Core.Path.{◌≡◌, refl}
use mathlib.Core.Bool.{Bool, true, false, ◌||◌, ◌&&◌}
use mathlib.Core.List.{List, [], ◌∷◌}
use repo_health_doctor.Base.Tests.{if◌then◌else◌, ltb, eqb}

-- `s < t`
unfoldable pub text_lt : String.String → String.String → Bool
text_lt s String.[] = false
text_lt String.[] (String.◌∷◌ d t) = true
text_lt (String.◌∷◌ c s) (String.◌∷◌ d t) =
    let rest = text_lt s t in ltb (code c) (code d) || (eqb (code c) (code d) && rest)

unfoldable pub insert_sorted : String.String → List String.String → List String.String
unfolding text_lt
insert_sorted x [] = x ∷ []
insert_sorted x (y ∷ ys) =
    let rest = insert_sorted x ys in if text_lt y x then y ∷ rest else x ∷ y ∷ ys

unfoldable pub sorted : List String.String → List String.String
unfolding insert_sorted
sorted [] = []
sorted (x ∷ xs) = insert_sorted x (sorted xs)

sorted_test : sorted ("b" ∷ "ab" ∷ "a" ∷ []) ≡ "a" ∷ "ab" ∷ "b" ∷ []
unfolding sorted insert_sorted text_lt
sorted_test = refl
