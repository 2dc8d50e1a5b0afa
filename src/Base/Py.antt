-- ===== src/Base/Py.antt =====
-- A Python expression that may raise, and a list of checks that report what they find.
use mathlib.Core.Path.{◌≡◌, refl}
use mathlib.Core.Logic.{◌↔◌, ◌⊎◌, inl, inr}
use mathlib.Core.Bool.{Bool, true, false}
use mathlib.Core.List.{List, [], ◌∷◌, ◌++◌}
use Prim.Native.String.{String}
use repo_health_doctor.Base.Lists.{All, append-eq-nil}

pub data Exception : Type 0 where
  type_error key_error value_error attribute_error overflow_error : Exception

pub data Py {ℓ} (A : Type ℓ) : Type ℓ where
  ok : A → Py A
  raise : Exception → Py A

infixl 10 ◌>>=◌
abbrev pub ◌>>=◌ {ℓ κ} : {A : Type ℓ} {B : Type κ} → Py A → (A → Py B) → Py B
ok a >>= f = f a
raise e >>= f = raise e

pub >>=-eq-ok {ℓ κ} :
    {A : Type ℓ} {B : Type κ} (run : Py A) (next : A → Py B) {result : B}
    → (run >>= next) ≡ ok result
    → (value : A) × (run ≡ ok value) × (next value ≡ ok result)
>>=-eq-ok (ok value) next same = (value, refl, same)
>>=-eq-ok (raise exception) next same = cc

-- A check gives the messages that it appends to `errors`, or raises.
abbrev pub Check : Type 0
Check = Py (List String)

-- `if test: errors.append(message)`
abbrev pub flag : Bool → String → Check
flag true message = ok (message ∷ [])
flag false message = ok []

-- the same, where the test may raise
abbrev pub flag_if : Py Bool → String → Check
flag_if test message = test >>= λ b. flag b message

-- Checks run in order; an exception ends them.
abbrev pub collect : List Check → Check
collect [] = ok []
collect (c ∷ cs) = c >>= λ es. collect cs >>= λ fs. ok (es ++ fs)

pub flag-IsSilent : (b : Bool) (m : String) → flag b m ≡ ok [] → b ≡ false
flag-IsSilent false m h = refl
flag-IsSilent true m h = cc

pub flag_if-IsSilent : (t : Py Bool) (m : String) → flag_if t m ≡ ok [] → t ≡ ok false
flag_if-IsSilent (ok false) m h = refl
flag_if-IsSilent (ok true) m h = cc
flag_if-IsSilent (raise e) m h = cc

abbrev pub IsSilent : Check → Type 0
IsSilent c = c ≡ ok []

-- Checks that report nothing have each reported nothing, and none has raised.
pub collect-IsSilent : (cs : List Check) → IsSilent (collect cs) → All IsSilent cs
collect-IsSilent [] h = tt
collect-IsSilent (c ∷ cs) h =
    let (es, ce, rest) = >>=-eq-ok c _ h in
    let (fs, cf, last) = >>=-eq-ok (collect cs) _ rest in
    let (en, fn) = append-eq-nil es fs (ok-injective last) in
    (rw (ce, en), collect-IsSilent cs (rw (cf, fn)))
  where
    ok-injective : {xs ys : List String} → ok xs ≡ ok ys → xs ≡ ys
    ok-injective h = cc

pub IsSilent-collect : (cs : List Check) → All IsSilent cs → IsSilent (collect cs)
IsSilent-collect [] h = refl
IsSilent-collect (c ∷ cs) (p, h) = rw (p, IsSilent-collect cs h)

pub collect-IsSilent_iff : (cs : List Check) → IsSilent (collect cs) ↔ All IsSilent cs
collect-IsSilent_iff cs = (collect-IsSilent cs, IsSilent-collect cs)

pub Py-cases {ℓ} :
    {A : Type ℓ} (m : Py A) → ((a : A) × (m ≡ ok a)) ⊎ ((e : Exception) × (m ≡ raise e))
Py-cases (ok a) = inl (a, refl)
Py-cases (raise e) = inr (e, refl)

abbrev pub Returns {ℓ} : {A : Type ℓ} → Py A → Type ℓ
Returns {A} m = (a : A) × (m ≡ ok a)

abbrev pub Raises {ℓ} : {A : Type ℓ} → Py A → Type ℓ
Raises m = (e : Exception) × (m ≡ raise e)

-- Checks that run to the end have each returned.
pub collect-Returns : (cs : List Check) → Returns (collect cs) → All Returns cs
collect-Returns [] h = tt
collect-Returns (c ∷ cs) (es, h) =
    let (ds, ce, rest) = >>=-eq-ok c _ h in
    let (fs, cf, last) = >>=-eq-ok (collect cs) _ rest in ((ds, ce), collect-Returns cs (fs, cf))
