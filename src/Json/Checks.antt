-- ===== src/Json/Checks.antt =====
-- What a silent check says of the value that it tests, and the other way round.
use repo_health_doctor.Base.{
  Bool-cases, inl, inr, is_empty, [], ◌∷◌, String, ◌≡◌, ◌≢◌, ◌↔◌, refl, Bool, true, false, not,
  List, Memᴰ, arith, contains, contains-mem, mem-contains, eq_iff, same_set,
}
use repo_health_doctor.Base.Py.{flag, flag_if, IsSilent}
use repo_health_doctor.Json.{
  Value, null, bool, int, float, str, list, dict, Items, Fields, keys, is_list, is_str, is_bool,
  is_text, is_text-eq, not_member, non_empty_string, closed_dict,
}

-- A string of the set.
abbrev pub OneOf : List String → Value → Type 0
OneOf set v = (s : String) × (v ≡ str s) × Memᴰ s set

abbrev pub NonEmpty : Value → Type 0
NonEmpty v = (s : String) × (v ≡ str s) × (s ≢ "")

abbrev pub IsList : Value → Type 0
IsList v = (vs : Items) × (v ≡ list vs)

abbrev pub IsText : Value → Type 0
IsText v = (s : String) × (v ≡ str s)

abbrev pub IsBoolean : Value → Type 0
IsBoolean v = (b : Bool) × (v ≡ bool b)

pub flag-not-IsSilent : (b : Bool) (m : String) → IsSilent (flag (not b) m) ↔ (b ≡ true)
flag-not-IsSilent true m = (λ h. refl, λ h. refl)
flag-not-IsSilent false m = (λ h. cc, λ h. cc)

pub flag-IsSilent_iff : (b : Bool) (m : String) → IsSilent (flag b m) ↔ (b ≡ false)
flag-IsSilent_iff true m = (λ h. cc, λ h. cc)
flag-IsSilent_iff false m = (λ h. refl, λ h. refl)

pub text-IsSilent : (v : Value) (t m : String) → IsSilent (flag (not (is_text v t)) m) ↔ (v ≡ str t)
text-IsSilent v t m = (
  λ h. is_text-eq v t ((flag-not-IsSilent (is_text v t) m).0 h),
  λ e. (flag-not-IsSilent (is_text v t) m).1 (rw e ((eq_iff t t).1 refl)),
)

pub not_member-IsSilent :
    (set : List String) (v : Value) (m : String)
    → IsSilent (flag_if (not_member set v) m) ↔ OneOf set v
not_member-IsSilent set (str s) m = (
  λ h. (s, refl, contains-mem s set ((flag-not-IsSilent (contains set s) m).0 h)),
  λ o. (flag-not-IsSilent (contains set s) m).1 (found o),
)
  where
    found : OneOf set (str s) → contains set s ≡ true
    found (t, e, k) = let q : t ≡ s = cc in mem-contains s set (rw q at k)
not_member-IsSilent set null m = (λ h. cc, λ (s, e, k). cc)
not_member-IsSilent set (bool b) m = (λ h. cc, λ (s, e, k). cc)
not_member-IsSilent set (int n) m = (λ h. cc, λ (s, e, k). cc)
not_member-IsSilent set (float n k) m = (λ h. cc, λ (s, e, k). cc)
not_member-IsSilent set (list vs) m = (λ h. cc, λ (s, e, k). cc)
not_member-IsSilent set (dict d) m = (λ h. cc, λ (s, e, k). cc)

pub NonEmpty-IsSilent :
    (v : Value) (m : String) → IsSilent (flag (not (non_empty_string v)) m) ↔ NonEmpty v
NonEmpty-IsSilent v m = (
  λ h. to v ((flag-not-IsSilent (non_empty_string v) m).0 h),
  λ e. (flag-not-IsSilent (non_empty_string v) m).1 (from v e),
)
  where
    to : (w : Value) → non_empty_string w ≡ true → NonEmpty w
    to (str s) h = (s, refl, λ e. ground (arith, eq_iff s ""))
    to null h = cc
    to _ h = cc

    from : (w : Value) → NonEmpty w → non_empty_string w ≡ true
    from w (s, e, n) = rw e (ground (arith, eq_iff s ""))

pub IsList-IsSilent : (v : Value) (m : String) → IsSilent (flag (not (is_list v)) m) ↔ IsList v
IsList-IsSilent (list vs) m = (λ h. (vs, refl), λ h. refl)
IsList-IsSilent null m = (λ h. cc, λ (s, e). cc)
IsList-IsSilent _ m = (λ h. cc, λ (s, e). cc)

pub string-IsSilent : (v : Value) (m : String) → IsSilent (flag (not (is_str v)) m) ↔ IsText v
string-IsSilent (str s) m = (λ h. (s, refl), λ h. refl)
string-IsSilent null m = (λ h. cc, λ (s, e). cc)
string-IsSilent _ m = (λ h. cc, λ (s, e). cc)

pub IsBoolean-IsSilent :
    (v : Value) (m : String) → IsSilent (flag (not (is_bool v)) m) ↔ IsBoolean v
IsBoolean-IsSilent (bool b) m = (λ h. (b, refl), λ h. refl)
IsBoolean-IsSilent null m = (λ h. cc, λ (s, e). cc)
IsBoolean-IsSilent _ m = (λ h. cc, λ (s, e). cc)

pub closed_dict-IsSilent :
    (v : Value) (fields : List String) (name : String)
    → IsSilent (closed_dict v fields name)
    → (d : Fields) × (v ≡ dict d) × (same_set (keys d) fields ≡ true)
closed_dict-IsSilent (dict d) fields name h = (d, refl, (flag-not-IsSilent _ _).0 h)
closed_dict-IsSilent null fields name h = cc
closed_dict-IsSilent _ fields name h = cc

pub IsSilent-closed_dict :
    (d : Fields) (fields : List String) (name : String)
    → same_set (keys d) fields ≡ true
    → IsSilent (closed_dict (dict d) fields name)
IsSilent-closed_dict d fields name h = (flag-not-IsSilent _ _).1 h

pub not_text : (v : Value) (t : String) → v ≢ str t → is_text v t ≡ false
not_text v t n = elim (Bool-cases (is_text v t)) [
  | inl e ↦ absurd (n (is_text-eq v t e))
  | inr f ↦ f
]

pub not_empty {ℓ} : {A : Type ℓ} (xs : List A) → xs ≢ [] → is_empty xs ≡ false
not_empty [] n = absurd (n refl)
not_empty (x ∷ xs) n = refl
