-- ===== src/Gate/Evaluator/Mismatch.antt =====
-- When the evidence of a run is bound to something else, apart from the tests of `_binding_status`.
use repo_health_doctor.Base.{
  String, ◌≡◌, ◌⊎◌, inl, inr, refl, Bool, true, false, ◌&&◌, ◌||◌, not, if◌then◌else◌, List, [],
  ◌∷◌, Memᴰ, or_left, or_right, any, contains, has_text, eq_iff,
}
use repo_health_doctor.Json.{Value, str, list, Items, items, Fields, get, get_or, is_true}
use repo_health_doctor.Json.Runtime.{Runtime, text_of}
use repo_health_doctor.Evidence.SandboxRun.{status_of_binding, names_mismatch}

-- A binding of a run to something else: it was checked and does not match, its status says so, or it was
-- not found to match and a reason of the refusal names a mismatch.
pub data IsMismatched (rt : Runtime) (binding : Fields) : Type 0 where
  unmatched :
      is_true (get "checked" binding) ≡ true
      → is_true (get "matched" binding) ≡ false
      → IsMismatched rt binding
  status :
      Memᴰ
        (text_of rt (get_or (str "") "status" binding))
        ("mismatch" ∷ "unresolved" ∷ "dirty" ∷ [])
      → IsMismatched rt binding
  reason :
      (vs : Items) (v : Value)
      → ((is_true (get "checked" binding) ≡ false) ⊎ (is_true (get "matched" binding) ≡ false))
      → get "refusal_reasons" binding ≡ list vs
      → Memᴰ v (items vs)
      → has_text "mismatch" (text_of rt v) ≡ true
      → IsMismatched rt binding

-- the tests of `_binding_status`, in their order
abbrev chain : Bool → Bool → Bool → Bool → String × Bool
chain c m r n =
    if c && (not m || r)
    then ("mismatch", true)
    else if c && m
    then ("matched", false)
    else if r
    then ("mismatch", true)
    else if n
    then ("mismatch", true)
    else ("not_checked", false)

unmatched_lem : (c m r n : Bool) → c ≡ true → m ≡ false → (chain c m r n).1 ≡ true
unmatched_lem c m r n p q = rw (p, q) refl

status_lem : (c m r n : Bool) → r ≡ true → (chain c m r n).1 ≡ true
status_lem true true r n h = rw h refl
status_lem true false r n h = refl
status_lem false m r n h = rw h refl

reason_lem : (c m r n : Bool) → ((c ≡ false) ⊎ (m ≡ false)) → n ≡ true → (chain c m r n).1 ≡ true
reason_lem true true r n (inl h) k = cc
reason_lem true true r n (inr h) k = cc
reason_lem true false r n h k = refl
reason_lem false m true n h k = refl
reason_lem false m false n h k = rw k refl

mem-contains : {s : String} (xs : List String) → Memᴰ s xs → contains xs s ≡ true
mem-contains [] m = elim m [ ]
mem-contains (x ∷ xs) (Memᴰ.head e) = rw e (or_left _ _ ((eq_iff x x).1 refl))
mem-contains (x ∷ xs) (Memᴰ.tail m) = or_right _ _ (mem-contains xs m)

mem-any :
    {A : Type 0} (p : A → Bool) {x : A} (xs : List A) → Memᴰ x xs → p x ≡ true → any p xs ≡ true
mem-any p [] m h = elim m [ ]
mem-any p (x ∷ xs) (Memᴰ.head e) h = or_left _ _ (rw e at h)
mem-any p (x ∷ xs) (Memᴰ.tail m) h = or_right _ _ (mem-any p xs m h)

names_mismatch_lem :
    (rt : Runtime) (w : Value) (vs : Items) (v : Value)
    → w ≡ list vs
    → Memᴰ v (items vs)
    → has_text "mismatch" (text_of rt v) ≡ true
    → names_mismatch rt w ≡ true
names_mismatch_lem rt w vs v e m h = rw e (mem-any _ (items vs) m h)

pub IsMismatched-status :
    (rt : Runtime) (b : Fields) → IsMismatched rt b → (status_of_binding rt b).1 ≡ true
IsMismatched-status rt b (IsMismatched.unmatched p q) = unmatched_lem _ _ _ _ p q
IsMismatched-status rt b (IsMismatched.status m) = status_lem _ _ _ _ (mem-contains _ m)
IsMismatched-status rt b (IsMismatched.reason vs v k e m h) =
    reason_lem _ _ _ _ k (names_mismatch_lem rt _ vs v e m h)
