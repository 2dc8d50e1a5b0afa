-- ===== src/Gate/Authorization/Reservation.antt =====
-- gate/authorization.py: `reserve_execution_authorization`, which consumes an approved
-- authorization by creating a marker file beside it. The directory of markers is explicit state.
-- What the operating system answers is a parameter of each attempt: whether it refuses to open, what
-- each `os.write` answers, and whether `os.fsync` fails. It creates a file only where there is none
-- (O_CREAT | O_EXCL), which is what the model's `create` does.
pub mod Writes
pub mod Once
use Prim.Native.Char.{Char}
use Prim.Native.String
use repo_health_doctor.Base.{
  ℕ, zero, suc, String, ◌++◌, length, Bool, true, false, ◌&&◌, ◌||◌, Option, none, some, List, [],
  ◌∷◌, ◌==◌, eqb, if◌then◌else◌,
}

pub record FilePath : Type 0 where
  pub parent : String
  pub name : String

abbrev pub same_path : FilePath → FilePath → Bool
same_path p q = p.parent == q.parent && p.name == q.name

abbrev pub Bytes : Type 0
Bytes = List Char

-- The files, each with what has been written to it.
abbrev pub Store : Type 0
Store = List (FilePath × Bytes)

abbrev pub lookup : FilePath → Store → Option Bytes
lookup p [] = none
lookup p ((q, text) ∷ rest) = if same_path p q then some text else lookup p rest

abbrev pub append : FilePath → Bytes → Store → Store
append p text [] = []
append p text ((q, old) ∷ rest) =
    if same_path p q then (q, old ++ text) ∷ rest else (q, old) ∷ append p text rest

module _ {ℓ} {A : Type ℓ} where
  abbrev pub take : ℕ → List A → List A
  take zero xs = []
  take (suc n) [] = []
  take (suc n) (x ∷ xs) = x ∷ take n xs

  abbrev pub drop : ℕ → List A → List A
  drop zero xs = xs
  drop (suc n) [] = []
  drop (suc n) (x ∷ xs) = drop n xs

pub record System : Type 0 where
  pub refuses_open : Bool
  -- the answer to the n-th call of `os.write`: none where it raises OSError
  pub writes : ℕ → Option ℕ
  pub sync_fails : Bool

pub data Refusal : Type 0 where
  exists_reason write_failure : Refusal

pub record Reservation : Type 0 where
  pub reserved : Bool
  pub reservation_path : FilePath
  pub refusal_reason : Option Refusal

abbrev pub consumed : Reservation → Bool
consumed r = r.reserved || (elim r.refusal_reason [ none ↦ false | some why ↦ true ])

-- `to_dict`'s status
abbrev pub status : Reservation → String
status r = if r.reserved then "reserved" else (elim r.refusal_reason [
  | none ↦ "rejected"
  | some exists_reason ↦ "already_reserved"
  | some write_failure ↦ "write_failed"
])

abbrev pub authorization_reservation_path : FilePath → FilePath
authorization_reservation_path p = record {
  parent = p.parent;
  name = String.◌++◌ p.name ".reserved";
}

abbrev characters : String → Bytes
characters String.[] = []
characters (String.◌∷◌ c s) = c ∷ characters s

-- `json.dumps(..., sort_keys=True) + "\\n"`, in ASCII
abbrev pub payload : Bytes
payload =
    characters
      "{\"reservation_kind\":\"single_use_execution_authorization_reservation\",\"schema_version\":\"0.3-draft\"}\n"

-- The loop `while view: ...` from its n-th call of `os.write` on, with the bytes still to be written.
-- Its flag says whether it left by the end of the payload; none is a loop that used up its fuel.
pub write_all : ℕ → System → ℕ → FilePath → Bytes → Store → Option (Store × Bool)
write_all fuel sys n p [] s = some (s, true)
write_all zero sys n p (c ∷ view) s = none
write_all (suc fuel) sys n p (c ∷ view) s = elim (sys.writes n) [
  | none ↦ some (s, false)
  | some zero ↦ some (s, false)
  | some (suc w) ↦ write_all fuel sys (suc n) p (drop w view) (append p (take (suc w) (c ∷ view)) s)
]

abbrev pub outcome : FilePath → Option Refusal → Reservation
outcome p none = record { reserved = true; reservation_path = p; refusal_reason = none }
outcome p (some why) = record { reserved = false; reservation_path = p; refusal_reason = some why }

pub after_writing : System → FilePath → Option (Store × Bool) → Option (Store × Reservation)
after_writing sys p none = none
after_writing sys p (some (s, done)) =
    some (s, outcome p (if not_done then some write_failure else none))
  where
    not_done : Bool
    not_done = if done then sys.sync_fails else true

-- The attempt; none does not occur (see Once).
unfoldable pub reserve : System → FilePath → Store → Option (Store × Reservation)
unfolding write_all after_writing
reserve sys authorization s =
    let p = authorization_reservation_path authorization in
    elim (lookup p s) [
      | some text ↦ some (s, outcome p (some exists_reason))
      | none ↦
          if sys.refuses_open
          then some (s, outcome p (some write_failure))
          else after_writing sys p (write_all (length payload) sys 0 p payload ((p, []) ∷ s))
    ]
