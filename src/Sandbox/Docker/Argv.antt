-- ===== src/Sandbox/Docker/Argv.antt =====
-- The argv that build_container_command_argv composes.
use repo_health_doctor.Base.{
  ◌≡◌, refl, ap, ◌↔◌, ◌⊎◌, inl, inr, String, false, Option, none, some, List, [], ◌∷◌, ◌++◌, ◌==◌,
  contains, or_false, Bool-cases, eq_iff, arith,
}
use repo_health_doctor.Base.Py.{ok, raise, value_error, Returns}
use repo_health_doctor.Sandbox.Docker.{
  last_apart, prepended, set_network, chosen, build_container_command_argv,
}

-- All tokens but the last.
abbrev pub but_last : List String → List String
but_last [] = []
but_last (x ∷ []) = []
but_last (x ∷ y ∷ ys) = x ∷ but_last (y ∷ ys)

not_same : (x y : String) → (y == x) ≡ false → (x == y) ≡ false
not_same x y h = elim (Bool-cases (x == y)) [
  | inl e ↦ absurd (ground (arith, eq_iff x y, eq_iff y x))
  | inr e ↦ e
]

last_apart-append :
    (t : String) (us : List String) (image : String)
    → last_apart t (us ++ (image ∷ [])) ≡ (t ∷ us, image)
last_apart-append t [] image = refl
last_apart-append t (u ∷ us) image = rw (last_apart-append u us image) refl

set_network-split :
    (mode old image : String) (pre mid : List String)
    → contains pre "--network" ≡ false
    → set_network mode (pre ++ ("--network" ∷ old ∷ (mid ++ (image ∷ []))))
      ≡ some (pre ++ ("--network" ∷ mode ∷ mid), image)
unfolding set_network
set_network-split mode old image [] mid h =
    ap some (last_apart-append "--network" (mode ∷ mid) image)
set_network-split mode old image (x ∷ []) mid h =
    let (p, _) = or_false ("--network" == x) _ h in
    rw (not_same x "--network" p) (ap (prepended x) (set_network-split mode old image [] mid refl))
set_network-split mode old image (x ∷ y ∷ ys) mid h =
    let (p, q) = or_false ("--network" == x) _ h in
    rw (not_same x "--network" p)
      (ap (prepended x) (set_network-split mode old image (y ∷ ys) mid q))

-- Where the argv has "--network", a mode, other options and an image, build_container_command_argv puts
-- the requested mode in place of the first mode, keeps all options, and puts the extra options, the
-- entrypoint, the image and the arguments of the command behind them, in this order.
pub build_container_command_argv-split :
    (pre mid : List String) (old image mode entrypoint : String) (arguments extra : List String)
    → contains pre "--network" ≡ false
    → build_container_command_argv
        (pre ++ ("--network" ∷ old ∷ (mid ++ (image ∷ []))))
        (entrypoint ∷ arguments)
        mode
        extra
      ≡ ok (
          (pre ++ ("--network" ∷ mode ∷ mid))
          ++ (extra ++ ("--entrypoint" ∷ entrypoint ∷ image ∷ arguments)))
unfolding build_container_command_argv
build_container_command_argv-split pre mid old image mode entrypoint arguments extra h =
    ap (chosen extra entrypoint arguments) (set_network-split mode old image pre mid h)

chosen-Raises :
    (extra : List String) (c : String) (cs : List String) (o : Option (List String × String))
    → chosen extra c cs o ≡ raise value_error
    → o ≡ none
chosen-Raises extra c cs none h = refl
chosen-Raises extra c cs (some split) h = cc

prepended-none :
    (token : String) (o : Option (List String × String)) → prepended token o ≡ none → o ≡ none
prepended-none token none h = refl
prepended-none token (some (argv, image)) h = cc

set_network-none :
    (mode : String) (base : List String)
    → set_network mode base ≡ none
    → contains (but_last base) "--network" ≡ false
unfolding set_network
set_network-none mode [] h = refl
set_network-none mode (x ∷ []) h = refl
set_network-none mode (x ∷ y ∷ ys) h = elim (Bool-cases (x == "--network")) [
  | inl e ↦ cc
  | inr e ↦
      rw (not_same "--network" x e)
        (set_network-none mode (y ∷ ys) (prepended-none x _ (rw e at h)))
]

none-set_network :
    (mode : String) (base : List String)
    → contains (but_last base) "--network" ≡ false
    → set_network mode base ≡ none
unfolding set_network
none-set_network mode [] h = refl
none-set_network mode (x ∷ []) h = refl
none-set_network mode (x ∷ y ∷ ys) h =
    let (p, q) = or_false ("--network" == x) _ h in
    rw (not_same x "--network" p, none-set_network mode (y ∷ ys) q) refl

chosen-Returns :
    (extra : List String) (c : String) (cs : List String) (o : Option (List String × String))
    → Returns (chosen extra c cs o) ⊎ (chosen extra c cs o ≡ raise value_error)
chosen-Returns extra c cs none = inr refl
chosen-Returns extra c cs (some split) = inl (_, refl)

-- build_container_command_argv raises ValueError exactly where there is no command or no "--network"
-- before the last token, and it returns an argv or raises ValueError.
pub build_container_command_argv-Raises :
    (base command : List String) (mode : String) (extra : List String)
    → ((build_container_command_argv base command mode extra ≡ raise value_error)
        ↔ ((command ≡ []) ⊎ (contains (but_last base) "--network" ≡ false)))
      × (Returns (build_container_command_argv base command mode extra)
          ⊎ (build_container_command_argv base command mode extra ≡ raise value_error))
unfolding build_container_command_argv
build_container_command_argv-Raises base [] mode extra = ((λ h. inl refl, λ h. refl), inr refl)
build_container_command_argv-Raises base (c ∷ cs) mode extra =
    ((to, from), chosen-Returns extra c cs (set_network mode base))
  where
    to :
        build_container_command_argv base (c ∷ cs) mode extra ≡ raise value_error
        → (c ∷ cs ≡ []) ⊎ (contains (but_last base) "--network" ≡ false)
    to h = inr (set_network-none mode base (chosen-Raises extra c cs (set_network mode base) h))

    from :
        (c ∷ cs ≡ []) ⊎ (contains (but_last base) "--network" ≡ false)
        → build_container_command_argv base (c ∷ cs) mode extra ≡ raise value_error
    from (inl e) = cc
    from (inr e) = ap (chosen extra c cs) (none-set_network mode base e)
