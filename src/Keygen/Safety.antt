-- ===== src/Keygen/Safety.antt =====
-- The safety of the key files that src/keygen.rs opens.
use p2p_tunnler.Prelude.{
  ◌≡◌, refl, sym, ap, subst, ◌∙◌, Bool, true, not, Option, none, some, List, [], ◌∷◌, ◌++◌,
  if◌then◌else◌, if-elim, arith, ok, >>=-eq-ok, ok-injective,
}
use Prim.Native.String.{String}
use p2p_tunnler.Keygen.{
  OpenOptions, GenFlags, Effect, System, owner_only, configure_output_file, private_options,
  output_options, open_file, open_private_key_file, open_output_file, public_path, open_private,
  open_public, open_key_files,
}

-- A file that is opened is either new, or emptied and no symbolic link, as the flag says.
abbrev pub IsSafe : Bool → Effect → Type 0
IsSafe override_files (Effect.set_mode path mode) = mode ≡ owner_only
IsSafe override_files (Effect.opened path options) =
    (options.write ≡ true)
    × (options.create_new ≡ not override_files)
    × (options.truncate ≡ override_files)
    × (options.no_follow ≡ override_files)

abbrev pub AreSafe : Bool → List Effect → Type 0
AreSafe override_files [] = Unit
AreSafe override_files (e ∷ es) = IsSafe override_files e × AreSafe override_files es

AreSafe-append :
    (o : Bool) (xs ys : List Effect) → AreSafe o xs → AreSafe o ys → AreSafe o (xs ++ ys)
AreSafe-append o [] ys hx hy = hy
AreSafe-append o (x ∷ xs) ys hx hy = (hx.0, AreSafe-append o xs ys hx.1 hy)

private-IsSafe :
    (flags : GenFlags) (path : String)
    → IsSafe flags.override_files (Effect.opened path (private_options flags))
unfolding private_options configure_output_file
private-IsSafe flags path = ground arith

output-IsSafe : (o : Bool) (path : String) → IsSafe o (Effect.opened path (output_options o))
unfolding output_options configure_output_file
output-IsSafe o path = ground arith

opened_is :
    (system : System) (path : String) (options : OpenOptions) (es : List Effect)
    → open_file system path options ≡ ok es
    → es ≡ Effect.opened path options ∷ []
opened_is system path options es h = ground arith

-- The private file is opened with the mode already narrow, and narrowed if it was there before.
abbrev pub secured : GenFlags → String → List Effect
secured flags path =
    if flags.insecure_priv
    then Effect.opened path (private_options flags) ∷ []
    else Effect.opened path (private_options flags) ∷ Effect.set_mode path owner_only ∷ []

private_is :
    (system : System) (path : String) (flags : GenFlags) (es : List Effect)
    → open_private_key_file system path flags ≡ ok es
    → es ≡ secured flags path
unfolding open_private_key_file
private_is system path flags es h = ground arith

mode_is :
    (flags : GenFlags)
    → (private_options flags).mode ≡ (if flags.insecure_priv then none else some owner_only)
unfolding private_options configure_output_file
mode_is flags = ground arith

AreSafe-secured :
    (flags : GenFlags) (path : String) → AreSafe flags.override_files (secured flags path)
AreSafe-secured flags path =
    if-elim (AreSafe flags.override_files) flags.insecure_priv _ _ (private-IsSafe flags path, tt)
      (private-IsSafe flags path, (refl, tt))

private_part :
    (system : System) (flags : GenFlags) (path : Option String) (es : List Effect)
    → open_private system flags path ≡ ok es
    → AreSafe flags.override_files es
private_part system flags none es h = subst (AreSafe flags.override_files) (ok-injective h) tt
private_part system flags (some path) es h =
    subst (AreSafe flags.override_files) (sym (private_is system path flags es h))
      (AreSafe-secured flags path)

public_part :
    (system : System) (flags : GenFlags) (path : Option String) (es : List Effect)
    → open_public system flags path ≡ ok es
    → AreSafe flags.override_files es
unfolding open_output_file
public_part system flags none es h = subst (AreSafe flags.override_files) (ok-injective h) tt
public_part system flags (some path) es h =
    subst (AreSafe flags.override_files)
      (sym (opened_is system path (output_options flags.override_files) es h))
      (output-IsSafe flags.override_files path, tt)

-- What is done for the private key.
abbrev pub private_effects : GenFlags → Option String → List Effect
private_effects flags none = []
private_effects flags (some path) = secured flags path

private_first :
    (system : System) (flags : GenFlags) (path : Option String) (es : List Effect)
    → open_private system flags path ≡ ok es
    → es ≡ private_effects flags path
private_first system flags none es h = sym (ok-injective h)
private_first system flags (some path) es h = private_is system path flags es h

-- When the files are open, each is a new one, unless overriding is asked for, and then an emptied one
-- that is no symbolic link; and first of all the private key file, if there is a path for it, was
-- opened, with mode 0600 and then set to it unless it is to be insecure.
pub open_key_files-safety :
    (system : System) (flags : GenFlags) (effects : List Effect)
    → open_key_files system flags ≡ ok effects
    → AreSafe flags.override_files effects
      × ((private_options flags).mode ≡ (if flags.insecure_priv then none else some owner_only))
      × ((rest : List Effect) × (effects ≡ private_effects flags flags.path ++ rest))
unfolding open_key_files
open_key_files-safety system flags effects h =
    let (private_file, e, h1) = >>=-eq-ok (open_private system flags flags.path) _ h in
    let (public_file, e', h2) =
      >>=-eq-ok (open_public system flags (public_path flags.pub_path flags.path)) _ h1 in
    let all : private_file ++ public_file ≡ effects = ok-injective h2 in
    (
      subst (AreSafe flags.override_files) all (
          AreSafe-append flags.override_files private_file public_file
            (private_part system flags flags.path private_file e)
            (public_part system flags (public_path flags.pub_path flags.path) public_file e')),
      mode_is flags,
      (
        public_file,
        sym all
            ∙ ap (λ es. es ++ public_file) (private_first system flags flags.path private_file e),
      ),
    )
