-- ===== src/Keygen.antt =====
-- src/keygen.rs on Unix: which files `open_key_files` opens, and how. The calls of the operating system
-- are parameters; what is written to the files is left out.
pub mod Safety
pub mod Generate
use p2p_tunnler.Prelude.{
  ℕ, Bool, true, false, not, Option, none, some, List, [], ◌∷◌, ◌++◌, if◌then◌else◌, Result, ok,
  err, ◌>>=◌,
}
use Prim.Native.String.{String, ◌++◌ as append}

-- `std::fs::OpenOptions`, with `mode` and the flag `O_NOFOLLOW`.
pub record OpenOptions : Type 0 where
  pub write : Bool
  pub create : Bool
  pub truncate : Bool
  pub create_new : Bool
  pub mode : Option ℕ
  pub no_follow : Bool

abbrev pub new_options : OpenOptions
new_options = record {
  write = false;
  create = false;
  truncate = false;
  create_new = false;
  mode = none;
  no_follow = false;
}

-- `GenFlags` of src/config.rs.
pub record GenFlags : Type 0 where
  pub path : Option String
  pub pub_path : Option String
  pub insecure_priv : Bool
  pub override_files : Bool

unfoldable pub configure_output_file : OpenOptions → Bool → OpenOptions
configure_output_file options override_files =
    if override_files
    then record options { write = true; create = true; truncate = true }
    else record options { write = true; create_new = true }

-- 0o600.
abbrev pub owner_only : ℕ
owner_only = 384

-- What is done to the file system, in order.
pub data Effect : Type 0 where
  opened : String → OpenOptions → Effect
  set_mode : String → ℕ → Effect

pub data KeygenError : Type 0 where
  open_failed : String → KeygenError
  permissions_failed : String → KeygenError

-- Whether the system opens a file, and whether it changes a mode.
pub record System : Type 0 where
  pub opens : String → OpenOptions → Bool
  pub changes_mode : String → ℕ → Bool

abbrev pub open_file : System → String → OpenOptions → Result KeygenError (List Effect)
open_file system path options =
    if system.opens path options then ok (opened path options ∷ []) else err (open_failed path)

abbrev pub change_mode : System → String → ℕ → Result KeygenError (List Effect)
change_mode system path mode =
    if system.changes_mode path mode
    then ok (set_mode path mode ∷ [])
    else err (permissions_failed path)

unfoldable pub private_options : GenFlags → OpenOptions
unfolding configure_output_file
private_options flags =
    let options = configure_output_file new_options flags.override_files in
    let moded : OpenOptions =
      if not flags.insecure_priv then record options { mode = some owner_only } else options in
    if flags.override_files then record moded { no_follow = true } else moded

unfoldable pub open_private_key_file : System → String → GenFlags → Result KeygenError (List Effect)
open_private_key_file system path flags = do
  first ← open_file system path (private_options flags)
  second ← if not flags.insecure_priv then change_mode system path owner_only else ok []
  ok (first ++ second)

unfoldable pub output_options : Bool → OpenOptions
unfolding configure_output_file
output_options override_files =
    let options = configure_output_file new_options override_files in
    if override_files then record options { no_follow = true } else options

unfoldable pub open_output_file : System → String → Bool → Result KeygenError (List Effect)
open_output_file system path override_files = open_file system path (output_options override_files)

-- `pub_path`, or else the private path with `.pub` behind it.
abbrev pub public_path : Option String → Option String → Option String
public_path (some path) private_path = some path
public_path none (some path) = some (append path ".pub")
public_path none none = none

abbrev pub open_private : System → GenFlags → Option String → Result KeygenError (List Effect)
open_private system flags none = ok []
open_private system flags (some path) = open_private_key_file system path flags

abbrev pub open_public : System → GenFlags → Option String → Result KeygenError (List Effect)
open_public system flags none = ok []
open_public system flags (some path) = open_output_file system path flags.override_files

unfoldable pub open_key_files : System → GenFlags → Result KeygenError (List Effect)
open_key_files system flags = do
  private_file ← open_private system flags flags.path
  public_file ← open_public system flags (public_path flags.pub_path flags.path)
  ok (private_file ++ public_file)
