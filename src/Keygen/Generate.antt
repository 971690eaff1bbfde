-- ===== src/Keygen/Generate.antt =====
-- `generate` of src/keygen.rs: which of the two new keys goes where. The bytes that are drawn for them are
-- a parameter; the log, which names the public key, is left out.
use p2p_tunnler.Prelude.{
  map, ◌≡◌, ap, sym, ◌∙◌, Bool, Option, none, some, List, [], ◌∷◌, ◌++◌, if◌then◌else◌, length,
  arith, Result, ok, err, ◌>>=◌, >>=-eq-ok, ok-injective,
}
use Prim.Native.String.{String, ◌++◌ as append}
use p2p_tunnler.Net.{Bytes}
use p2p_tunnler.Crypto.{CryptoError, decode_base64_key, decode_base64_key_iff}
use p2p_tunnler.Crypto.Keys.{
  SecretKey, KeyCrates, public_key, to_string, public_key_from, secret_key_from,
  generate_secret_key_base64, public_key_from-to_string,
}
use p2p_tunnler.Keygen.{GenFlags, System, Effect, KeygenError, public_path, open_key_files}

-- A text that goes to a file or to the terminal.
pub data Output : Type 0 where
  file : String → String → Output
  stdout : String → Output

-- What `generate` draws and calls: the bytes of a new secret key, the crates, and the calls that write.
pub record Source : Type 0 where
  pub drawn : Bytes
  pub crates : KeyCrates
  pub writes : String → Bool
  pub prints : Bool

pub data GenerateError : Type 0 where
  open_error : KeygenError → GenerateError
  write_failed : String → GenerateError
  print_failed : GenerateError
  reload_panicked : CryptoError → GenerateError

-- What the program does, one after the other: what it does to open the files, and the texts that it
-- writes.
pub data Done : Type 0 where
  opening : Effect → Done
  writing : Output → Done

pub record Generated : Type 0 where
  pub done : List Done

abbrev pub opened : Result KeygenError (List Effect) → Result GenerateError (List Effect)
opened (ok effects) = ok effects
opened (err e) = err (open_error e)

abbrev pub reloaded : Result CryptoError SecretKey → Result GenerateError SecretKey
reloaded (ok key) = ok key
reloaded (err e) = err (reload_panicked e)

abbrev pub write_file : Source → String → String → Result GenerateError (List Output)
write_file source path text =
    if source.writes path then ok (file path text ∷ []) else err (write_failed path)

abbrev pub write_private : Source → Option String → String → Result GenerateError (List Output)
write_private source (some path) text = write_file source path text
write_private source none text =
    if source.prints then ok (stdout (append text "\n") ∷ []) else err print_failed

abbrev pub write_public : Source → Option String → String → Result GenerateError (List Output)
write_public source (some path) text = write_file source path text
write_public source none text = ok []

unfoldable pub generate : System → Source → GenFlags → Result GenerateError Generated
generate system source flags = do
  let keys = generate_secret_key_base64 source.crates source.drawn
  effects ← opened (open_key_files system flags)
  private ← write_private source flags.path keys.encoded_secret_key
  public ←
      write_public source (public_path flags.pub_path flags.path)
        (to_string source.crates keys.public_key)
  _ ← reloaded (secret_key_from source.crates keys.encoded_secret_key)
  ok (record { done = map opening effects ++ (map writing private ++ map writing public) })

-- Where the secret key goes, and where the public one.
abbrev pub private_output : Option String → String → Output
private_output (some path) text = file path text
private_output none text = stdout (append text "\n")

abbrev pub public_outputs : Option String → String → List Output
public_outputs (some path) text = file path text ∷ []
public_outputs none text = []

private_written :
    (source : Source) (path : Option String) (text : String) (out : List Output)
    → write_private source path text ≡ ok out
    → out ≡ private_output path text ∷ []
private_written source (some path) text out h = ground arith
private_written source none text out h = ground arith

public_written :
    (source : Source) (path : Option String) (text : String) (out : List Output)
    → write_public source path text ≡ ok out
    → out ≡ public_outputs path text
public_written source (some path) text out h = ground arith
public_written source none text out h = ground arith

opened_ok :
    (r : Result KeygenError (List Effect)) (effects : List Effect)
    → opened r ≡ ok effects
    → r ≡ ok effects
opened_ok (ok e) effects h = cc
opened_ok (err e) effects h = absurd cc

reloaded_ok :
    (r : Result CryptoError SecretKey) (key : SecretKey) → reloaded r ≡ ok key → r ≡ ok key
reloaded_ok (ok k) key h = cc
reloaded_ok (err e) key h = absurd cc

-- The key that is read back from a new key's text is that key.
reloaded_same :
    (crates : KeyCrates) (drawn : Bytes) (key : SecretKey)
    → crates.decode (crates.encode drawn) ≡ some drawn
    → secret_key_from crates (crates.encode drawn) ≡ ok key
    → key ≡ record { bytes = drawn }
unfolding secret_key_from
reloaded_same crates drawn key codec h =
    let (bytes, decoded, e) =
      >>=-eq-ok (decode_base64_key crates.decode (crates.encode drawn)) _ h in
    let (found, full) =
      (decode_base64_key_iff crates.decode (crates.encode drawn) bytes).0 decoded in
    let same : bytes ≡ drawn = cc in sym (ok-injective e) ∙ ap (λ b. record { bytes = b }) same

done_same :
    (effects : List Effect) (private public out out' : List Output)
    → private ≡ out
    → public ≡ out'
    → map opening effects ++ (map writing private ++ map writing public)
      ≡ map opening effects ++ (map writing out ++ map writing out')
done_same effects private public out out' e e' = cc

-- If the key generator succeeds, it has first done exactly what opening the key files takes, then written
-- the text of the secret key, to its file, or to the terminal only if no file is given for it; and at last
-- the text of the public key to its file, if there is one, and nothing else. If Base64 decodes what it
-- encodes of both keys and the public one has 32 bytes, the program reads the new secret key from the
-- first text, and from the second the public key that belongs to it.
pub generate-done :
    (system : System) (source : Source) (flags : GenFlags) (g : Generated)
    → let keys = generate_secret_key_base64 source.crates source.drawn in
      source.crates.decode keys.encoded_secret_key ≡ some source.drawn
      → source.crates.decode (source.crates.encode keys.public_key.bytes)
        ≡ some keys.public_key.bytes
      → length keys.public_key.bytes ≡ 32
      → generate system source flags ≡ ok g
      → ((effects : List Effect) × (open_key_files system flags ≡ ok effects)
          × (g.done
              ≡ map opening effects
                ++ writing (private_output flags.path keys.encoded_secret_key)
                  ∷ map writing (
                      public_outputs
                        (public_path flags.pub_path flags.path)
                        (to_string source.crates keys.public_key))))
        × (secret_key_from source.crates keys.encoded_secret_key ≡ ok keys.secret_key)
        × (public_key_from source.crates (to_string source.crates keys.public_key)
            ≡ ok (public_key source.crates keys.secret_key))
unfolding generate generate_secret_key_base64 public_key
generate-done system source flags g codec public_codec full h =
    let keys = generate_secret_key_base64 source.crates source.drawn in
    let secret = keys.encoded_secret_key in
    let public_text = to_string source.crates keys.public_key in
    let public_file = public_path flags.pub_path flags.path in
    let (effects, opens, h1) = >>=-eq-ok (opened (open_key_files system flags)) _ h in
    let (private, first, h2) = >>=-eq-ok (write_private source flags.path secret) _ h1 in
    let (public, second, h3) = >>=-eq-ok (write_public source public_file public_text) _ h2 in
    let (key, again, h4) = >>=-eq-ok (reloaded (secret_key_from source.crates secret)) _ h3 in
    let reads = reloaded_ok (secret_key_from source.crates secret) key again in
    (
      (
        effects,
        opened_ok (open_key_files system flags) effects opens,
        ap (λ (x : Generated). x.done) (sym (ok-injective h4))
            ∙ done_same effects private public _ _
                (private_written source flags.path secret private first)
                (public_written source public_file public_text public second),
      ),
      reads ∙ ap ok (reloaded_same source.crates source.drawn key codec reads),
      public_key_from-to_string source.crates keys.public_key public_codec full,
    )
