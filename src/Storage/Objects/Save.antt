-- ===== src/Storage/Objects/Save.antt =====
-- `Save` of internal/infra/disk/object_repository.go. A write to an encrypted object goes to a
-- buffer until the encryption is closed.
pub mod Stored
use stowmark.Base.{
  ℕ, Bytes, Bool, true, false, Option, none, some, [], ◌∷◌, ◌++◌, Err, Result, ok, err, panics,
  if◌then◌else◌,
}
use stowmark.Base.Exec.{Exec, Ctx, ◌>>=◌, ◌>>◌, pure, raise, panic, lift, wrapping, ctx_err}
use stowmark.Cipher.{new_encoder, finish}
use stowmark.Codec.{get_handler, new_writer, encode}
use stowmark.Repository.Compression.{Compression}
use stowmark.Storage.Files.{
  Fs, mkdir_all, open_file, create_excl, write, close, remove, call, undone,
}
use stowmark.Storage.Chunking.{finally}
use stowmark.Storage.Paths.{ObjectsPath}
use stowmark.Storage.Objects.{Setting, location}

-- `errors.Is(err, os.ErrExist)`
abbrev pub is_already_exist : Err → Bool
is_already_exist Err.already_exist = true
is_already_exist (Err.wrapped s e) = is_already_exist e
is_already_exist _ = false

-- A write to `output`.
abbrev pub emit : Bytes → Bytes → Bytes → Exec Fs (Unit {0})
emit path (k ∷ key) b = pure tt
emit path [] [] = pure tt
emit path [] (x ∷ b) = write path (x ∷ b) >>= λ _. pure tt

-- The deferred clean-up: the file is closed, and after a failure its directory is removed.
abbrev pub closing : {A : Type 0} → Bytes → Exec Fs A → Exec Fs A
closing directory m s = let (r, t) = m s in undone (remove directory) r (close t).1

module _ (o : Setting) where
  abbrev pub start_encryption : Bytes → Exec Fs (Unit {0})
  start_encryption [] = pure tt
  start_encryption (k ∷ key) = wrapping "create encryption writer" (new_encoder o.aead (k ∷ key))

  -- `closeEncryption`, which is nil without a key, on what was written to the buffer
  abbrev pub close_encryption : Bytes → Bytes → Bytes → Exec Fs (Unit {0})
  close_encryption path [] text = pure tt
  close_encryption path (k ∷ key) text = finish o.aead path (k ∷ key) text

  -- `_ = closeEncryption()`
  abbrev pub close_quietly : Bytes → Bytes → Bytes → Exec Fs (Unit {0})
  close_quietly path key text s = (ok tt, (close_encryption path key text s).1)

  -- `encoder.Encode`: after an error the encryption is closed.
  abbrev pub writer_or_close : Bytes → Bytes → Result (Unit {0}) → Exec Fs (Unit {0})
  writer_or_close path key (ok x) s = (ok tt, s)
  writer_or_close path key (err e) s = (err e, (close_encryption path key [] s).1)
  writer_or_close path key (panics p) s = (panics p, s)

  -- From `GetHandler` to the end. A nil compression is dereferenced.
  unfoldable pub write_object : Bytes → Bytes → Bytes → Option Compression → Exec Fs (Unit {0})
  unfolding finish write get_handler new_writer encode
  write_object path key text none = panic "nil pointer dereference"
  write_object path key text (some comp) = do
    lift (get_handler comp.comp_type)
    start_encryption key
    writer_or_close path key (new_writer o.packages comp.comp_type comp.level)
    let e = encode o.packages comp.comp_type comp.level text
    wrapping "copy object" (call >> emit path key e.body)
    wrapping "close destination file" (emit path key e.tail)
    close_quietly path key (e.body ++ e.tail)

  abbrev pub save_to :
      ObjectsPath → Bytes → Bytes → Option Compression → Result (Unit {0}) → Exec Fs (Unit {0})
  save_to dest key text comp (ok x) =
      closing dest.directory_path (write_object dest.object_path key text comp)
  save_to dest key text comp (err e) =
      if is_already_exist e then pure tt else raise (Err.wrapped "create object file" e)
  save_to dest key text comp (panics p) = panic p

  unfoldable pub save : Ctx → Bytes → Bytes → Option Compression → Bytes → ℕ → Exec Fs (Unit {0})
  unfolding write_object mkdir_all open_file create_excl
  save ctx file_path hash comp key g = do
    ctx_err ctx 0
    dest ← lift (location o hash g key false)
    wrapping "create object directory" (mkdir_all dest.directory_path)
    text ← wrapping "open source file" (open_file file_path)
    finally (λ s. let (r, t) = create_excl dest.object_path s in save_to dest key text comp r t)
        close
