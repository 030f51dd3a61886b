-- ===== src/Storage/Objects/Restore.antt =====
-- `RestoreObject` and `restoreObjectPart` of internal/infra/disk/object_repository.go. The context
-- is looked at for the n-th time; each call gives how often it was.
pub mod Texts
pub mod Assembled
use stowmark.Base.{
  ℕ, suc, ◌+◌, Bytes, Bool, true, false, ◌==◌, Option, none, some, List, [], ◌∷◌, ◌++◌, Err, Result,
  ok, err, panics, length, add64, if◌then◌else◌,
}
use stowmark.Base.Exec.{Exec, Ctx, ◌>>=◌, ◌>>◌, pure, raise, panic, lift, wrapping, ctx_err}
use stowmark.Cipher
use stowmark.Codec
use stowmark.Codec.{Decoded, get_handler, new_reader}
use stowmark.Repository.Compression.{Compression}
use stowmark.Snapshot.Model.{File}
use stowmark.Storage.Chunking.{finally, compression_required}
use stowmark.Storage.Files.{Fs, mkdir_all, open_file, create, write, close, remove, unless_ok}
use stowmark.Storage.Hashes.{object_hashes}
use stowmark.Storage.Objects.{Setting, location}
use stowmark.Storage.Objects.Reads.{Read, read_all}

abbrev pub decrypted : Setting → Bytes → Bytes → Exec Fs Bytes
decrypted o [] source = pure source
decrypted o (k ∷ key) source = wrapping "decrypt object" (Cipher.decode o.aead source (k ∷ key))

-- A copy that is not ended by the context ends as the decoder does.
abbrev pub copy_ended : Result (Unit {0}) → Option Err → Result (Unit {0})
copy_ended (ok _) none = ok tt
copy_ended (ok _) (some e) = err e
copy_ended r e = r

-- The bytes written, and the number of the next look at the context.
abbrev pub Written : Type 0
Written = ℕ × ℕ

abbrev pub write_part : Bytes → Bytes → Exec Fs (Unit {0})
write_part destination [] = pure tt
write_part destination (b ∷ text) = write destination (b ∷ text) >>= λ _. pure tt

module _ (o : Setting) where
  abbrev pub copy_part : Ctx → ℕ → Bytes → Decoded → Exec Fs Written
  copy_part ctx n destination d s =
      let (read, t) = read_all ctx n d.text s in
      (write_part destination read.text
          >> (lift (copy_ended read.outcome d.error) >> pure (length read.text, read.checks)))
        t

  -- What is done with an open object.
  unfoldable pub decode_part : Ctx → ℕ → Compression → Bytes → Bytes → Bytes → Exec Fs Written
  unfolding get_handler new_reader Codec.decode
  decode_part ctx n comp destination key source = do
    text ← decrypted o key source
    lift (get_handler comp.comp_type)
    wrapping "decode object" (lift (new_reader o.packages comp.comp_type text))
    wrapping "read decoded object"
        (copy_part ctx n destination (Codec.decode o.packages comp.comp_type text))

  unfoldable pub restore_object_part :
      Ctx → ℕ → Compression → Bytes → Bytes → Bytes → ℕ → Exec Fs Written
  unfolding open_file close decode_part
  restore_object_part ctx n comp hash destination key g = do
    ctx_err ctx n
    dest ← lift (location o hash g key false)
    source ← wrapping "open object" (open_file dest.object_path)
    finally (decode_part ctx (suc n) comp destination key source) close

  -- The loop over the hashes, with the size so far.
  unfoldable pub restore_parts :
      Ctx → ℕ → Compression → Bytes → Bytes → ℕ → ℕ → List Bytes → Exec Fs ℕ
  unfolding restore_object_part
  restore_parts ctx n comp destination key g size [] = pure size
  restore_parts ctx n comp destination key g size (hash ∷ hashes) = do
    ctx_err ctx n
    (written, next) ←
        wrapping "restore part" (restore_object_part ctx (suc n) comp hash destination key g)
    restore_parts ctx next comp destination key g (add64 size written) hashes

  unfoldable pub restore_content :
      Ctx → Compression → File → List Bytes → Bytes → ℕ → Exec Fs (Unit {0})
  unfolding restore_parts close
  restore_content ctx comp file hashes key g = do
    size ← restore_parts ctx 1 comp file.path key g 0 hashes
    (if size == file.size then pure tt else raise (Err.failure "restored size mismatch"))
    wrapping "close restored file" close

  abbrev pub give_up : Bytes → Exec Fs (Unit {0})
  give_up destination s = remove destination (close s).1

  unfoldable pub restore_object : Ctx → Option Compression → File → Bytes → ℕ → Exec Fs (Unit {0})
  unfolding object_hashes restore_content mkdir_all create remove
  restore_object ctx none file key g = ctx_err ctx 0 >> raise compression_required
  restore_object ctx (some comp) file key g = do
    ctx_err ctx 0
    hashes ← lift (object_hashes file)
    wrapping "create destination directory" (mkdir_all (o.dir file.path))
    wrapping "create restored file" (create file.path)
    unless_ok (restore_content ctx comp file hashes key g) (give_up file.path)
