-- ===== src/Storage/Encoding.antt =====
-- internal/infra/object/encoder.go: a chunk is compressed, checked against its hash and encrypted in
-- memory, for the storages that upload it.
pub mod Laws
use stowmark.Base.{
  ℕ, Bytes, Bool, true, false, not, same, Option, none, some, List, [], ◌∷◌, ◌++◌, Err, Result, ok,
  err, panics, take, drop,
}
use stowmark.Base.Exec.{Exec, Ctx, ◌>>=◌, ◌>>◌, pure, raise, lift, wrapping, ctx_err}
use stowmark.Cipher.{Aead, new_encoder, nonce_size}
use stowmark.Codec.{get_handler, new_writer, encode}
use stowmark.Repository.Compression.{Compression}
use stowmark.Storage.Chunking.{compression_required}
use stowmark.Storage.Files.{Fs, random}
use stowmark.Storage.Objects.{Setting, refuse_if}
use stowmark.Storage.Objects.Reads.{Read, read_all}

-- The encoder's closer over a buffer: only the draw of the nonce can fail.
abbrev pub finish_in_memory : Aead → Bytes → Bytes → Exec Fs Bytes
finish_in_memory aead key text =
    wrapping "generate AES-GCM nonce" (random aead.draw nonce_size) >>= λ nonce.
    pure (nonce ++ aead.seal key nonce text)

-- After the copy: an error of it closes the encoder, whose outcome is then dropped.
abbrev pub encrypt_read : Aead → Bytes → Read → Result (Unit {0}) → Exec Fs Bytes
encrypt_read aead key read (ok _) s =
    wrapping "finish encryption" (finish_in_memory aead key read.text) s
encrypt_read aead key read (err e) s =
    (err (Err.wrapped "write encryption input" e), (finish_in_memory aead key read.text s).1)
encrypt_read aead key read (panics p) s = (panics p, s)

unfoldable pub encrypt : Aead → Ctx → ℕ → Bytes → Bytes → Exec Fs Bytes
unfolding random
encrypt aead ctx n text key = do
  wrapping "create encryption encoder" (new_encoder aead key)
  λ s. let (read, t) = read_all ctx n text s in encrypt_read aead key read read.outcome t

-- `validateHash`
abbrev pub validate_hash : Setting → Bytes → Bytes → Exec Fs (Unit {0})
validate_hash o data' hash =
    refuse_if (not (same (o.sha256_hex data') hash)) (Err.failure "chunk hash mismatch")

abbrev pub encrypted : Setting → Ctx → ℕ → Bytes → Bytes → Exec Fs Bytes
encrypted o ctx n [] text = pure text
encrypted o ctx n (k ∷ key) text = wrapping "encrypt chunk" (encrypt o.aead ctx n text (k ∷ key))

-- What is done with the bytes that were read: the compressed bytes are checked and encrypted.
abbrev pub encode_read :
    Setting → Ctx → Bytes → Compression → Bytes → Read → Result (Unit {0}) → Exec Fs Bytes
encode_read o ctx hash comp key read (ok _) s =
    let e = encode o.packages comp.comp_type comp.level read.text in
    (validate_hash o (e.body ++ e.tail) hash >> encrypted o ctx read.checks key (e.body ++ e.tail))
      s
encode_read o ctx hash comp key read (err e) s = (err (Err.wrapped "compress chunk" e), s)
encode_read o ctx hash comp key read (panics p) s = (panics p, s)

abbrev pub compress_chunk : Setting → Ctx → Bytes → Compression → Bytes → Bytes → Exec Fs Bytes
compress_chunk o ctx hash comp key text = do
  lift (get_handler comp.comp_type)
  wrapping "create compression encoder" (lift (new_writer o.packages comp.comp_type comp.level))
  λ s. let (read, t) = read_all ctx 1 text s in encode_read o ctx hash comp key read read.outcome t

unfoldable pub encode_chunk :
    Setting → Ctx → Bytes → ℕ → ℕ → Option Compression → Bytes → Bytes → Exec Fs Bytes
unfolding encrypt get_handler new_writer encode
encode_chunk o ctx hash offset size none key source = ctx_err ctx 0 >> raise compression_required
encode_chunk o ctx hash offset size (some comp) key source =
    ctx_err ctx 0 >> compress_chunk o ctx hash comp key (take size (drop offset source))
