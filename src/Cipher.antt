-- ===== src/Cipher.antt =====
-- internal/infra/encrypt: the AES-GCM handler and the symmetric key repository. AES-GCM, RSA-OAEP,
-- base64 and the random source are the fields of a record.
pub mod Stream
pub mod Laws
pub mod SymmetricKeys
use stowmark.Base.{
  ℕ, ◌≡◌, ◌≤◌, Bytes, Bool, true, false, ◌||◌, ◌==◌, ltb, Option, none, some, List, [], ◌∷◌, ◌++◌,
  Err, Result, ok, err, length, take, drop, if◌then◌else◌,
}
use stowmark.Base.Exec.{Exec, ◌>>=◌, ◌>>◌, pure, raise, lift, wrapping}
use stowmark.Encryption.Keys.{aes_256_key_size}
use stowmark.Storage.Files.{Fs, call, random, write}
use stowmark.Cipher.Stream.{write_full}

abbrev pub nonce_size : ℕ
nonce_size = 12

-- The key, the nonce, and the text or the sealed text.
pub record Aead : Type 0 where
  pub seal : Bytes → Bytes → Bytes → Bytes
  pub unseal : Bytes → Bytes → Bytes → Option Bytes
  -- the n-th draw of the random source, of so many bytes
  pub draw : ℕ → ℕ → Bytes

-- What is relied on: a sealed text opens to the text, and a draw has the bytes that were asked for.
pub record IsAead (aead : Aead) : Type 0 where
  pub opens :
      (key nonce text : Bytes) → aead.unseal key nonce (aead.seal key nonce text) ≡ some text
  pub draw_size : (size n : ℕ) → length (aead.draw size n) ≡ size

-- `aes.NewCipher` knows keys of 16, 24 and 32 bytes.
abbrev pub is_aes_key : Bytes → Bool
is_aes_key key = length key == 16 || length key == 24 || length key == 32

module _ (aead : Aead) where
  abbrev pub opened : Option Bytes → Result Bytes
  opened none = err (Err.wrapped "decrypt data" (Err.failure "message authentication failed"))
  opened (some text) = ok text

  -- `Decode` of what a source holds. The two reads of the source may fail.
  unfoldable pub decode : Bytes → Bytes → Exec Fs Bytes
  decode source key =
      if is_aes_key key
      then wrapping "read nonce" call
        >> lift (if ltb (length source) nonce_size then err (Err.failure "read nonce") else ok tt)
        >> wrapping "read encrypted data" call
        >> lift (opened (aead.unseal key (take nonce_size source) (drop nonce_size source)))
      else raise (Err.failure "create AES cipher")

  -- `Encode`: the test on the key. The encoder's writer is a buffer in memory.
  abbrev pub new_encoder : {W : Type 0} → Bytes → Exec W (Unit {0})
  new_encoder key =
      if length key == aes_256_key_size
      then pure tt
      else raise (Err.failure "invalid AES-256 key size")

  -- The encoder's closer, on what was written to it: the nonce and the sealed text go to the file.
  unfoldable pub finish : Bytes → Bytes → Bytes → Exec Fs (Unit {0})
  unfolding write_full
  finish path key text = do
    nonce ← wrapping "generate AES-GCM nonce" (random aead.draw nonce_size)
    wrapping "write AES-GCM nonce" (write_full (write path) (length nonce) nonce)
    let sealed = aead.seal key nonce text
    wrapping "write encrypted data" (write_full (write path) (length sealed) sealed)

-- What the bytes of an encrypted object hold, with a key.
abbrev pub plain : Aead → Bytes → Bytes → Option Bytes
plain aead key source =
    if is_aes_key key
    then (if ltb (length source) nonce_size
        then none
        else aead.unseal key (take nonce_size source) (drop nonce_size source))
    else none
