-- ===== src/Storage/Objects.antt =====
-- internal/infra/disk/object_repository.go: the objects of a repository on a local disk. The paths
-- are those of Storage/Paths.antt, over joins with a slash.
pub mod Listing
pub mod Places
pub mod Kept
pub mod View
pub mod Lawful
pub mod Rekeyed
pub mod Reads
pub mod Save
pub mod SaveChunk
pub mod Restore
pub mod Repository
use stowmark.Base.{
  ℕ, Bytes, Bool, true, false, Option, none, some, List, [], ◌∷◌, ◌++◌, Err, Result, ok, err,
  panics, length, ltb, take, drop, if◌then◌else◌, is_not_exist,
}
use stowmark.Base.Exec.{
  Exec, Ctx, ◌>>=◌, ◌>>◌, pure, raise, lift, panic, wrapping, attempt, ctx_err,
}
use stowmark.Cipher.{Aead}
use stowmark.Cipher
use stowmark.Codec.{Packages}
use stowmark.Storage.Files.{Fs, ◌/-◌, open_file, stat, call}
use stowmark.Storage.Paths.{
  ObjectsPath, get_objects_path, encrypted_generation_path, encrypted_object_path,
}

abbrev pub join : List Bytes → Bytes
join [] = []
join (x ∷ []) = x
join (x ∷ y ∷ r) = x /- join (y ∷ r)

-- What the repository holds and calls: its path, the ciphers and codecs, the decimal numeral of a
-- generation, the hexadecimal SHA-256, and the random part of a temporary file's name.
pub record Setting : Type 0 where
  pub repository_path : Bytes
  pub aead : Aead
  pub packages : Packages
  pub format_uint : ℕ → Bytes
  pub sha256_hex : Bytes → Bytes
  pub temp_suffix : ℕ → Bytes
  -- `filepath.Dir`
  pub dir : Bytes → Bytes

abbrev pub invalid_hash : Err
invalid_hash = Err.failure "invalid object hash"

abbrev pub key_required : Err
key_required = Err.failure "symmetric key is required"

abbrev pub refuse_if : {W : Type 0} → Bool → Err → Exec W (Unit {0})
refuse_if true e = raise e
refuse_if false e = pure tt

abbrev pub is_empty : Bytes → Bool
is_empty [] = true
is_empty (b ∷ bs) = false

module _ (o : Setting) where
  abbrev pub generation_path : ℕ → Bytes
  generation_path g =
      encrypted_generation_path join join (λ p. p) o.format_uint o.repository_path g false

  abbrev pub object_path : Bytes → ℕ → Bytes
  object_path hash g =
      encrypted_object_path join join (λ p. p) o.format_uint o.repository_path hash g

  abbrev pub location : Bytes → ℕ → Bytes → Bool → Result ObjectsPath
  location hash g key is_remote =
      get_objects_path join join (λ p. p) o.format_uint o.repository_path hash g key is_remote

  -- An error of the decoder closes the source; its own error is dropped.
  abbrev pub decoded_or_closed : Result Bytes → Exec Fs Bytes
  decoded_or_closed (ok text) s = (ok text, s)
  decoded_or_closed (err e) s = (err (Err.wrapped "decrypt object" e), (call s).1)
  decoded_or_closed (panics p) s = (panics p, s)

  abbrev pub decode_or_close : Bytes → Bytes → Exec Fs Bytes
  decode_or_close source key s =
      let (r, t) = Cipher.decode o.aead source key s in decoded_or_closed r t

  -- The reader that is returned gives the decrypted bytes.
  unfoldable pub read_encrypted_object : Ctx → Bytes → ℕ → Bytes → Exec Fs Bytes
  unfolding encrypted_object_path open_file Cipher.decode
  read_encrypted_object ctx hash g key = do
    ctx_err ctx 0
    refuse_if (ltb (length hash) 3) invalid_hash
    refuse_if (is_empty key) key_required
    source ← wrapping "open encrypted object" (open_file (object_path hash g))
    decode_or_close source key

  abbrev pub not_found : Bytes → Result Bytes → Result Bytes
  not_found hash (ok source) = ok source
  not_found hash (err e) =
      if is_not_exist e then err (Err.object_not_found hash) else err (Err.wrapped "open object" e)
  not_found hash (panics p) = panics p

  unfoldable pub read_object : Ctx → Bytes → Bytes → ℕ → Exec Fs Bytes
  unfolding get_objects_path open_file Cipher.decode
  read_object ctx hash key g = do
    ctx_err ctx 0
    refuse_if (ltb (length hash) 3) invalid_hash
    dest ← lift (location hash g key true)
    source ← (λ s. let (r, t) = open_file dest.object_path s in (not_found hash r, t))
    if is_empty key then pure source else decode_or_close source key

  abbrev pub exists_of : Result (Unit {0}) → Result Bool
  exists_of (ok _) = ok true
  exists_of (err e) =
      if is_not_exist e then ok false else err (Err.wrapped "check destination object" e)
  exists_of (panics p) = panics p

  unfoldable pub already_exists : Ctx → Bytes → Bytes → ℕ → Exec Fs Bool
  unfolding get_objects_path stat
  already_exists ctx hash key g = do
    ctx_err ctx 0
    refuse_if (ltb (length hash) 3) invalid_hash
    dest ← lift (location hash g key false)
    λ s. let (r, t) = stat dest.object_path s in (exists_of r, t)
