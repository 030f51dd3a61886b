-- ===== src/Encryption/Decrypt.antt =====
-- decrypt_symmetric_key.go: the key that was decrypted is kept in the service.
pub mod Laws
use stowmark.Base.{Bytes, [], ◌∷◌, ok}
use stowmark.Base.Exec.{Exec, Ctx, ◌>>=◌, ◌>>◌, pure}
use stowmark.Encryption.{AsymmetricKeyPairRepository, SymmetricKeyRepository}

-- The kept key beside the state of the repositories; the mutex makes a call one step.
pub record DecryptState (W : Type 0) : Type 0 where
  pub symmetric_key : Bytes
  pub world : W

-- A call of a repository
abbrev on_world : {W A : Type 0} → Exec W A → Exec (DecryptState W) A
on_world m s = let (r, w) = m s.world in (r, record s { world = w })

abbrev keep_key : {W : Type 0} → Bytes → Exec (DecryptState W) (Unit {0})
keep_key key s = (ok tt, record s { symmetric_key = key })

module _ {W PublicKey PrivateKey : Type 0}
    (symmetric : SymmetricKeyRepository W PublicKey PrivateKey)
    (asymmetric : AsymmetricKeyPairRepository W PublicKey PrivateKey) where
  abbrev fetch : Ctx → Bytes → Bytes → Exec (DecryptState W) Bytes
  fetch ctx private_key_path encoded_key = do
    private_key ← on_world (asymmetric.read_rsa_private_key ctx private_key_path)
    key ← on_world (symmetric.decode_and_decrypt_symmetric_key ctx private_key encoded_key)
    keep_key key
    pure key

  abbrev decrypt_with : Bytes → Ctx → Bytes → Bytes → Exec (DecryptState W) Bytes
  decrypt_with [] ctx private_key_path encoded_key s = fetch ctx private_key_path encoded_key s
  decrypt_with (b ∷ key) ctx private_key_path encoded_key s = pure (b ∷ key) s

  unfoldable pub decrypt : Ctx → Bytes → Bytes → Exec (DecryptState W) Bytes
  decrypt ctx private_key_path encoded_key s =
      decrypt_with s.symmetric_key ctx private_key_path encoded_key s
