-- ===== src/Encryption/Create.antt =====
-- create_encryption_config.go, create_asymmetric_key_pair.go and asymmetric_key_pair.go. `base64`
-- is `base64.StdEncoding.EncodeToString`, and `generate_key`, `validate` are those of crypto/rsa.
use stowmark.Base.{Bytes, codes, ◌++◌}
use stowmark.Base.Exec.{Exec, Ctx, ◌>>=◌, pure, wrapping}
use stowmark.Encryption.{
  EncryptionConfig, new_encryption_config, AsymmetricKeyPairRepository, SymmetricKeyRepository,
}

module _ {W PublicKey PrivateKey : Type 0}
    (asymmetric : AsymmetricKeyPairRepository W PublicKey PrivateKey) where
  pub create_encryption_config :
      SymmetricKeyRepository W PublicKey PrivateKey
      → (Bytes → Bytes)
      → Ctx
      → Bytes
      → Exec W EncryptionConfig
  create_encryption_config symmetric base64 ctx public_key_path = do
    public_key ← asymmetric.read_rsa_public_key ctx public_key_path
    symmetric_key ← symmetric.generate_symmetric_key ctx
    encrypted_key ←
        wrapping "encrypt symmetric key"
          (symmetric.encrypt_symmetric_key ctx public_key symmetric_key)
    fingerprint ← asymmetric.public_key_finger_print ctx public_key
    pure (new_encryption_config (base64 encrypted_key) fingerprint 1)

  pub record AsymmetricKeyPair : Type 0 where
    pub public_key : Bytes
    pub private_key : Bytes

  pub new_asymmetric_key_pair : Exec W Bytes → Bytes → Exec W AsymmetricKeyPair
  new_asymmetric_key_pair generate_key_id folder = do
    id ← generate_key_id
    pure (record {
      public_key = folder ++ (codes "/" ++ (id ++ codes "-public.pem"));
      private_key = folder ++ (codes "/" ++ (id ++ codes "-private.pem"));
    })
