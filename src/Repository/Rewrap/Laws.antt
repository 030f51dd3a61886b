-- ===== src/Repository/Rewrap/Laws.antt =====
-- A rewrap changes who can read the symmetric key, and nothing else.
use stowmark.Base.{Bytes, ◌≡◌, some, ok}
use stowmark.Base.Exec.{Ctx, background}
use stowmark.Encryption.{EncryptionConfig, AsymmetricKeyPairRepository, SymmetricKeyRepository}
use stowmark.Encryption.Keys.{Keys}
use stowmark.Repository.Config.{Config, FolderRepository}
use stowmark.Repository.Config.Stored.{Stored, timeless}

module _ {W PublicKey PrivateKey : Type 0} (folder : FolderRepository W)
    (symmetric : SymmetricKeyRepository W PublicKey PrivateKey)
    (asymmetric : AsymmetricKeyPairRepository W PublicKey PrivateKey) (base64 : Bytes → Bytes) where
  module _ (held : Stored folder) (Pair : PublicKey → PrivateKey → Type 0) where
    open held use {stored}

    -- The configuration after a rewrap, from the one before it.
    pub record Rewrapped (ctx : Ctx) (path new_public : Bytes) (w v : W) : Type 0 where
      pub before : Config
      pub encryption : EncryptionConfig
      pub changed : EncryptionConfig
      pub key : Bytes
      pub was_held : stored w path ≡ some (timeless before)
      pub was_encrypted : before.encryption ≡ some encryption
      pub is_held : stored v path ≡ some (timeless (record before { encryption = some changed }))
      pub same_generation : changed.generation ≡ encryption.generation
      -- the key is the one that the repository had
      pub old_key :
          (p : PrivateKey) × (u : W) × ((symmetric.decode_and_decrypt_symmetric_key ctx p
              encryption.encrypted_key u).0
            ≡ ok key)
      -- and the partner of the new public key decrypts it
      pub new_key :
          (p : PublicKey) × ((u : W) × ((asymmetric.read_rsa_public_key ctx new_public u).0 ≡ ok p))
          × ((q : PrivateKey) (u : W)
              → Pair p q
              → (symmetric.decode_and_decrypt_symmetric_key background q changed.encrypted_key u).0
                ≡ ok key)
