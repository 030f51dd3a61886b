-- ===== src/Repository/Rewrap.antt =====
-- rewrap.go: the symmetric key is decrypted with the old private key and encrypted for a new public
-- key; the objects stay as they are. `base64` is `base64.StdEncoding.EncodeToString`.
pub mod Laws
use stowmark.Base.{ℕ, Bytes, Option, none, some, String}
use stowmark.Base.Exec.{Exec, Ctx, ◌>>=◌, ◌>>◌, pure, panic}
use stowmark.Encryption.{
  EncryptionConfig, AsymmetricKeyPairRepository, SymmetricKeyRepository, change_encrypted_key,
  change_public_key_finger_print,
}
use stowmark.Repository.Config.{Config, FolderRepository}

-- `conf.Encryption().EncryptedKey()`, which dereferences the pointer
abbrev pub encryption_of : {W : Type 0} → Option EncryptionConfig → Exec W EncryptionConfig
encryption_of none = panic "nil pointer dereference"
encryption_of (some e) = pure e

module _ {W PublicKey PrivateKey : Type 0} (folder : FolderRepository W)
    (symmetric : SymmetricKeyRepository W PublicKey PrivateKey)
    (asymmetric : AsymmetricKeyPairRepository W PublicKey PrivateKey) (base64 : Bytes → Bytes) where
  unfoldable pub rewrap : Ctx → Bytes → Bytes → Bytes → Exec W (Unit {0})
  rewrap ctx repository_path old_private_key_path new_public_key_path = do
    conf ← folder.get_config ctx repository_path
    private_key ← asymmetric.read_rsa_private_key ctx old_private_key_path
    e ← encryption_of conf.encryption
    symmetric_key ← symmetric.decode_and_decrypt_symmetric_key ctx private_key e.encrypted_key
    public_key ← asymmetric.read_rsa_public_key ctx new_public_key_path
    fingerprint ← asymmetric.public_key_finger_print ctx public_key
    encrypted ← symmetric.encrypt_symmetric_key ctx public_key symmetric_key
    let changed =
        change_public_key_finger_print fingerprint (change_encrypted_key (base64 encrypted) e)
    folder.create_config ctx repository_path (record conf { encryption = some changed })
