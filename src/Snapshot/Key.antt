-- ===== src/Snapshot/Key.antt =====
-- symmetric_key.go: the symmetric key and the generation that a service works with. `decrypt` is
-- `DecryptSymmetricKey.Decrypt`.
use stowmark.Base.{ℕ, Bytes, Option, none, some, Err, []}
use stowmark.Base.Exec.{Exec, Ctx, ◌>>=◌, pure, raise}
use stowmark.Encryption.{EncryptionConfig}
use stowmark.Repository.Config.{FolderRepository}

pub record EncryptionData : Type 0 where
  pub generation : ℕ
  pub symmetric_key : Bytes

abbrev pub missing_encryption_config : Err
missing_encryption_config = Err.failure "missing encryption config to encrypt"

abbrev pub required_encryption : {W : Type 0} → Option EncryptionConfig → Exec W EncryptionConfig
required_encryption none = raise missing_encryption_config
required_encryption (some e) = pure e

-- What the callers use of the data: no key and generation 0 where there is none.
abbrev pub key_of : Option EncryptionData → Bytes
key_of none = []
key_of (some d) = d.symmetric_key

abbrev pub generation_of : Option EncryptionData → ℕ
generation_of none = 0
generation_of (some d) = d.generation

module _ {W : Type 0} (folder : FolderRepository W)
    (decrypt : Ctx → Bytes → Bytes → Exec W Bytes) where
  unfoldable pub symmetric_key : Ctx → Option Bytes → Bytes → Exec W (Option EncryptionData)
  symmetric_key ctx none repository_path = pure none
  symmetric_key ctx (some private_key_path) repository_path = do
    conf ← folder.get_config ctx repository_path
    e ← required_encryption conf.encryption
    key ← decrypt ctx private_key_path e.encrypted_key
    pure (some (record { generation = e.generation; symmetric_key = key }))
