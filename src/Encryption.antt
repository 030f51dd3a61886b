-- ===== src/Encryption.antt =====
-- internal/domain/encryption: the encryption part of a repository's configuration, the two key
-- interfaces, and the services over them. RSA keys are the parameters `PublicKey` and `PrivateKey`.
pub mod Create
pub mod Decrypt
pub mod Keys
use stowmark.Base.{ℕ, List, Bytes, codes, String}
use stowmark.Base.Exec.{Exec, Ctx}

abbrev pub default_encryption_type : Bytes
default_encryption_type = codes "aes-256-gcm"

abbrev pub default_key_encryption : Bytes
default_key_encryption = codes "rsa-oaep-sha256"

pub record EncryptionConfig : Type 0 where
  pub encryption_type : Bytes
  pub key_encryption : Bytes
  pub encrypted_key : Bytes
  pub public_key_fingerprint : Bytes
  pub generation : ℕ

abbrev pub new_encryption_config : Bytes → Bytes → ℕ → EncryptionConfig
new_encryption_config key fingerprint gen = record {
  encryption_type = default_encryption_type;
  key_encryption = default_key_encryption;
  encrypted_key = key;
  public_key_fingerprint = fingerprint;
  generation = gen;
}

abbrev pub change_encrypted_key : Bytes → EncryptionConfig → EncryptionConfig
change_encrypted_key key e = record e { encrypted_key = key }

abbrev pub change_public_key_finger_print : Bytes → EncryptionConfig → EncryptionConfig
change_public_key_finger_print fingerprint e = record e { public_key_fingerprint = fingerprint }

abbrev pub change_generation : ℕ → EncryptionConfig → EncryptionConfig
change_generation i e = record e { generation = i }

-- The interfaces of repositories.go, over an unknown state.
pub record AsymmetricKeyPairRepository (W PublicKey PrivateKey : Type 0) : Type 0 where
  pub create_private_key : Ctx → Bytes → PrivateKey → Exec W (Unit {0})
  pub create_public_key : Ctx → Bytes → PublicKey → Exec W (Unit {0})
  pub read_rsa_public_key : Ctx → Bytes → Exec W PublicKey
  pub read_rsa_private_key : Ctx → Bytes → Exec W PrivateKey
  pub public_key_finger_print : Ctx → PublicKey → Exec W Bytes

pub record SymmetricKeyRepository (W PublicKey PrivateKey : Type 0) : Type 0 where
  pub generate_symmetric_key : Ctx → Exec W Bytes
  pub encrypt_symmetric_key : Ctx → PublicKey → Bytes → Exec W Bytes
  pub decode_and_decrypt_symmetric_key : Ctx → PrivateKey → Bytes → Exec W Bytes
