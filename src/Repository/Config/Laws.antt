-- ===== src/Repository/Config/Laws.antt =====
-- Format versions, and what a second initialisation keeps.
use stowmark.Base.{ℕ, ◌≡◌, refl, Bool, true, false, Option, none, some, arith}
use stowmark.Encryption.{EncryptionConfig}
use stowmark.Repository.Config.{Config, InitResult, update_config}

-- The outcome of a second initialisation: the identity, the format version, and, unless the caller
-- forces an initialisation without encryption, the encryption of the first one.
pub record Keeps (previous updated : Config) (dropped : Bool) : Type 0 where
  pub same_id : updated.id ≡ previous.id
  pub same_version : updated.format_version ≡ previous.format_version
  pub same_encryption :
      (e : EncryptionConfig)
      → previous.encryption ≡ some e
      → dropped ≡ false
      → updated.encryption ≡ some e
  pub removed : dropped ≡ true → updated.encryption ≡ none

-- Encryption is dropped only if there was some, the new configuration has none, and `force` is set.
abbrev pub drops : Option EncryptionConfig → Option EncryptionConfig → Bool → Bool
drops (some p) none force = force
drops _ _ _ = false

-- A second initialisation keeps the identity and the format version, and takes the compression of
-- the new configuration. The encryption of the first is kept as it was, unless the new
-- configuration has none and `force` is set, and then there is none.
pub update_config-Keeps :
    (now : ℕ) (previous new : Config) (force : Bool) (r : InitResult)
    → Keeps previous
        (update_config now previous new force r).0
        (drops previous.encryption new.encryption force)
      × ((update_config now previous new force r).0.compression ≡ new.compression)
unfolding update_config
update_config-Keeps now previous new force r = (
  record {
    same_id = refl;
    same_version = refl;
    same_encryption = λ e h d. ground arith;
    removed = λ d. ground arith;
  },
  refl,
)
