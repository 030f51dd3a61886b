-- ===== src/Repository/Config.antt =====
-- config.go, format_version.go, update_config.go, folder_repository.go and get_config.go. A
-- `uuid.UUID` is its sixteen bytes and a `time.Time` a number; `now` is `time.Now().UTC()`.
pub mod Laws
pub mod Stored
use stowmark.Base.{
  ℕ, Bytes, codes, Bool, true, false, ◌||◌, Option, none, some, List, [], ◌∷◌, ◌++◌, ℤ, ltb_ℤ,
  if◌then◌else◌, String,
}
use stowmark.Base.Exec.{Exec, Ctx}
use stowmark.Encryption.{EncryptionConfig}
use stowmark.Repository.Compression.{Compression}

abbrev pub format_version_one : ℤ
format_version_one = ℤ.pos 1

abbrev pub current_format_version : ℤ
current_format_version = ℤ.pos 2

unfoldable pub parse_format_version : ℤ → ℤ
parse_format_version version =
    if ltb_ℤ version format_version_one || ltb_ℤ current_format_version version
    then current_format_version
    else version

-- The two pointers may be nil.
pub record Config : Type 0 where
  pub id : Bytes
  pub format_version : ℤ
  pub created_at : ℕ
  pub compression : Option Compression
  pub encryption : Option EncryptionConfig

abbrev pub new_config : ℕ → Bytes → ℤ → Option Compression → Option EncryptionConfig → Config
new_config now id version comp enc = record {
  id = id;
  format_version = version;
  created_at = now;
  compression = comp;
  encryption = enc;
}

-- folder_repository.go, over an unknown state
pub record FolderRepository (W : Type 0) : Type 0 where
  pub exists : Ctx → Bytes → Exec W Bool
  pub create_folder : Ctx → Bytes → Exec W (Unit {0})
  pub create_config : Ctx → Bytes → Config → Exec W (Unit {0})
  pub get_config : Ctx → Bytes → Exec W Config

pub record InitResult : Type 0 where
  pub id : Bytes
  pub warnings : List String

abbrev pub removed_warning : String
removed_warning = "encryption configuration removed"

abbrev pub preserved_warning : String
preserved_warning = "the existing encryption configuration has been preserved"

abbrev warn : String → InitResult → InitResult
warn w r = record r { warnings = r.warnings ++ (w ∷ []) }

-- The switch: the encryption to keep, and the warnings. The arguments are those of the previous
-- configuration, of the new one, and `force`.
pub choose_encryption :
    Option EncryptionConfig
    → Option EncryptionConfig
    → Bool
    → InitResult
    → Option EncryptionConfig × InitResult
choose_encryption (some p) none true r = (none, warn removed_warning r)
choose_encryption (some p) none false r = (some p, warn preserved_warning r)
choose_encryption (some p) (some n) force r = (some p, r)
choose_encryption none n force r = (n, r)

unfoldable pub update_config : ℕ → Config → Config → Bool → InitResult → Config × InitResult
unfolding choose_encryption
update_config now previous new force r =
    let (enc, r') = choose_encryption previous.encryption new.encryption force r in
    (new_config now previous.id previous.format_version new.compression enc, r')
