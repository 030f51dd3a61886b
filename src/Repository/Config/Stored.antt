-- ===== src/Repository/Config/Stored.antt =====
-- What the services rely on of a folder repository: the configuration that it holds at each path.
-- A `time.Time` of creation is not part of it: `BuildConfigDomain` stamps the time of the reading.
use stowmark.Base.{
  ℕ, Bytes, same, ◌≡◌, Bool, true, false, Option, none, some, Result, ok, if◌then◌else◌,
}
use stowmark.Base.Exec.{Ctx}
use stowmark.Document.Laws.{IsStorable, AllDefaults}
use stowmark.Repository.Compression.{Compression}
use stowmark.Encryption.{EncryptionConfig}
use stowmark.Repository.Config.{
  Config, FolderRepository, InitResult, update_config, choose_encryption,
}

-- A configuration but for its time of creation.
abbrev pub timeless : Config → Config
timeless c = record c { created_at = 0 }

-- A configuration that a document can hold: a compression of a known type with a fitting level, and
-- an encryption part with the fixed types.
pub record IsReadable (c : Config) : Type 0 where
  pub comp : Compression
  pub has_compression : c.compression ≡ some comp
  pub storable : IsStorable comp
  pub defaults : AllDefaults c.encryption

-- What an update makes of two configurations that can be read.
pub update_config-IsReadable :
    (n : ℕ) (previous new : Config) (force : Bool) (r : InitResult)
    → IsReadable previous
    → IsReadable new
    → IsReadable (update_config n previous new force r).0
unfolding update_config choose_encryption
update_config-IsReadable n previous new force r p q = record {
  comp = q.comp;
  has_compression = q.has_compression;
  storable = q.storable;
  defaults = kept previous.encryption new.encryption force p.defaults q.defaults;
}
  where
    kept :
        (a b : Option EncryptionConfig) (f : Bool)
        → AllDefaults a
        → AllDefaults b
        → AllDefaults (choose_encryption a b f r).0
    kept none b f x y = y
    kept (some a) none true x y = y
    kept (some a) none false x y = x
    kept (some a) (some b) f x y = x

pub record Stored {W : Type 0} (repo : FolderRepository W) : Type 0 where
  -- what a reading gives at each path, but for the time of creation
  pub stored : W → Bytes → Option Config
  -- a configuration that was written without an error is the one that is held
  pub create_config_ok :
      (ctx : Ctx) (path : Bytes) (c : Config) (w : W) {x : Unit {0}} {v : W}
      → IsReadable c
      → repo.create_config ctx path c w ≡ (ok x, v)
      → (p : Bytes) → stored v p ≡ (if same path p then some (timeless c) else stored w p)
  -- a configuration that is read is the one that is held
  pub get_config_ok :
      (ctx : Ctx) (path : Bytes) (w : W) {c : Config} {v : W}
      → repo.get_config ctx path w ≡ (ok c, v)
      → (stored w path ≡ some (timeless c)) × IsReadable c
  pub get_config_keeps :
      (ctx : Ctx) (path : Bytes) (w : W) {r : Result Config} {v : W}
      → repo.get_config ctx path w ≡ (r, v)
      → stored v ≡ stored w
  pub exists_keeps :
      (ctx : Ctx) (path : Bytes) (w : W) {r : Result Bool} {v : W}
      → repo.exists ctx path w ≡ (r, v)
      → stored v ≡ stored w
  pub create_folder_keeps :
      (ctx : Ctx) (path : Bytes) (w : W) {r : Result (Unit {0})} {v : W}
      → repo.create_folder ctx path w ≡ (r, v)
      → stored v ≡ stored w
