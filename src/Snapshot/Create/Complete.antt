-- ===== src/Snapshot/Create/Complete.antt =====
-- A snapshot that was created is complete.
use stowmark.Base.{ℕ, Bytes, ◌≡◌, Bool, true, Option, some, [], Result, ok, length, get_elem?}
use stowmark.Base.Exec.{Exec, Ctx}
use stowmark.Base.Perms.{all_pass}
use stowmark.Repository.Config.{Config, FolderRepository}
use stowmark.Snapshot.Model.{
  File, Manifest, Source, CreateResult, SourceRepository, ManifestRepository, ObjectRepository,
}
use stowmark.Snapshot.Hashing.{Calculator, calculator_of}
use stowmark.Snapshot.Create.{Settings, generation_for, get_symmetric_key}
use stowmark.Snapshot.Create.Present.{Keeping}
use stowmark.Snapshot.Create.Made.{IsMade}
use stowmark.Storage.Hashes.{parts}

abbrev id_of : Result CreateResult → Bytes
id_of (ok r) = r.id
id_of _ = []

module _ {W Reader : Type 0} (present : Settings → W → Bytes → Bool)
    (objects : ObjectRepository W Reader) (source : SourceRepository W)
    (manifests : ManifestRepository W) (folder : FolderRepository W)
    (decrypt : Ctx → Bytes → Bytes → Exec W Bytes)
    (law : (s : Settings) → Keeping (present s) objects source manifests s) where
  -- What is said of a snapshot that was created: the configuration that was read, the calculator, the
  -- source and the key that follow from it, and the manifest that was saved.
  pub record IsComplete (id : Bytes) (now : ℕ) (ctx : Ctx) (repository_path source_path : Bytes)
      (private_key : Option Bytes) (w : W) (res : CreateResult) (v : W) : Type 0 where
    pub config : Config
    pub calculator : Calculator
    pub src : Source
    pub key : Bytes
    pub manifest : Manifest
    pub was_read : (folder.get_config ctx repository_path w).0 ≡ ok config
    pub version : calculator_of config.format_version ≡ ok calculator
    pub explored : (u : W) × ((source.explore ctx source_path u).0 ≡ ok src)
    -- the key that the private key gives of the configuration, or none
    pub key_read :
        (u : W) × ((get_symmetric_key objects source manifests folder decrypt ctx config.encryption
            private_key u).0
          ≡ ok key)
    -- the manifest names the source, and has a calculation of each of its files, in their order
    pub same_id : (manifest.id ≡ id) × (res.id ≡ id)
    pub same_source : manifest.source ≡ src.absolute_path
    pub same_time : manifest.created_at ≡ now
    pub compression : manifest.compression ≡ config.compression
    pub count : length manifest.files ≡ length src.files
    pub files :
        (i : ℕ) (f : File)
        → get_elem? src.files i ≡ some f
        → IsMade source calculator config.compression f (get_elem? manifest.files i)
    -- its saving is the last call, and succeeded
    pub was_saved : (c : Ctx) × (u : W) × (manifests.save c manifest u ≡ (ok tt, v))
    -- and every object of its files is there
    pub there :
        all_pass
          (λ f.
            all_pass
              (present
                (record {
                  compression = config.compression;
                  key = key;
                  generation = generation_for key config.encryption;
                })
                v)
              (parts f))
          manifest.files
        ≡ true
