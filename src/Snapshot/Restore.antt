-- ===== src/Snapshot/Restore.antt =====
-- restore.go and restore_file.go: all files of a snapshot, or one of them, to their own paths or
-- below another directory.
pub mod Laws
pub mod Paths
use stowmark.Base.{
  ℕ, Bytes, same, Bool, Option, none, some, List, [], ◌∷◌, Err, Result, ok, err, panics,
  if◌then◌else◌,
}
use stowmark.Base.Exec.{Exec, Ctx, ◌>>=◌, ◌>>◌, pure, raise, lift, attempt}
use stowmark.Repository.Config.{FolderRepository}
use stowmark.Repository.Compression.{Compression}
use stowmark.Snapshot.Model.{
  File, Manifest, Report, new_report, add_failed, add_success, change_source_path,
  ManifestRepository, ObjectRepository,
}
use stowmark.Snapshot.Key.{EncryptionData, symmetric_key, key_of, generation_of}

-- `if destinationPath != nil { f.ChangeSourcePath(man.Source(), *destinationPath) }`
unfoldable pub relocate : Bytes → Option Bytes → File → File
unfolding change_source_path
relocate source none f = f
relocate source (some destination) f = change_source_path source destination f

-- The reason of a failed file is its error.
unfoldable pub recorded : File → Result (Unit {0}) → Report Err → Report Err
recorded f (ok _) r = add_success r
recorded f (err e) r = add_failed f.path e r
recorded f (panics p) r = r

abbrev pub file_not_found : Err
file_not_found = Err.failure "failed to restore file: file not found"

-- `findFile`: the first file with the path
unfoldable pub find_file : List File → Bytes → Result File
find_file [] path = err file_not_found
find_file (f ∷ fs) path = if same f.path path then ok f else find_file fs path

module _ {W Reader : Type 0} (manifests : ManifestRepository W)
    (objects : ObjectRepository W Reader) (folder : FolderRepository W)
    (decrypt : Ctx → Bytes → Bytes → Exec W Bytes) where
  -- The loop over the files.
  pub restore_files :
      Ctx
      → Manifest
      → Option Bytes
      → Option EncryptionData
      → List File
      → Report Err
      → Exec W (Report Err)
  unfolding relocate recorded
  restore_files ctx man destination d [] r = pure r
  restore_files ctx man destination d (f ∷ fs) r = do
    let f' = relocate man.source destination f
    o ← attempt (objects.restore_object ctx man.compression f' (key_of d) (generation_of d))
    restore_files ctx man destination d fs (recorded f' o r)

  unfoldable pub restore : Ctx → Bytes → Bytes → Option Bytes → Option Bytes → Exec W (Report Err)
  unfolding restore_files
  restore ctx snapshot_id repository_path destination private_key_path = do
    d ← symmetric_key folder decrypt ctx private_key_path repository_path
    man ← manifests.get ctx snapshot_id
    restore_files ctx man destination d man.files (new_report snapshot_id)

  unfoldable pub restore_file :
      Ctx → Bytes → Bytes → Bytes → Option Bytes → Option Bytes → Exec W (Unit {0})
  unfolding find_file relocate
  restore_file ctx snapshot_id file_path repository_path destination private_key_path = do
    d ← symmetric_key folder decrypt ctx private_key_path repository_path
    man ← manifests.get ctx snapshot_id
    f ← lift (find_file man.files file_path)
    objects.restore_object ctx man.compression (relocate man.source destination f) (key_of d)
        (generation_of d)
