-- ===== src/Repository/Init.antt =====
-- init.go: the first and every later initialisation of a repository. `uuid_string` is
-- `uuid.UUID.String`.
pub mod Laws
use stowmark.Base.{ℕ, Bytes, Bool, true, false, List, [], ok}
use stowmark.Base.Exec.{Exec, Ctx, ◌>>=◌, ◌>>◌, pure}
use stowmark.Repository.Config.{Config, FolderRepository, InitResult, update_config}
use stowmark.Repository.Location.{Repository, objects_path, snapshots_path}

module _ {W : Type 0} (repo : FolderRepository W) (uuid_string : Bytes → Bytes) (now : ℕ) where
  pub init_config : Bool → Ctx → Repository → Bool → InitResult → Exec W (Config × InitResult)
  init_config true ctx r force result = do
    previous ← repo.get_config ctx r.path
    pure (update_config now previous r.config force result)
  init_config false ctx r force result = pure (r.config, result)

  unfoldable pub init : Ctx → Repository → Bool → Exec W InitResult
  unfolding init_config
  init ctx r force = do
    exists ← repo.exists ctx r.path
    repo.create_folder ctx r.path
    (conf, result) ← init_config exists ctx r force (record { id = []; warnings = [] })
    repo.create_config ctx r.path conf
    repo.create_folder ctx (objects_path r)
    repo.create_folder ctx (snapshots_path r)
    pure (record result { id = uuid_string conf.id })
