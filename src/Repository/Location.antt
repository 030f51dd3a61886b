-- ===== src/Repository/Location.antt =====
-- repository.go and repository_type.go. `parse_scheme` is `url.Parse` followed by `.Scheme`.
use stowmark.Base.{
  Bytes, codes, lookup, Option, none, some, List, [], ◌∷◌, ◌++◌, Result, ok, err, Err,
}
use stowmark.Repository.Config.{Config}

abbrev pub objects_folder : Bytes
objects_folder = codes "objects"

abbrev pub snapshots_folder : Bytes
snapshots_folder = codes "snapshots"

abbrev pub encrypted_folder : Bytes
encrypted_folder = codes "encrypted"

pub record Repository : Type 0 where
  pub path : Bytes
  pub config : Config

unfoldable pub snapshots_path : Repository → Bytes
snapshots_path r = r.path ++ (codes "/" ++ snapshots_folder)

unfoldable pub objects_path : Repository → Bytes
objects_path r = r.path ++ (codes "/" ++ objects_folder)

abbrev pub invalid_repository_name : Err
invalid_repository_name = Err.failure "invalid repository name"

abbrev pub missing_repository_config : Err
missing_repository_config = Err.failure "missing repository configuration"

-- `validate` and the constructor, over a configuration that may be nil
unfoldable pub new_repository : Bytes → Option Config → Result Repository
new_repository [] c = err invalid_repository_name
new_repository (b ∷ path) none = err missing_repository_config
new_repository (b ∷ path) (some c) = ok (record { path = b ∷ path; config = c })

pub data RepositoryType : Type 0 where
  local ssh smb s3 web_dav gcs : RepositoryType

abbrev pub invalid_repository_path : Err
invalid_repository_path = Err.failure "invalid repository path"

abbrev schemes : List (Bytes × RepositoryType)
schemes =
    (codes "ssh", ssh)
    ∷ (codes "sftp", ssh)
    ∷ (codes "smb", smb)
    ∷ (codes "s3", s3)
    ∷ (codes "http", web_dav)
    ∷ (codes "https", web_dav)
    ∷ (codes "webdav", web_dav)
    ∷ (codes "webdavs", web_dav)
    ∷ (codes "gcs", gcs)
    ∷ []

abbrev or_local : Option RepositoryType → RepositoryType
or_local none = local
or_local (some t) = t

abbrev type_of_scheme : Option Bytes → Result RepositoryType
type_of_scheme none = err invalid_repository_path
type_of_scheme (some scheme) = ok (or_local (lookup scheme schemes))

module _ (parse_scheme : Bytes → Option Bytes) where
  unfoldable pub parse_repository_type : Bytes → Result RepositoryType
  parse_repository_type [] = err invalid_repository_path
  parse_repository_type (b ∷ raw) = type_of_scheme (parse_scheme (b ∷ raw))
