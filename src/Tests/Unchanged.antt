-- ===== src/Tests/Unchanged.antt =====
-- Storage that never changes: a repository without a state, whose objects are named by their bytes.
use stowmark.Base.{
  Bytes, codes, same, Bool, true, false, none, [], ◌∷◌, Err, ok, err, if◌then◌else◌,
}
use stowmark.Base.Exec.{Exec, Ctx, pure, raise}
use stowmark.Repository.Config.{FolderRepository}
use stowmark.Snapshot.Model.{File, Manifest, ManifestRepository, ObjectRepository, SourceRepository}

abbrev pub State : Type 0
State = Unit {0}

abbrev pub good : File
good = record { path = codes "/src/a"; size = 3; hash = codes "aaa"; chunks = [] }

abbrev pub bad : File
bad = record { path = codes "/src/b"; size = 2; hash = codes "missing"; chunks = [] }

abbrev pub manifest : Manifest
manifest = record {
  id = codes "s1";
  files = good ∷ bad ∷ [];
  created_at = 5;
  source = codes "/src";
  compression = none;
}

-- Every object is there but the one that is named "missing".
abbrev pub object_at : Bytes → Exec State Bytes
object_at hash w =
    (if same hash (codes "missing") then err (Err.object_not_found hash) else ok hash, w)

abbrev restored : Bool → Exec State (Unit {0})
restored true = raise (Err.failure "open object")
restored false = pure tt

abbrev pub objects : ObjectRepository State Bytes
objects = record {
  save = λ ctx path hash comp key g. pure tt;
  already_exists = λ ctx hash key g. pure true;
  read_object = λ ctx hash key g. object_at hash;
  restore_object = λ ctx comp f key g. restored (same f.hash (codes "missing"));
  save_chunk = λ ctx path hash offset size comp key g. pure tt;
  list_encrypted_objects = λ ctx g. pure [];
  read_encrypted_object = λ ctx hash g key. object_at hash;
  save_rekeyed_object = λ ctx hash reader g key. pure tt;
  delete_encrypted_generation = λ ctx g. pure tt;
  abort_rekey = λ ctx g. pure tt;
  read_all = λ ctx reader. pure reader;
  close = λ reader. pure tt;
}

abbrev pub manifests : ManifestRepository State
manifests = record {
  save = λ ctx m. pure tt;
  list = λ ctx. pure (manifest ∷ []);
  get = λ ctx id. pure manifest;
}

abbrev pub folder : FolderRepository State
folder = record {
  exists = λ ctx path. pure true;
  create_folder = λ ctx path. pure tt;
  create_config = λ ctx path c. pure tt;
  get_config = λ ctx path. raise (Err.repository_not_found "config file not found");
}

abbrev pub decrypt : Ctx → Bytes → Bytes → Exec State Bytes
decrypt ctx path key = pure key

abbrev pub source : SourceRepository State
source = record {
  explore = λ ctx path. pure (record { absolute_path = path; files = good ∷ [] });
  calculate_hash = λ ctx path comp. pure path;
  calculate_chunks =
      λ ctx path size comp. pure (record { hash = path; offset = 0; size = size } ∷ []);
}

abbrev pub sha256_hex : Bytes → Bytes
sha256_hex b = b
