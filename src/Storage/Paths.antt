-- ===== src/Storage/Paths.antt =====
-- internal/infra/object/destination.go and encrypted_generation_path.go. `path.Join`,
-- `filepath.Join`, `filepath.FromSlash` and `strconv.FormatUint` are parameters.
use stowmark.Base.{
  ℕ, Bytes, ◌≡◌, ◌≤◌, ◌<◌, ap, ap₂, sym, ◌∙◌, Bool, true, false, List, [], ◌∷◌, ◌++◌, Result, ok,
  panics, length, take, drop, ltb, if◌then◌else◌, arith,
}
use stowmark.Repository.Location.{objects_folder, encrypted_folder}

pub record ObjectsPath : Type 0 where
  pub directory_path : Bytes
  pub object_path : Bytes

module _ (path_join filepath_join : List Bytes → Bytes) (from_slash : Bytes → Bytes)
    (format_uint : ℕ → Bytes) where
  -- An empty key means that the repository is not encrypted.
  abbrev pub folder_of : ℕ → Bytes → Bytes
  folder_of generation [] = objects_folder
  folder_of generation (b ∷ key) =
      path_join (objects_folder ∷ encrypted_folder ∷ format_uint generation ∷ [])

  abbrev objects_path_in : Bytes → Bytes → Bytes → Bytes → Bool → ObjectsPath
  objects_path_in repository folder prefix name true =
      let directory = path_join (repository ∷ folder ∷ prefix ∷ []) in
      record { directory_path = directory; object_path = path_join (directory ∷ name ∷ []) }
  objects_path_in repository folder prefix name false =
      let directory = filepath_join (repository ∷ from_slash folder ∷ prefix ∷ []) in
      record { directory_path = directory; object_path = filepath_join (directory ∷ name ∷ []) }

  -- `hash[:2]` is out of range for a hash of less than two bytes.
  unfoldable pub get_objects_path : Bytes → Bytes → ℕ → Bytes → Bool → Result ObjectsPath
  get_objects_path repository hash generation key is_remote =
      if ltb (length hash) 2
      then panics "slice bounds out of range"
      else ok (
          objects_path_in repository (folder_of generation key) (take 2 hash) (drop 2 hash)
            is_remote)

  unfoldable pub encrypted_generation_path : Bytes → ℕ → Bool → Bytes
  encrypted_generation_path repository generation true =
      path_join (repository ∷ objects_folder ∷ encrypted_folder ∷ format_uint generation ∷ [])
  encrypted_generation_path repository generation false =
      filepath_join (repository ∷ objects_folder ∷ encrypted_folder ∷ format_uint generation ∷ [])

  -- `objectPath` of `ReadEncryptedObject`, after its tests
  unfoldable pub encrypted_object_path : Bytes → Bytes → ℕ → Bytes
  unfolding encrypted_generation_path
  encrypted_object_path repository hash generation =
      filepath_join
        (encrypted_generation_path repository generation false ∷ take 2 hash ∷ drop 2 hash ∷ [])

-- What is relied on of the two packages: a join of a join is one join, whether the inner one comes
-- first or is the slash-separated path of an encrypted generation.
pub record Joins (path_join filepath_join : List Bytes → Bytes) (from_slash : Bytes → Bytes)
    (format_uint : ℕ → Bytes) : Type 0 where
  pub first :
      (xs ys : List Bytes) → filepath_join (filepath_join xs ∷ ys) ≡ filepath_join (xs ++ ys)
  pub second :
      (r p : Bytes) (g : ℕ)
      → filepath_join (
          r
          ∷ from_slash (path_join (objects_folder ∷ encrypted_folder ∷ format_uint g ∷ []))
          ∷ p
          ∷ [])
        ≡ filepath_join (r ∷ objects_folder ∷ encrypted_folder ∷ format_uint g ∷ p ∷ [])

module _ (path_join filepath_join : List Bytes → Bytes) (from_slash : Bytes → Bytes)
    (format_uint : ℕ → Bytes) (law : Joins path_join filepath_join from_slash format_uint) where
  -- With a key that is not empty and a hash of at least two bytes, an object is saved at the path
  -- at which a key rotation reads it, in the folder of its generation.
  pub get_objects_path-encrypted_object_path :
      (repository hash : Bytes) (generation b : ℕ) (key : Bytes)
      → 2 ≤ length hash
      → let at = encrypted_generation_path path_join filepath_join from_slash format_uint in
        get_objects_path path_join filepath_join from_slash format_uint repository hash generation
          (b ∷ key)
          false
        ≡ ok (record {
          directory_path = filepath_join (at repository generation false ∷ take 2 hash ∷ []);
          object_path =
              encrypted_object_path path_join filepath_join from_slash format_uint repository hash
                generation;
        })
  unfolding get_objects_path encrypted_object_path encrypted_generation_path
  get_objects_path-encrypted_object_path repository hash generation b key long =
      let base : List Bytes =
        repository ∷ objects_folder ∷ encrypted_folder ∷ format_uint generation ∷ [] in
      let short : ltb (length hash) 2 ≡ false = ground arith in
      let direct = law.second repository (take 2 hash) generation in
      rw short (
        ap₂ (λ d o. ok (record { directory_path = d; object_path = o }))
          (direct ∙ sym (law.first base (take 2 hash ∷ [])))
          (ap (λ d. filepath_join (d ∷ drop 2 hash ∷ [])) direct
            ∙ law.first (base ++ take 2 hash ∷ []) (drop 2 hash ∷ [])
            ∙ sym (law.first base (take 2 hash ∷ drop 2 hash ∷ []))))

  -- A path is refused, by a panic, exactly for a hash of less than two bytes.
  pub get_objects_path_short :
      (repository hash : Bytes) (generation : ℕ) (key : Bytes) (is_remote : Bool)
      → length hash < 2
      → get_objects_path path_join filepath_join from_slash format_uint repository hash generation
          key is_remote
        ≡ panics "slice bounds out of range"
  unfolding get_objects_path
  get_objects_path_short repository hash generation key is_remote short = ground arith
