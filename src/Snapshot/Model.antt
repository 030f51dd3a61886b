-- ===== src/Snapshot/Model.antt =====
-- chunk.go, file.go, manifest.go, source.go, manifest_resume.go, create_result.go, result.go,
-- error.go and the interfaces of repositories.go. Sizes and offsets are `int64`, as bit patterns.
use stowmark.Base.{ℕ, ◌+◌, ◌*◌, Bytes, Bool, true, false, Option, List, [], ◌∷◌, ◌++◌}
use stowmark.Base.Exec.{Exec, Ctx}
use stowmark.Base.Replace.{replace_all}
use stowmark.Repository.Compression.{Compression}

abbrev pub chunk_threshold : ℕ
chunk_threshold = 8 * 1024 * 1024

abbrev pub chunk_size : ℕ
chunk_size = 4 * 1024 * 1024

pub record Chunk : Type 0 where
  pub hash : Bytes
  pub offset : ℕ
  pub size : ℕ

-- A nil slice of chunks is the empty list.
pub record File : Type 0 where
  pub path : Bytes
  pub size : ℕ
  pub hash : Bytes
  pub chunks : List Chunk

abbrev pub new_file : Bytes → ℕ → File
new_file path size = record { path = path; size = size; hash = []; chunks = [] }

abbrev pub add_hash : Bytes → File → File
add_hash hash f = record f { hash = hash }

abbrev pub add_chunks : List Chunk → File → File
add_chunks c f = record f { chunks = c }

unfoldable pub change_source_path : Bytes → Bytes → File → File
unfolding replace_all
change_source_path source destination f = record f { path = replace_all f.path source destination }

abbrev pub hydrate : Bytes → Bytes → ℕ → List Chunk → File
hydrate path hash size chunks = record { path = path; size = size; hash = hash; chunks = chunks }

pub record Manifest : Type 0 where
  pub id : Bytes
  pub files : List File
  pub created_at : ℕ
  pub source : Bytes
  pub compression : Option Compression

pub record Source : Type 0 where
  pub absolute_path : Bytes
  pub files : List File

pub record ManifestResume : Type 0 where
  pub id : Bytes
  pub created_at : ℕ
  pub files : ℕ
  pub size : ℕ
  pub source : Bytes

pub record CreateResult : Type 0 where
  pub id : Bytes
  pub file_count : ℕ
  pub total_size : ℕ

-- What is reported for a file: a reason of the verifier, or the error of a restore.
pub record FailedResult {ℓ} (R : Type ℓ) : Type ℓ where
  pub path : Bytes
  pub reason : R

pub record Report {ℓ} (R : Type ℓ) : Type ℓ where
  pub snapshot_id : Bytes
  pub total_files : ℕ
  pub failed : List (FailedResult R)

module _ {R : Type 0} where
  abbrev pub new_report : Bytes → Report R
  new_report id = record { snapshot_id = id; total_files = 0; failed = [] }

  abbrev pub add_failed : Bytes → R → Report R → Report R
  add_failed path reason r = record r {
    failed = r.failed ++ (record { path = path; reason = reason } ∷ []);
    total_files = r.total_files + 1;
  }

  abbrev pub add_success : Report R → Report R
  add_success r = record r { total_files = r.total_files + 1 }

  abbrev pub is_success : Report R → Bool
  is_success r = elim r.failed [ [] ↦ true | _ ↦ false ]

-- The interfaces, over an unknown state. A reader that is read to its end and closed is the bytes
-- that it gives, or the error of the read or of the close.
pub record SourceRepository (W : Type 0) : Type 0 where
  pub explore : Ctx → Bytes → Exec W Source
  pub calculate_hash : Ctx → Bytes → Option Compression → Exec W Bytes
  pub calculate_chunks : Ctx → Bytes → ℕ → Option Compression → Exec W (List Chunk)

pub record ManifestRepository (W : Type 0) : Type 0 where
  pub save : Ctx → Manifest → Exec W (Unit {0})
  pub list : Ctx → Exec W (List Manifest)
  pub get : Ctx → Bytes → Exec W Manifest

pub record ObjectRepository (W : Type 0) (Reader : Type 0) : Type 0 where
  pub save : Ctx → Bytes → Bytes → Option Compression → Bytes → ℕ → Exec W (Unit {0})
  pub already_exists : Ctx → Bytes → Bytes → ℕ → Exec W Bool
  pub read_object : Ctx → Bytes → Bytes → ℕ → Exec W Reader
  pub restore_object : Ctx → Option Compression → File → Bytes → ℕ → Exec W (Unit {0})
  pub save_chunk : Ctx → Bytes → Bytes → ℕ → ℕ → Option Compression → Bytes → ℕ → Exec W (Unit {0})
  pub list_encrypted_objects : Ctx → ℕ → Exec W (List Bytes)
  pub read_encrypted_object : Ctx → Bytes → ℕ → Bytes → Exec W Reader
  pub save_rekeyed_object : Ctx → Bytes → Reader → ℕ → Bytes → Exec W (Unit {0})
  pub delete_encrypted_generation : Ctx → ℕ → Exec W (Unit {0})
  pub abort_rekey : Ctx → ℕ → Exec W (Unit {0})
  -- `io.ReadAll` through a reader that checks the context, and `Close`
  pub read_all : Ctx → Reader → Exec W Bytes
  pub close : Reader → Exec W (Unit {0})
