-- ===== src/Snapshot/Create.antt =====
-- create.go: a pool of workers hashes every file of the source and saves the objects that the
-- repository lacks, and then the manifest is saved. `files[i]` is changed in place.
pub mod Present
pub mod Jobs
pub mod Made
pub mod Pooled
pub mod Complete
use stowmark.Base.{
  ℕ, ◌+◌, Bytes, Option, none, some, List, [], ◌∷◌, ◌++◌, Result, ok, err, panics, add64, lt64,
  length, get_elem?, set, if◌then◌else◌,
}
use stowmark.Base.Exec.{Exec, Ctx, ◌>>=◌, ◌>>◌, pure, raise, lift}
use stowmark.Encryption.{EncryptionConfig}
use stowmark.Repository.Compression.{Compression}
use stowmark.Repository.Config.{FolderRepository}
use stowmark.Snapshot.Model.{
  Chunk, File, Source, CreateResult, SourceRepository, ManifestRepository, ObjectRepository,
}
use stowmark.Snapshot.Key.{missing_encryption_config}
use stowmark.Snapshot.Hashing.{Calculator, calculator_of, calculate}
use stowmark.Snapshot.Rekey.{later}
use stowmark.Snapshot.Verify.{worker_count}
use stowmark.Pool.{Pool, Move, start, run_pool}

-- What the workers share: the files, the size that was saved, and the files of which something was.
pub record Shared (W : Type 0) : Type 0 where
  pub world : W
  pub files : List File
  pub total_size : ℕ
  pub saved_files : List File

-- What every call takes: the compression, the key and the generation.
pub record Settings : Type 0 where
  pub compression : Option Compression
  pub key : Bytes
  pub generation : ℕ

abbrev pub generation_for : Bytes → Option EncryptionConfig → ℕ
generation_for [] e = 0
generation_for (b ∷ key) none = 0
generation_for (b ∷ key) (some e) = e.generation

-- The indices of a slice, from `i` on.
abbrev pub indices : ℕ → List File → List ℕ
indices i [] = []
indices i (f ∷ fs) = i ∷ indices (i + 1) fs

-- A worker's job is an index of `files`. The file in the slice has its hashes from the
-- calculation on, also if saving fails.
abbrev pub saved_outcome :
    {W : Type 0} → ℕ → File → Result ℕ → Shared W → Result (Unit {0}) × Shared W
saved_outcome i f (err e) sh = (err e, sh)
saved_outcome i f (panics p) sh = (panics p, sh)
saved_outcome i f (ok n) sh = (
  ok tt,
  record sh {
    total_size = add64 sh.total_size n;
    saved_files = if lt64 0 n then sh.saved_files ++ f ∷ [] else sh.saved_files;
  },
)

module _ {W Reader : Type 0} (objects : ObjectRepository W Reader) (s : Settings) where
  unfoldable pub save_object : Ctx → File → Exec W ℕ
  save_object ctx f = do
    exists ← objects.already_exists ctx f.hash s.key s.generation
    if exists
        then pure 0
        else do objects.save ctx f.path f.hash s.compression s.key s.generation; pure f.size

  unfoldable pub save_chunk : Ctx → Bytes → Chunk → Exec W ℕ
  save_chunk ctx path c = do
    exists ← objects.already_exists ctx c.hash s.key s.generation
    if exists then pure 0 else do
      objects.save_chunk ctx path c.hash c.offset c.size s.compression s.key s.generation
      pure c.size

  -- The loop over the chunks, with the size saved so far.
  pub save_chunks : Ctx → Bytes → List Chunk → ℕ → Exec W ℕ
  unfolding save_chunk
  save_chunks ctx path [] saved = pure saved
  save_chunks ctx path (c ∷ cs) saved = do
    n ← save_chunk ctx path c
    save_chunks ctx path cs (add64 saved n)

  pub save_parts : Ctx → File → List Chunk → Exec W ℕ
  unfolding save_object save_chunks
  save_parts ctx f [] = save_object ctx f
  save_parts ctx f (c ∷ cs) = save_chunks ctx f.path (c ∷ cs) 0

  unfoldable pub save_file_objects : Ctx → File → Exec W ℕ
  unfolding save_parts
  save_file_objects ctx f = save_parts ctx f f.chunks

  module _ (source : SourceRepository W) (calculator : Calculator) where
    unfoldable pub calculated : Ctx → ℕ → Result File → Shared W → Result (Unit {0}) × Shared W
    unfolding save_file_objects
    calculated ctx i (err e) sh = (err e, sh)
    calculated ctx i (panics p) sh = (panics p, sh)
    calculated ctx i (ok f) sh =
        let (r, w) = save_file_objects ctx f sh.world in
        saved_outcome i f r (record sh { world = w; files = set sh.files i f })

    unfoldable pub file_job : Ctx → ℕ → Option File → Shared W → Result (Unit {0}) × Shared W
    unfolding calculated
    file_job ctx i none sh = (panics "index out of range", sh)
    file_job ctx i (some f) sh =
        let (r, w) = calculate source calculator ctx f s.compression sh.world in
        calculated ctx i r (record sh { world = w })

    unfoldable pub create_job : Ctx → ℕ → Shared W → Result (Unit {0}) × Shared W
    unfolding file_job
    create_job ctx i sh = file_job ctx i (get_elem? sh.files i) sh

    -- The pool at its end.
    unfoldable pub save_all : ℕ → ℕ → List Move → List File → W → Pool ℕ (Shared W)
    unfolding create_job run_pool
    save_all default_workers workers moves files w =
        run_pool (worker_count default_workers workers (length files)) create_job moves (
          start (indices 0 files)
            (record { world = w; files = files; total_size = 0; saved_files = [] }))

module _ {W Reader : Type 0} (objects : ObjectRepository W Reader) (source : SourceRepository W)
    (manifests : ManifestRepository W) (folder : FolderRepository W)
    (decrypt : Ctx → Bytes → Bytes → Exec W Bytes) where
  pub get_symmetric_key : Ctx → Option EncryptionConfig → Option Bytes → Exec W Bytes
  get_symmetric_key ctx none (some path) = raise missing_encryption_config
  get_symmetric_key ctx (some e) (some path) = decrypt ctx path e.encrypted_key
  get_symmetric_key ctx e none = pure []

  -- The part after `wg.Wait()`. The manifest is saved under the derived context.
  pub finish_create :
      Ctx → Bytes → ℕ → Source → Option Compression → Pool ℕ (Shared W) → Exec W CreateResult
  finish_create ctx id now src comp p w =
      (do
        lift p.status
        manifests.save (later p.interrupted ctx) (record {
          id = id;
          files = p.acc.files;
          created_at = now;
          source = src.absolute_path;
          compression = comp;
        })
        pure (record {
          id = id;
          file_count = length p.acc.saved_files;
          total_size = p.acc.total_size;
        }))
        p.acc.world

  -- `id` is `newID()` and `now` is `time.Now().UTC()`.
  unfoldable pub create :
      ℕ → ℕ → List Move → Bytes → ℕ → Ctx → Ctx → Bytes → Bytes → Option Bytes → Exec W CreateResult
  unfolding get_symmetric_key finish_create save_all
  create default_workers workers moves id now ctx save_ctx repository_path source_path private_key =
      do
        conf ← folder.get_config ctx repository_path
        calculator ← lift (calculator_of conf.format_version)
        src ← source.explore ctx source_path
        key ← get_symmetric_key ctx conf.encryption private_key
        λ w.
            let s : Settings = record {
              compression = conf.compression;
              key = key;
              generation = generation_for key conf.encryption;
            } in
            finish_create save_ctx id now src conf.compression
              (save_all objects s source calculator default_workers workers moves src.files w) w
