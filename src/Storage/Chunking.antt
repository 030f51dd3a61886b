-- ===== src/Storage/Chunking.antt =====
-- internal/infra/disk/source_explorer.go: `calculateReaderHash`, `CalculateHash` and
-- `CalculateChunks`. The file system, the compression handlers, SHA-256 and `io.Copy` are the
-- parameters of a record. Sizes and offsets are `int64` as bit patterns.
pub mod Tiles
pub mod Ends
use stowmark.Base.{
  ℕ, zero, suc, ◌+◌, Bytes, Bool, true, false, Option, none, some, List, [], ◌∷◌, ◌++◌, Err, Result,
  ok, err, panics, ℤ, add64, sub64, lt64, le64, if◌then◌else◌,
}
use stowmark.Base.Exec.{
  Exec, Ctx, ◌>>=◌, ◌>>◌, pure, raise, panic, lift, wrapping, attempt, ctx_err,
}
use stowmark.Repository.Compression.{Compression, CompressionType}
use stowmark.Snapshot.Model.{Chunk}

-- What a reader of an open file gives: all of it, or a section (`io.NewSectionReader`).
pub data Part (Handle : Type 0) : Type 0 where
  whole : Handle → Part Handle
  section : Handle → ℕ → ℕ → Part Handle

pub record FileInfo : Type 0 where
  pub size : ℕ
  pub is_regular : Bool

pub record Opener (W Handle : Type 0) : Type 0 where
  -- `os.Open`, `file.Stat`, `file.Close`
  pub open_file : Bytes → Exec W Handle
  pub stat : Handle → Exec W FileInfo
  pub close_file : Handle → Exec W (Unit {0})

pub record Disk (W Handle Writer : Type 0) : Type 0 where
  pub files : Opener W Handle
  -- `GetHandler` and `handler.Encode` over a hasher
  pub encoder : CompressionType → Option ℤ → Exec W Writer
  -- `io.Copy` through a reader that checks the context, the closer if there is one, the digest
  pub copy : Ctx → Part Handle → Writer → Exec W (Unit {0})
  pub close_writer : Writer → Exec W (Unit {0})
  pub digest : Writer → Exec W Bytes

-- `defer func() { _ = file.Close() }()`
abbrev pub finally : {W A : Type 0} → Exec W A → Exec W (Unit {0}) → Exec W A
finally m close w = let (r, u) = m w in (r, (close u).1)

abbrev pub compression_required : Err
compression_required = Err.failure "compression configuration is required"

-- `currentSize`
abbrev pub current_size : ℕ → ℕ → ℕ → ℕ
current_size file_size chunk_size offset =
    let remaining = sub64 file_size offset in
    if lt64 remaining chunk_size then remaining else chunk_size

module _ {W Handle Writer : Type 0} (disk : Disk W Handle Writer) where
  -- After an error of the copy the encoder is closed and its error dropped.
  abbrev copied : Writer → Result (Unit {0}) → Exec W (Unit {0})
  copied writer (err e) =
      (λ w. (err (Err.wrapped "compress data for hashing" e), (disk.close_writer writer w).1))
  copied writer (panics p) = panic p
  copied writer (ok _) = wrapping "finish compression for hashing" (disk.close_writer writer)

  unfoldable pub calculate_reader_hash : Ctx → Part Handle → Compression → Exec W Bytes
  calculate_reader_hash ctx part comp = do
    writer ← disk.encoder comp.comp_type comp.level
    r ← attempt (disk.copy ctx part writer)
    copied writer r
    disk.digest writer

  -- `comp.CompType()` of a nil compression reads a field of it.
  unfoldable pub calculate_hash : Ctx → Bytes → Option Compression → Exec W Bytes
  unfolding calculate_reader_hash
  calculate_hash ctx path none = wrapping "open file" (disk.files.open_file path) >>= λ file.
      finally (panic "nil pointer dereference") (disk.files.close_file file)
  calculate_hash ctx path (some comp) = wrapping "open file" (disk.files.open_file path) >>= λ file.
      finally (calculate_reader_hash ctx (whole file) comp) (disk.files.close_file file)

  -- The loop over the offsets, on fuel, with the chunks so far.
  pub chunk_loop :
      ℕ → (ℕ → Ctx) → Handle → Compression → ℕ → ℕ → ℕ → List Chunk → Exec W (List Chunk)
  unfolding calculate_reader_hash
  chunk_loop zero ctxs file comp size chunk offset chunks = panic "out of fuel"
  chunk_loop (suc fuel) ctxs file comp size chunk offset chunks =
      let n = current_size size chunk offset in
      if lt64 offset size
      then (do
        ctx_err (ctxs offset) 0
        hash ←
            wrapping "calculate chunk hash"
              (calculate_reader_hash (ctxs offset) (section file offset n) comp)
        chunk_loop fuel ctxs file comp size chunk (add64 offset chunk)
            (chunks ++ record { hash = hash; offset = offset; size = n } ∷ []))
      else pure chunks

  -- What the context is at each round. The fuel is one more than the size of the file.
  unfoldable pub calculate_chunks : (ℕ → Ctx) → Bytes → ℕ → Option Compression → Exec W (List Chunk)
  unfolding chunk_loop
  calculate_chunks ctxs path chunk none =
      if le64 chunk 0
      then raise (Err.failure "chunk size must be greater than zero")
      else raise compression_required
  calculate_chunks ctxs path chunk (some comp) =
      if le64 chunk 0
      then raise (Err.failure "chunk size must be greater than zero")
      else wrapping "open file" (disk.files.open_file path) >>= λ file.
          finally
            (wrapping "stat file" (disk.files.stat file) >>= λ info.
              chunk_loop (suc info.size) ctxs file comp info.size chunk 0 [])
            (disk.files.close_file file)
