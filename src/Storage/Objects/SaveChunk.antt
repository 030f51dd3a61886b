-- ===== src/Storage/Objects/SaveChunk.antt =====
-- `SaveChunk` of internal/infra/disk/object_repository.go.
pub mod Copied
pub mod Decodes
use stowmark.Base.{
  ℕ, Bytes, Bool, true, false, Option, none, some, List, [], ◌∷◌, ◌++◌, Err, Result, ok, err,
  panics, length, take, drop,
}
use stowmark.Base.Exec.{Exec, Ctx, ◌>>=◌, ◌>>◌, pure, raise, panic, lift, wrapping, ctx_err}
use stowmark.Codec.{Encoded, get_handler, new_writer, encode}
use stowmark.Repository.Compression.{Compression}
use stowmark.Storage.Files.{Fs, mkdir_all, open_file, create, close, call, content}
use stowmark.Storage.Chunking.{Opener, finally}
use stowmark.Storage.Sections.{open_source}
use stowmark.Storage.Paths.{ObjectsPath}
use stowmark.Storage.Objects.{Setting, location}
use stowmark.Storage.Objects.Reads.{Read, read_all}
use stowmark.Storage.Objects.Save.{
  emit, closing, start_encryption, close_encryption, writer_or_close,
}

-- The calls of `OpenSource`, on files.
abbrev pub opener : Opener Fs Bytes
opener = record {
  open_file = open_file;
  stat = λ text. call >> pure (record { size = length text; is_regular = true });
  close_file = λ _. close;
}

module _ (o : Setting) where
  -- After the copy: an error of it closes the two encoders, whose errors are then dropped.
  abbrev pub after_copy : Bytes → Bytes → Encoded → Result (Unit {0}) → Exec Fs (Unit {0})
  after_copy path key e (err x) s = (
    err (Err.wrapped "write chunk" x),
    (close_encryption o path key (e.body ++ e.tail) (emit path key e.tail s).1).1,
  )
  after_copy path key e (panics p) s = (panics p, s)
  after_copy path key e (ok _) s =
      (wrapping "finish chunk compression" (emit path key e.tail)
          >> (wrapping "finish chunk encryption" (close_encryption o path key (e.body ++ e.tail))
              >> wrapping "close object" close))
        s

  abbrev pub sum_up : Result (Unit {0}) → Result (Unit {0}) → Result (Unit {0})
  sum_up (ok _) read = read
  sum_up (err e) read = err e
  sum_up (panics p) read = panics p

  -- The encoder's writer passes on what it made of the bytes that were read.
  abbrev pub copy_chunk : Bytes → Bytes → Compression → Read → Exec Fs (Unit {0})
  copy_chunk path key comp read s =
      let e = encode o.packages comp.comp_type comp.level read.text in
      let (r, t) = emit path key e.body s in after_copy path key e (sum_up r read.outcome) t

  -- The section is read when it is copied: the creation of the object truncates the source if it is
  -- the same file.
  unfoldable pub write_chunk :
      Ctx → Bytes → Bytes → (Fs → Bytes) → Option Compression → Exec Fs (Unit {0})
  unfolding get_handler new_writer encode close
  write_chunk ctx path key section none = panic "nil pointer dereference"
  write_chunk ctx path key section (some comp) = do
    lift (get_handler comp.comp_type)
    start_encryption o key
    writer_or_close o path key (new_writer o.packages comp.comp_type comp.level)
    λ s. let (read, t) = read_all ctx 1 (section s) s in copy_chunk path key comp read t

  -- The bytes of a file from an offset on: what an `io.SectionReader` of it reads in a state.
  abbrev pub section_of : Bytes → ℕ → ℕ → Fs → Bytes
  section_of file_path offset size s = take size (drop offset (content file_path s.files))

  -- With the source open.
  abbrev pub chunk_to :
      Ctx → Bytes → Bytes → ℕ → ℕ → Option Compression → Bytes → ℕ → Exec Fs (Unit {0})
  chunk_to ctx hash file_path offset size comp key g = do
    dest ← lift (location o hash g key false)
    wrapping "create object directory" (mkdir_all dest.directory_path)
    wrapping "create object" (create dest.object_path)
    closing dest.directory_path
        (write_chunk ctx dest.object_path key (section_of file_path offset size) comp)

  unfoldable pub save_chunk :
      Ctx → Bytes → Bytes → ℕ → ℕ → Option Compression → Bytes → ℕ → Exec Fs (Unit {0})
  unfolding open_source
  save_chunk ctx file_path hash offset size comp key g = do
    ctx_err ctx 0
    source ← open_source opener file_path hash offset size comp
    finally (chunk_to ctx hash file_path offset size comp key g) close
