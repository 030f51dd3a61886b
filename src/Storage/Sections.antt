-- ===== src/Storage/Sections.antt =====
-- internal/infra/chunkio/source.go: `OpenSource` opens a file to save a chunk of it.
use stowmark.Base.{
  ℕ, ◌+◌, ◌-◌, ◌^◌, ◌<◌, ◌≤◌, ◌≡◌, ◌∙◌, refl, Bytes, true, false, ◌||◌, Option, none, some, List,
  [], ◌∷◌, Err, Result, ok, err, length, All, ltb, lt64, le64, sub64, if◌then◌else◌, arith,
}
use stowmark.Base.Exec.{Exec, ◌>>=◌, pure, raise, wrapping}
use stowmark.Repository.Compression.{Compression}
use stowmark.Snapshot.Model.{Chunk}
use stowmark.Storage.Chunking.{Opener, FileInfo, compression_required}
use stowmark.Storage.Chunking.Tiles.{Tiles, lt64_small, sub64_small}

long_enough : (hash : Bytes) → 3 ≤ length hash → ltb (length hash) 3 ≡ false
long_enough hash long = ground arith

starts : (offset : ℕ) → offset < 2 ^ 63 → lt64 offset 0 ≡ false
starts offset small = ground arith

has_bytes : (size : ℕ) → 0 < size → size < 2 ^ 63 → le64 size 0 ≡ false
has_bytes size positive small = ground arith

not_before : (a b : ℕ) → b ≤ a → ltb a b ≡ false
not_before a b h = ground arith

-- The range test, as one Boolean.
range :
    (total offset size : ℕ)
    → offset + size ≤ total
    → total < 2 ^ 63
    → lt64 (sub64 total offset) size ≡ false
range total offset size inside small = rw (sub64_small total offset small (omega arith)) (
    lt64_small (total - offset) size (omega arith) (omega arith)
    ∙ not_before (total - offset) size (omega arith))

module _ {W Handle : Type 0} (files : Opener W Handle) where
  -- After an error the file is closed, and the error of the close is dropped.
  abbrev pub close_and_raise : {A : Type 0} → Handle → Err → Exec W A
  close_and_raise file e w = (err e, (files.close_file file w).1)

  abbrev pub checked : Handle → ℕ → ℕ → Result FileInfo → Exec W Handle
  checked file offset size (err e) = close_and_raise file (Err.wrapped "stat source file" e)
  checked file offset size (Result.panics p) = (λ w. (Result.panics p, w))
  checked file offset size (ok info) =
      if info.is_regular
      then (if lt64 info.size offset || lt64 (sub64 info.size offset) size
          then close_and_raise file (Err.failure "chunk range exceeds file size")
          else pure file)
      else close_and_raise file (Err.failure "not a regular file")

  abbrev pub stat_and_check : Handle → ℕ → ℕ → Exec W Handle
  stat_and_check file offset size w = let (r, u) = files.stat file w in checked file offset size r u

  unfoldable pub open_source : Bytes → Bytes → ℕ → ℕ → Option Compression → Exec W Handle
  open_source path hash offset size none = raise compression_required
  open_source path hash offset size (some comp) =
      if ltb (length hash) 3
      then raise (Err.failure "invalid object hash")
      else if lt64 offset 0
      then raise (Err.failure "invalid chunk offset")
      else if le64 size 0
      then raise (Err.failure "invalid chunk size")
      else wrapping "open source file" (files.open_file path) >>= λ file.
          stat_and_check file offset size

  -- A section that is not empty and lies within a regular file is opened: the file is below 2^63
  -- bytes, and the hash has at least three.
  pub open_source_inside :
      (path hash : Bytes) (offset size : ℕ) (comp : Compression) (info : FileInfo) (file : Handle)
      (w u v : W)
      → 3 ≤ length hash
      → 0 < size
      → offset + size ≤ info.size
      → info.size < 2 ^ 63
      → info.is_regular ≡ true
      → files.open_file path w ≡ (ok file, u)
      → files.stat file u ≡ (ok info, v)
      → open_source path hash offset size (some comp) w ≡ (ok file, v)
  unfolding open_source
  open_source_inside path hash offset size comp info file w u v long positive inside small regular
        opened stat =
      rw (long_enough hash long) (
        rw (starts offset (omega arith)) (
          rw (has_bytes size positive (omega arith)) (
            rw opened (
              rw stat (
                rw regular (
                  rw
                    (lt64_small info.size offset small (omega arith)
                      ∙ not_before info.size offset (omega arith))
                    (rw (range info.size offset size inside small) refl)))))))

-- Each chunk of a file that is covered by its chunks lies within it.
pub Tiles-inside :
    (size chunk offset : ℕ) (cs : List Chunk)
    → offset ≤ size
    → Tiles size chunk offset cs
    → All (λ (c : Chunk). (0 < c.size) × (c.offset + c.size ≤ size)) cs
Tiles-inside size chunk offset [] before t = tt
Tiles-inside size chunk offset (c ∷ cs) before (at, positive, most, short, rest) =
    let fits = ending size chunk (offset + c.size) cs rest in
    ((positive, omega (arith, fits, at)), Tiles-inside size chunk (offset + c.size) cs fits rest)
  where
    ending : (size chunk offset : ℕ) (cs : List Chunk) → Tiles size chunk offset cs → offset ≤ size
    ending size chunk offset [] t = omega (arith, t)
    ending size chunk offset (d ∷ ds) (at, positive, most, short, rest) =
        let e = ending size chunk (offset + d.size) ds rest in omega (arith, e)
