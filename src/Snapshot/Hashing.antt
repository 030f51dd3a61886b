-- ===== src/Snapshot/Hashing.antt =====
-- hash_calculator_factory.go: how a file's hash and chunks are found in each format version.
pub mod Laws
pub mod Calculated
use stowmark.Base.{
  ℕ, Bytes, Bool, true, false, Option, none, some, List, [], ◌∷◌, Err, Result, ok, err, ℤ, le64,
  if◌then◌else◌, zero, suc,
}
use stowmark.Base.Exec.{Exec, Ctx, ◌>>=◌, pure}
use stowmark.Repository.Compression.{Compression}
use stowmark.Snapshot.Model.{
  File, Chunk, chunk_size, chunk_threshold, add_hash, add_chunks, SourceRepository,
}

abbrev pub unknown_calculator : Err
unknown_calculator = Err.failure "unknown calculator"

pub data Calculator : Type 0 where
  one_format_version two_format_version : Calculator

-- `Handle`: the map has the versions 1 and 2.
unfoldable pub calculator_of : ℤ → Result Calculator
calculator_of (ℤ.pos (suc zero)) = ok one_format_version
calculator_of (ℤ.pos (suc (suc zero))) = ok two_format_version
calculator_of _ = err unknown_calculator

module _ {W : Type 0} (source : SourceRepository W) where
  unfoldable pub calculate_one : Ctx → File → Option Compression → Exec W File
  calculate_one ctx f comp = do hash ← source.calculate_hash ctx f.path comp; pure (add_hash hash f)

  -- The chunks of a file that has at least the threshold's size.
  unfoldable pub calculate_split : Ctx → File → Option Compression → Exec W File
  calculate_split ctx f comp = do
    chunks ← source.calculate_chunks ctx f.path chunk_size comp
    pure (add_chunks chunks f)

  -- One chunk that is the whole file.
  unfoldable pub calculate_whole : Ctx → File → Option Compression → Exec W File
  calculate_whole ctx f comp = do
    hash ← source.calculate_hash ctx f.path comp
    pure (add_chunks (record { hash = hash; offset = 0; size = f.size } ∷ []) (add_hash hash f))

  unfoldable pub calculate_two : Ctx → File → Option Compression → Exec W File
  unfolding calculate_split calculate_whole
  calculate_two ctx f comp =
      if le64 chunk_threshold f.size then calculate_split ctx f comp else calculate_whole ctx f comp

  unfoldable pub calculate : Calculator → Ctx → File → Option Compression → Exec W File
  unfolding calculate_one calculate_two
  calculate one_format_version ctx f comp = calculate_one ctx f comp
  calculate two_format_version ctx f comp = calculate_two ctx f comp
