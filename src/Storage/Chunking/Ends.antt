-- ===== src/Storage/Chunking/Ends.antt =====
-- The loop over a file's chunks ends within its fuel.
use stowmark.Base.{
  ℕ, zero, suc, ◌+◌, ◌^◌, ◌<◌, ◌≡◌, ◌∙◌, sym, refl, inl, inr, Bool-cases, Bytes, false, List, [],
  ◌∷◌, ◌++◌, ok, add64, lt64, le64, some, arith,
}
use stowmark.Base.Exec.{Ctx}
use stowmark.Repository.Compression.{Compression}
use stowmark.Snapshot.Model.{Chunk}
use stowmark.Storage.Chunking.{
  Disk, FileInfo, chunk_loop, calculate_chunks, calculate_reader_hash, current_size, section,
}
use stowmark.Storage.Chunking.Tiles.{lt64_small, add64_small, within, beyond}

not_zero : (chunk : ℕ) → 0 < chunk → chunk < 2 ^ 63 → le64 chunk 0 ≡ false
not_zero chunk positive bound = ground arith

module _ {W Handle Writer : Type 0} (disk : Disk W Handle Writer) where
  -- What a disk does on which nothing fails while a file is cut into chunks.
  pub record Works (ctxs : ℕ → Ctx) (path : Bytes) (comp : Compression) (info : FileInfo)
      : Type 0 where
    pub calm : (o : ℕ) → ctxs o 0 ≡ false
    pub opened : (w : W) → (file : Handle) × (u : W) × (disk.files.open_file path w ≡ (ok file, u))
    pub sized : (file : Handle) (w : W) → (u : W) × (disk.files.stat file w ≡ (ok info, u))
    pub hashed :
        (file : Handle) (o n : ℕ) (w : W)
        → (b : Bytes) × (u : W) × (calculate_reader_hash disk (ctxs o) (section file o n) comp w
            ≡ (ok b, u))

  loop_ends :
      (fuel : ℕ) (ctxs : ℕ → Ctx) (path : Bytes) (file : Handle) (comp : Compression)
      (info : FileInfo) (chunk offset : ℕ) (before : List Chunk) (w : W)
      → Works ctxs path comp info
      → info.size + chunk < 2 ^ 63
      → 0 < chunk
      → offset < info.size + chunk
      → info.size < offset + fuel
      → 0 < fuel
      → (out : List Chunk) × (v : W) × (chunk_loop disk fuel ctxs file comp info.size chunk offset
            before w
          ≡ (ok out, v))
  unfolding chunk_loop
  loop_ends zero ctxs path file comp info chunk offset before w works bound positive near enough
        some_fuel =
      absurd (omega (arith, some_fuel))
  loop_ends (suc fuel) ctxs path file comp info chunk offset before w works bound positive near
        enough some_fuel =
      elim (Bool-cases (lt64 offset info.size)) [
        | inr e ↦ (before, w, rw e refl)
        | inl e ↦
            let inside =
              within offset info.size
                (sym (lt64_small offset info.size (omega arith) (omega arith)) ∙ e) in
            let n = current_size info.size chunk offset in
            let (b, u, q) = works.hashed file offset n w in
            let step = add64_small offset chunk (omega arith) in
            let (out, v, r) =
              loop_ends fuel ctxs path file comp info chunk (add64 offset chunk)
                (before ++ record { hash = b; offset = offset; size = n } ∷ []) u works bound
                positive (beyond info.size chunk offset bound inside)
                (rw step (omega (arith, enough, positive))) (omega (arith, inside, enough)) in
            (out, v, rw e (rw (works.calm offset) (rw q r)))
      ]

  -- On a disk on which nothing fails, a file is cut into chunks: the loop ends within its fuel. The
  -- chunk size is not zero, and with the size of the file it stays below 2^63.
  pub calculate_chunks_ends :
      (ctxs : ℕ → Ctx) (path : Bytes) (comp : Compression) (info : FileInfo) (chunk : ℕ) (w : W)
      → Works ctxs path comp info
      → info.size + chunk < 2 ^ 63
      → 0 < chunk
      → (out : List Chunk) × (v : W) × (calculate_chunks disk ctxs path chunk (some comp) w
          ≡ (ok out, v))
  unfolding calculate_chunks
  calculate_chunks_ends ctxs path comp info chunk w works bound positive =
      let (file, u, q) = works.opened w in
      let (u', s) = works.sized file u in
      let (out, v, r) =
        loop_ends (suc info.size) ctxs path file comp info chunk 0 [] u' works bound positive
          (omega arith) (omega arith) (omega arith) in
      (
        out,
        (disk.files.close_file file v).1,
        rw (not_zero chunk positive (omega arith)) (rw q (rw s (rw r refl))),
      )
