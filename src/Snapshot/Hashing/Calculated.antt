-- ===== src/Snapshot/Hashing/Calculated.antt =====
-- What a calculation of hash_calculator_factory.go gives a file, in each format version.
use stowmark.Base.{
  ℕ, ◌<◌, ◌≤◌, ◌^◌, Bytes, ◌≡◌, ◌⊎◌, inl, inr, sym, ap, ◌∙◌, true, false, Bool-cases, Option, List,
  [], ◌∷◌, Result, ok, le64, arith,
}
use stowmark.Base.Exec.{Ctx, bind-ok}
use stowmark.Repository.Compression.{Compression}
use stowmark.Snapshot.Model.{Chunk, File, chunk_threshold, chunk_size, SourceRepository}
use stowmark.Snapshot.Hashing.{
  Calculator, one_format_version, two_format_version, calculate, calculate_one, calculate_two,
  calculate_split, calculate_whole,
}
use stowmark.Snapshot.Hashing.Laws.{SameFile, calculate-SameFile}

above : (t n : ℕ) → t < 2 ^ 63 → n < 2 ^ 63 → le64 t n ≡ true → t ≤ n
above t n a b h = ground arith

below : (t n : ℕ) → t < 2 ^ 63 → n < 2 ^ 63 → le64 t n ≡ false → n < t
below t n a b h = ground arith

abbrev hash_of : Result File → Bytes
hash_of (ok f) = f.hash
hash_of _ = []

abbrev chunks_of : Result File → List Chunk
chunks_of (ok f) = f.chunks
chunks_of _ = []

module _ {W : Type 0} (source : SourceRepository W) where
  -- The calls that were made, and what the file has from them and from before.
  abbrev pub Filled : Calculator → Ctx → File → Option Compression → W → File → W → Type 0
  Filled one_format_version ctx f comp w g v =
      (source.calculate_hash ctx f.path comp w ≡ (ok (g.hash), v)) × (g.chunks ≡ f.chunks)
  Filled two_format_version ctx f comp w g v =
      ((f.size < chunk_threshold)
        × (source.calculate_hash ctx f.path comp w ≡ (ok (g.hash), v))
        × (g.chunks ≡ record { hash = g.hash; offset = 0; size = f.size } ∷ []))
      ⊎ ((chunk_threshold ≤ f.size)
          × (source.calculate_chunks ctx f.path chunk_size comp w ≡ (ok (g.chunks), v))
          × (g.hash ≡ f.hash))

  whole :
      (ctx : Ctx) (f : File) (comp : Option Compression) (w : W) (g : File) (v : W)
      → calculate_whole source ctx f comp w ≡ (ok g, v)
      → (source.calculate_hash ctx f.path comp w ≡ (ok (g.hash), v))
        × (g.chunks ≡ record { hash = g.hash; offset = 0; size = f.size } ∷ [])
  unfolding calculate_whole
  whole ctx f comp w g v h = bind-ok (source.calculate_hash ctx f.path comp) _ w h λ hash u e t. (
    e ∙ ap (λ z. (ok (hash_of z.0), z.1)) t,
    ap (λ z. chunks_of z.0) (sym t)
        ∙ ap (λ z. record { hash = hash_of z.0; offset = 0; size = f.size } ∷ []) t,
  )

  split :
      (ctx : Ctx) (f : File) (comp : Option Compression) (w : W) (g : File) (v : W)
      → calculate_split source ctx f comp w ≡ (ok g, v)
      → (source.calculate_chunks ctx f.path chunk_size comp w ≡ (ok (g.chunks), v))
        × (g.hash ≡ f.hash)
  unfolding calculate_split
  split ctx f comp w g v h =
      bind-ok (source.calculate_chunks ctx f.path chunk_size comp) _ w h
        λ cs u e t. (e ∙ ap (λ z. (ok (chunks_of z.0), z.1)) t, ap (λ z. hash_of z.0) (sym t))

  -- A calculation that succeeds leaves the path and the size of the file. In the first format version
  -- it gives it its hash and leaves its chunks. In the second one, with a size that an int64 holds, a
  -- file below the threshold gets its hash and one chunk, which is the whole file, and any other
  -- the chunks of the source, and keeps its hash. The state is that after the one call.
  pub calculate-Filled :
      (c : Calculator) (ctx : Ctx) (f : File) (comp : Option Compression) (w : W) (g : File) (v : W)
      → f.size < 2 ^ 63
      → calculate source c ctx f comp w ≡ (ok g, v)
      → SameFile f g × Filled c ctx f comp w g v
  unfolding calculate calculate_one calculate_two
  calculate-Filled one_format_version ctx f comp w g v small h = (
    calculate-SameFile source one_format_version ctx f comp w g v h,
    bind-ok (source.calculate_hash ctx f.path comp) _ w h
        λ hash u e t. (e ∙ ap (λ z. (ok (hash_of z.0), z.1)) t, ap (λ z. chunks_of z.0) (sym t)),
  )
  calculate-Filled two_format_version ctx f comp w g v small h = (
    calculate-SameFile source two_format_version ctx f comp w g v h,
    elim (Bool-cases (le64 chunk_threshold f.size)) [
      | inl e ↦
          let (made, kept) = split ctx f comp w g v (rw e at h) in
          inr (above chunk_threshold f.size (omega arith) small e, made, kept)
      | inr e ↦
          let (made, one) = whole ctx f comp w g v (rw e at h) in
          inl (below chunk_threshold f.size (omega arith) small e, made, one)
    ],
  )
