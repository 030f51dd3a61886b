-- ===== src/Codec/Laws.antt =====
-- Every compression that the domain accepts has a handler that makes a writer, and what the writer
-- wrote is read back.
use stowmark.Base.{
  Bytes, ◌≡◌, ◌≢◌, refl, ap, false, Option, none, some, ℤ, ltb_ℤ, ok, [], ◌∷◌, ◌++◌, arith,
}
use stowmark.Repository.Compression.{CompressionType, no_compression, zstd, lz4, xz, gzip, other}
use stowmark.Repository.Compression.Laws.{FitsType}
use stowmark.Codec.{
  Packages, AreCodecs, new_writer, encode, new_reader, decode, lz4_level, get_handler,
}

append_nil : (xs : Bytes) → xs ++ [] ≡ xs
append_nil [] = refl
append_nil (x ∷ xs) = ap (λ r. x ∷ r) (append_nil xs)

above_zero : (l : ℤ) → ltb_ℤ l (ℤ.pos 1) ≡ false → ltb_ℤ l (ℤ.pos 0) ≡ false
above_zero (ℤ.pos n) h = ground arith
above_zero (ℤ.negsuc n) h = cc

module _ (packages : Packages) (law : AreCodecs packages) where
  -- A compression of a type that has a name, with a level that fits the type, has a handler, and the
  -- handler makes a writer: no level that the domain accepts is refused or dereferenced as nil.
  pub FitsType-new_writer :
      (t : CompressionType) (level : Option ℤ)
      → ((s : Bytes) → t ≢ other s)
      → FitsType t level
      → (get_handler t ≡ ok tt) × (new_writer packages t level ≡ ok tt)
  unfolding get_handler new_writer lz4_level
  FitsType-new_writer no_compression level n f = (refl, refl)
  FitsType-new_writer zstd none n f = absurd f
  FitsType-new_writer zstd (some l) n f = (refl, rw (law.zstd_levels l) refl)
  FitsType-new_writer lz4 none n f = absurd f
  FitsType-new_writer lz4 (some l) n f =
      (refl, rw (f.0) (rw (f.1) (rw (law.lz4_levels l f.0 f.1) refl)))
  FitsType-new_writer xz level n f = (refl, rw law.xz_makes refl)
  FitsType-new_writer gzip none n f = absurd f
  FitsType-new_writer gzip (some l) n f = (refl, rw (law.gzip_levels l (above_zero l f.0) f.1) refl)
  FitsType-new_writer (other s) level n f = absurd (n s refl)

  -- What a handler's writer wrote, its handler's reader reads back whole and without an error, for
  -- every type that has a name.
  pub decode-encode :
      (t : CompressionType) (level : Option ℤ) (text : Bytes)
      → ((s : Bytes) → t ≢ other s)
      → let e = encode packages t level text in
        (new_reader packages t (e.body ++ e.tail) ≡ ok tt)
        × (decode packages t (e.body ++ e.tail) ≡ record { text = text; error = none })
  unfolding new_reader encode decode
  decode-encode no_compression level text n =
      (refl, ap (λ x. record { text = x; error = none }) (append_nil text))
  decode-encode zstd level text n =
      (rw (law.reads zstd level text) refl, law.gives_back zstd level text)
  decode-encode lz4 level text n = (refl, law.gives_back lz4 level text)
  decode-encode xz level text n = (rw (law.reads xz level text) refl, law.gives_back xz level text)
  decode-encode gzip level text n =
      (rw (law.reads gzip level text) refl, law.gives_back gzip level text)
  decode-encode (other s) level text n = absurd (n s refl)
