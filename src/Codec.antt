-- ===== src/Codec.antt =====
-- internal/infra/compression: the handlers of the compression types, over the packages that
-- compress. What a writer has passed on to its destination when all input was copied is `body`, and
-- what it passes on when it is closed is `tail`.
pub mod Laws
use stowmark.Base.{
  ℕ, zero, suc, Bytes, Bool, true, false, ◌||◌, Option, none, some, ℤ, ltb_ℤ, Err, Result, ok, err,
  panics, List, [], ◌∷◌, ◌++◌, ◌≡◌, if◌then◌else◌,
}
use stowmark.Base.Exec.{wrap_result}
use stowmark.Repository.Compression.{CompressionType, no_compression, zstd, lz4, xz, gzip, other}

pub record Encoded : Type 0 where
  pub body : Bytes
  pub tail : Bytes

-- What a reader gives to its end, and the error of the read that ended it.
pub record Decoded : Type 0 where
  pub text : Bytes
  pub error : Option Err

-- The packages: whether a writer or a reader can be made, and what it does.
pub record Packages : Type 0 where
  pub zstd_writer : ℤ → Result (Unit {0})
  pub lz4_apply : ℤ → Result (Unit {0})
  pub xz_writer : Result (Unit {0})
  pub gzip_writer : ℤ → Result (Unit {0})
  pub compress : CompressionType → Option ℤ → Bytes → Encoded
  pub reader : CompressionType → Bytes → Result (Unit {0})
  pub decompress : CompressionType → Bytes → Decoded

-- `*level`
abbrev pub with_level : Option ℤ → (ℤ → Result (Unit {0})) → Result (Unit {0})
with_level none f = panics "nil pointer dereference"
with_level (some l) f = f l

-- `GetHandler`
unfoldable pub get_handler : CompressionType → Result (Unit {0})
get_handler (other s) = err (Err.failure "unsupported compression type")
get_handler t = ok tt

-- `lz4Level`: the package has a constant for each level from 0 to 9.
unfoldable pub lz4_level : ℤ → Result ℤ
lz4_level l =
    if ltb_ℤ l (ℤ.pos 0) || ltb_ℤ (ℤ.pos 9) l
    then err (Err.failure "invalid lz4 compression level: expected 0 to 9")
    else ok l

abbrev pub apply_level : (ℤ → Result (Unit {0})) → Result ℤ → Result (Unit {0})
apply_level f (ok l) = wrap_result "configure lz4 encoder" (f l)
apply_level f (err e) = err e
apply_level f (panics p) = panics p

abbrev pub lz4_encode : (ℤ → Result (Unit {0})) → Option ℤ → Result (Unit {0})
lz4_encode f none = err (Err.failure "level is required")
lz4_encode f (some l) = apply_level f (lz4_level l)

module _ (packages : Packages) where
  -- `Encode`: whether the handler makes a writer. A type with no handler has none.
  unfoldable pub new_writer : CompressionType → Option ℤ → Result (Unit {0})
  unfolding lz4_level
  new_writer no_compression level = ok tt
  new_writer zstd level =
      with_level level (λ l. wrap_result "create zstd encoder" (packages.zstd_writer l))
  new_writer lz4 level = lz4_encode packages.lz4_apply level
  new_writer xz level = wrap_result "create xz encoder" packages.xz_writer
  new_writer gzip level =
      with_level level (λ l. wrap_result "create gzip writer" (packages.gzip_writer l))
  new_writer (other s) level = err (Err.failure "unsupported compression type")

  abbrev pub copied : Bytes → Encoded
  copied text = record { body = text; tail = [] }

  -- What the writer does with its input. The handler of no compression is the destination itself.
  unfoldable pub encode : CompressionType → Option ℤ → Bytes → Encoded
  encode no_compression level text = copied text
  encode t level text = packages.compress t level text

  -- `Decode`: whether the handler makes a reader, and what it gives.
  unfoldable pub new_reader : CompressionType → Bytes → Result (Unit {0})
  new_reader no_compression source = ok tt
  new_reader zstd source = wrap_result "create zstd decoder" (packages.reader zstd source)
  new_reader lz4 source = ok tt
  new_reader xz source = wrap_result "create xz decoder" (packages.reader xz source)
  new_reader gzip source = wrap_result "create gzip reader" (packages.reader gzip source)
  new_reader (other s) source = err (Err.failure "unsupported compression type")

  unfoldable pub decode : CompressionType → Bytes → Decoded
  decode no_compression source = record { text = source; error = none }
  decode t source = packages.decompress t source

-- What is relied on of the packages: they make a writer at each level that they document, a reader
-- of what a writer wrote, and the reader gives the input back.
pub record AreCodecs (packages : Packages) : Type 0 where
  pub zstd_levels : (l : ℤ) → packages.zstd_writer l ≡ ok tt
  pub lz4_levels :
      (l : ℤ) → ltb_ℤ l (ℤ.pos 0) ≡ false → ltb_ℤ (ℤ.pos 9) l ≡ false → packages.lz4_apply l ≡ ok tt
  pub xz_makes : packages.xz_writer ≡ ok tt
  pub gzip_levels :
      (l : ℤ)
      → ltb_ℤ l (ℤ.pos 0) ≡ false
      → ltb_ℤ (ℤ.pos 9) l ≡ false
      → packages.gzip_writer l ≡ ok tt
  pub reads :
      (t : CompressionType) (l : Option ℤ) (text : Bytes)
      → let e = packages.compress t l text in packages.reader t (e.body ++ e.tail) ≡ ok tt
  pub gives_back :
      (t : CompressionType) (l : Option ℤ) (text : Bytes)
      → let e = packages.compress t l text in
        packages.decompress t (e.body ++ e.tail) ≡ record { text = text; error = none }
