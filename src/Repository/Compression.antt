-- ===== src/Repository/Compression.antt =====
-- compression.go
pub mod Laws
use stowmark.Base.{
  ℕ, ◌≡◌, Bytes, codes, lookup, Bool, true, false, ◌||◌, Option, none, some, List, [], ◌∷◌, Result,
  ok, err, Err, ℤ, ltb_ℤ, if◌then◌else◌, String,
}
use stowmark.Base.Exec.{Exec, ◌>>=◌, ◌>>◌, pure}

-- `CompressionType` is a string; `other` stands for those with no constant of their own.
pub data CompressionType : Type 0 where
  no_compression zstd lz4 xz gzip : CompressionType
  other : Bytes → CompressionType

-- `String()`
unfoldable pub to_string : CompressionType → Bytes
to_string no_compression = codes "none"
to_string zstd = codes "zstd"
to_string lz4 = codes "lz4"
to_string xz = codes "xz"
to_string gzip = codes "gzip"
to_string (other s) = s

abbrev pub invalid_compression_type : Err
invalid_compression_type = Err.failure "invalid compression type"

abbrev pub compression_types : List (Bytes × CompressionType)
compression_types =
    (codes "none", no_compression)
    ∷ (codes "zstd", zstd)
    ∷ (codes "lz4", lz4)
    ∷ (codes "xz", xz)
    ∷ (codes "gzip", gzip)
    ∷ []

abbrev found : Option CompressionType → Result CompressionType
found none = err invalid_compression_type
found (some t) = ok t

unfoldable pub parse_compression_type : Bytes → Result CompressionType
parse_compression_type s = found (lookup s compression_types)

pub record Compression : Type 0 where
  pub comp_type : CompressionType
  pub level : Option ℤ

-- The default, the least and the greatest level of a type that has levels, and its error.
pub record Levels : Type 0 where
  pub default_level : ℤ
  pub minimum : ℤ
  pub maximum : ℤ
  pub invalid : Err

abbrev pub zstd_levels : Levels
zstd_levels = record {
  default_level = ℤ.pos 3;
  minimum = ℤ.pos 1;
  maximum = ℤ.pos 22;
  invalid = Err.failure "zstd compression level must be between 1 and 22";
}

abbrev pub gzip_levels : Levels
gzip_levels = record {
  default_level = ℤ.pos 6;
  minimum = ℤ.pos 1;
  maximum = ℤ.pos 9;
  invalid = Err.failure "gzip compression level must be between 1 and 9";
}

abbrev pub lz4_levels : Levels
lz4_levels = record {
  default_level = ℤ.pos 0;
  minimum = ℤ.pos 0;
  maximum = ℤ.pos 9;
  invalid = Err.failure "lz4 compression level must be between 0 and 9";
}

abbrev level_or : ℤ → Option ℤ → ℤ
level_or d none = d
level_or d (some l) = l

-- One case of the switch: a nil level becomes the default, and then the range is tested.
pub check_level : Levels → Exec Compression (Unit {0})
check_level r c =
    let l = level_or r.default_level c.level in
    (
      if ltb_ℤ l r.minimum || ltb_ℤ r.maximum l then err r.invalid else ok tt,
      record c { level = some l },
    )

pub validate_type : CompressionType → Exec Compression (Unit {0})
unfolding check_level
validate_type zstd c = check_level zstd_levels c
validate_type gzip c = check_level gzip_levels c
validate_type lz4 c = check_level lz4_levels c
validate_type no_compression c = (ok tt, record c { level = none })
validate_type xz c = (ok tt, record c { level = none })
validate_type (other s) c = (ok tt, c)

unfoldable pub validate : Exec Compression (Unit {0})
unfolding validate_type
validate c = validate_type c.comp_type c

abbrev pub validated : Result (Unit {0}) × Compression → Result Compression
validated (ok _, c) = ok c
validated (err e, c) = err e
validated (Result.panics p, c) = Result.panics p

unfoldable pub new_compression : CompressionType → Option ℤ → Result Compression
unfolding validate
new_compression t l = validated (validate (record { comp_type = t; level = l }))
