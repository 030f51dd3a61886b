-- ===== src/Repository/Compression/Laws.antt =====
-- What a compression configuration that was accepted is.
use stowmark.Base.{
  ◌≡◌, ◌≢◌, refl, Bytes, lookup-All, lookup, ◌↔◌, false, Option, none, some, ok, ℤ, ltb_ℤ, arith,
}
use stowmark.Repository.Compression.{
  CompressionType, no_compression, zstd, lz4, xz, gzip, other, Compression, Levels, zstd_levels,
  gzip_levels, lz4_levels, validated, found, compression_types, check_level, to_string,
  parse_compression_type, new_compression,
}

-- The levels that a type allows: `none` where it has none.
abbrev pub HasLevel : Levels → Option ℤ → Type 0
HasLevel r none = ⊥
HasLevel r (some l) = (ltb_ℤ l r.minimum ≡ false) × (ltb_ℤ r.maximum l ≡ false)

abbrev pub FitsType : CompressionType → Option ℤ → Type 0
FitsType zstd l = HasLevel zstd_levels l
FitsType gzip l = HasLevel gzip_levels l
FitsType lz4 l = HasLevel lz4_levels l
FitsType no_compression l = l ≡ none
FitsType xz l = l ≡ none
FitsType (other s) l = Unit {0}

abbrev pub IsValid : Compression → Type 0
IsValid c = FitsType c.comp_type c.level

checked :
    (r : Levels) (t : CompressionType) (l : Option ℤ) (c : Compression)
    → validated (check_level r (record { comp_type = t; level = l })) ≡ ok c
    → (c.comp_type ≡ t) × HasLevel r c.level
unfolding check_level
checked r t none c h = ground arith
checked r t (some l) c h = ground arith

-- A configuration that is accepted has the type that was asked for, and a level that the type
-- allows.
pub new_compression-FitsType :
    (t : CompressionType) (l : Option ℤ) (c : Compression)
    → new_compression t l ≡ ok c
    → (c.comp_type ≡ t) × FitsType t c.level
unfolding new_compression
new_compression-FitsType zstd l c h = checked zstd_levels zstd l c h
new_compression-FitsType gzip l c h = checked gzip_levels gzip l c h
new_compression-FitsType lz4 l c h = checked lz4_levels lz4 l c h
new_compression-FitsType no_compression l c h = ground arith
new_compression-FitsType xz l c h = ground arith
new_compression-FitsType (other s) l c h = (ground arith, tt)

accepted :
    (r : Levels) (t : CompressionType) (l : Option ℤ)
    → HasLevel r l
    → validated (check_level r (record { comp_type = t; level = l }))
      ≡ ok (record { comp_type = t; level = l })
unfolding check_level
accepted r t none h = absurd h
accepted r t (some l) h = ground arith

accepts_fitting :
    (t : CompressionType) (l : Option ℤ)
    → FitsType t l
    → new_compression t l ≡ ok (record { comp_type = t; level = l })
unfolding new_compression
accepts_fitting zstd l h = accepted zstd_levels zstd l h
accepts_fitting gzip l h = accepted gzip_levels gzip l h
accepts_fitting lz4 l h = accepted lz4_levels lz4 l h
accepts_fitting no_compression l h = ground arith
accepts_fitting xz l h = ground arith
accepts_fitting (other s) l h = refl

-- The valid configurations are exactly those that a second check accepts and leaves as they are.
pub IsValid-iff-new_compression :
    (c : Compression) → IsValid c ↔ (new_compression c.comp_type c.level ≡ ok c)
IsValid-iff-new_compression c = (
  λ v. accepts_fitting c.comp_type c.level v,
  λ h. (new_compression-FitsType c.comp_type c.level c h).1,
)

-- The name of each type that has a constant parses back to it.
pub parse-to_string :
    (t : CompressionType)
    → ((s : Bytes) → t ≢ other s)
    → parse_compression_type (to_string t) ≡ ok t
unfolding to_string parse_compression_type
parse-to_string no_compression h = refl
parse-to_string zstd h = refl
parse-to_string lz4 h = refl
parse-to_string xz h = refl
parse-to_string gzip h = refl
parse-to_string (other s) h = absurd (h s refl)

of_found : {t : CompressionType} (o : Option CompressionType) → found o ≡ ok t → o ≡ some t
of_found none h = cc
of_found (some u) h = cc

-- A parsed name is the name of the type it parses to: nothing else is accepted.
pub to_string-parse :
    (s : Bytes) (t : CompressionType) → parse_compression_type s ≡ ok t → to_string t ≡ s
unfolding to_string parse_compression_type
to_string-parse s t h =
    lookup-All (λ k u. to_string u ≡ k) s compression_types t
      (refl, (refl, (refl, (refl, (refl, tt))))) (of_found (lookup s compression_types) h)

-- A parsed name is that of a type that has a constant.
pub parse-ne-other :
    (s : Bytes) (t : CompressionType) → parse_compression_type s ≡ ok t → (u : Bytes) → t ≢ other u
unfolding parse_compression_type
parse-ne-other s t h u =
    lookup-All (λ k x. x ≢ other u) s compression_types t
      (λ e. cc, (λ e. cc, (λ e. cc, (λ e. cc, (λ e. cc, tt)))))
      (of_found (lookup s compression_types) h)
