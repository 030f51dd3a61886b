-- ===== src/Document/Laws.antt =====
-- What is written comes back: manifests whole, configurations with another time of creation.
use stowmark.Base.{
  ℕ, Bytes, ◌≡◌, ◌≢◌, refl, ap, ap₂, sym, Option, none, some, List, [], ◌∷◌, map, ok,
}
use stowmark.Encryption.{EncryptionConfig, default_encryption_type, default_key_encryption}
use stowmark.Repository.Compression.{Compression, other, to_string}
use stowmark.Repository.Compression.Laws.{IsValid, IsValid-iff-new_compression, parse-to_string}
use stowmark.Repository.Config.{Config}
use stowmark.Snapshot.Model.{Chunk, File, Manifest}
use stowmark.Document.{
  then_result, manifest_document, build_manifest_domain, config_document, build_config_domain,
  chunk_document, file_document, file_of_document, build_compression, option_map,
  encryption_document, encryption_of_document,
}

-- A compression that a repository can have: a known type, with a level that fits it.
pub record IsStorable (c : Compression) : Type 0 where
  pub known : (s : Bytes) → c.comp_type ≢ other s
  pub valid : IsValid c

chunks_back : (cs : List Chunk) → map chunk_document (map chunk_document cs) ≡ cs
chunks_back [] = refl
chunks_back (c ∷ cs) = ap (λ x. c ∷ x) (chunks_back cs)

files_back : (fs : List File) → map file_of_document (map file_document fs) ≡ fs
files_back [] = refl
files_back (f ∷ fs) =
    ap₂ (λ cs (x : List File). record f { chunks = cs } ∷ x) (chunks_back f.chunks) (files_back fs)

compression_back :
    (c : Compression)
    → IsStorable c
    → build_compression (record { type_name = to_string c.comp_type; level = c.level }) ≡ ok c
compression_back c s =
    rw (parse-to_string c.comp_type s.known) ((IsValid-iff-new_compression c).0 s.valid)

-- A manifest whose compression is of a known type with a fitting level is read back as it was
-- written, its files and chunks in their order.
pub manifest_round_trip :
    (m : Manifest) (c : Compression)
    → m.compression ≡ some c
    → IsStorable c
    → then_result (manifest_document m) build_manifest_domain ≡ ok m
unfolding manifest_document build_manifest_domain
manifest_round_trip m c h s = rw h (
    rw (compression_back c s)
      (ap (λ fs. ok (record m { files = fs; compression = some c })) (files_back m.files)))

-- The fixed fields of an encryption part have the values that every constructor gives them.
pub record HasDefaults (e : EncryptionConfig) : Type 0 where
  pub type_default : e.encryption_type ≡ default_encryption_type
  pub key_default : e.key_encryption ≡ default_key_encryption

abbrev pub AllDefaults : Option EncryptionConfig → Type 0
AllDefaults none = Unit
AllDefaults (some e) = HasDefaults e

encryption_back :
    (o : Option EncryptionConfig)
    → AllDefaults o
    → option_map encryption_of_document (option_map encryption_document o) ≡ o
encryption_back none d = refl
encryption_back (some e) d =
    ap₂ (λ t k. some (record e { encryption_type = t; key_encryption = k })) (sym d.type_default)
      (sym d.key_default)

-- A configuration whose identifier the parser knows again, whose compression is of a known type
-- with a fitting level, and whose encryption part has the fixed types, is read back with everything
-- but its time of creation, which becomes the time of the reading.
pub config_round_trip :
    (show_uuid : Bytes → Bytes) (format_time : ℕ → Bytes) (parse_uuid : Bytes → Option Bytes)
    (now : ℕ) (conf : Config) (c : Compression)
    → parse_uuid (show_uuid conf.id) ≡ some conf.id
    → conf.compression ≡ some c
    → IsStorable c
    → AllDefaults conf.encryption
    → then_result (config_document show_uuid format_time conf) (build_config_domain parse_uuid now)
      ≡ ok (record conf { created_at = now })
unfolding config_document build_config_domain
config_round_trip show_uuid format_time parse_uuid now conf c known h s d = rw h (
    rw known (
      rw (parse-to_string c.comp_type s.known) (
        rw ((IsValid-iff-new_compression c).0 s.valid) (
          ap (λ e. ok (record conf { created_at = now; compression = some c; encryption = e }))
            (encryption_back conf.encryption d)))))
