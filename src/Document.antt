-- ===== src/Document.antt =====
-- internal/infra/codec/config.go, internal/infra/model/config.go and manifest.go: the documents that
-- are written as JSON, and the way back. `uuid.UUID.String`, `uuid.Parse`, the text of a time and
-- `json.MarshalIndent` are parameters. `.In(time.Local)` leaves the instant as it is.
pub mod Laws
pub mod Readable
use stowmark.Base.{
  ℕ, Bytes, Option, none, some, List, [], ◌∷◌, ◌++◌, map, Err, Result, ok, err, panics, ℤ, ◌≡◌,
  refl,
}
use stowmark.Base.Exec.{Exec, Ctx, ◌>>=◌, ◌>>◌, pure, lift, wrap_result, ctx_err, wrapping}
use stowmark.Encryption.{EncryptionConfig, new_encryption_config}
use stowmark.Repository.Compression.{
  Compression, CompressionType, to_string, parse_compression_type, new_compression,
}
use stowmark.Repository.Config.{Config, new_config}
use stowmark.Snapshot.Model.{Chunk, File, Manifest, hydrate}

pub record CompressionDocument : Type 0 where
  pub type_name : Bytes
  pub level : Option ℤ

pub record ConfigDocument : Type 0 where
  pub id : Bytes
  pub format_version : ℤ
  pub created_at : Bytes
  pub compression : CompressionDocument
  pub encryption : Option EncryptionConfig

pub record ManifestDocument : Type 0 where
  pub id : Bytes
  pub files : List File
  pub created_at : ℕ
  pub source : Bytes
  pub compression : CompressionDocument

-- A call of a method of a nil `*Compression` reads a field of it.
abbrev pub compression_document : Option Compression → Result CompressionDocument
compression_document none = panics "nil pointer dereference"
compression_document (some c) = ok (record { type_name = to_string c.comp_type; level = c.level })

abbrev pub then_result : {A B : Type 0} → Result A → (A → Result B) → Result B
then_result (ok a) f = f a
then_result (err e) f = err e
then_result (panics p) f = panics p

abbrev pub option_map : {A B : Type 0} → (A → B) → Option A → Option B
option_map f none = none
option_map f (some a) = some (f a)

-- A chunk and a file as the document has them, and back. Their fields are the same.
abbrev pub chunk_document : Chunk → Chunk
chunk_document c = record { hash = c.hash; offset = c.offset; size = c.size }

abbrev pub file_document : File → File
file_document f = record {
  path = f.path;
  hash = f.hash;
  size = f.size;
  chunks = map chunk_document f.chunks;
}

abbrev pub file_of_document : File → File
file_of_document f = hydrate f.path f.hash f.size (map chunk_document f.chunks)

-- `NewManifest`
unfoldable pub manifest_document : Manifest → Result ManifestDocument
manifest_document m = then_result (compression_document m.compression) λ c. ok (record {
  id = m.id;
  files = map file_document m.files;
  created_at = m.created_at;
  source = m.source;
  compression = c;
})

abbrev pub build_compression : CompressionDocument → Result Compression
build_compression d =
    then_result (parse_compression_type d.type_name) λ t. new_compression t d.level

-- `BuildManifestDomain`, after the JSON is read
unfoldable pub build_manifest_domain : ManifestDocument → Result Manifest
build_manifest_domain d = then_result (build_compression d.compression) λ c. ok (record {
  id = d.id;
  files = map file_of_document d.files;
  created_at = d.created_at;
  source = d.source;
  compression = some c;
})

-- The encryption part is written field by field; only three of its fields are read back.
abbrev pub encryption_document : EncryptionConfig → EncryptionConfig
encryption_document e = record {
  encryption_type = e.encryption_type;
  key_encryption = e.key_encryption;
  encrypted_key = e.encrypted_key;
  public_key_fingerprint = e.public_key_fingerprint;
  generation = e.generation;
}

abbrev pub encryption_of_document : EncryptionConfig → EncryptionConfig
encryption_of_document d =
    new_encryption_config d.encrypted_key d.public_key_fingerprint d.generation

module _ (show_uuid : Bytes → Bytes) (format_time : ℕ → Bytes) where
  unfoldable pub config_document : Config → Result ConfigDocument
  config_document c = then_result (compression_document c.compression) λ comp. ok (record {
    id = show_uuid c.id;
    format_version = c.format_version;
    created_at = format_time c.created_at;
    compression = comp;
    encryption = option_map encryption_document c.encryption;
  })

  module _ (W : Type 0) (marshal_indent : ConfigDocument → Result Bytes) where
    pub marshal_config : Ctx → Config → Exec W Bytes
    unfolding config_document
    marshal_config ctx c = do
      ctx_err ctx 0
      d ← lift (config_document c)
      text ← lift (wrap_result "marshal config" (marshal_indent d))
      pure (text ++ 10 ∷ [])

abbrev pub parsed_id : Option Bytes → Result Bytes
parsed_id none = err (Err.failure "failed to parse config id")
parsed_id (some id) = ok id

module _ (parse_uuid : Bytes → Option Bytes) where
  unfoldable pub build_config_domain : ℕ → ConfigDocument → Result Config
  build_config_domain now d = then_result (parsed_id (parse_uuid d.id)) λ id.
      then_result
        (wrap_result "failed to parse compression type"
          (parse_compression_type d.compression.type_name))
        λ t.
          then_result
            (wrap_result "failed to create compression" (new_compression t d.compression.level))
            λ comp. ok (
              new_config now id d.format_version (some comp)
                (option_map encryption_of_document d.encryption))
