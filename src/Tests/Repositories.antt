-- ===== src/Tests/Repositories.antt =====
-- Configurations, their initialisation, and the change of the key that protects them.
use stowmark.Base.{
  Bytes, codes, ◌≡◌, ◌↔◌, refl, false, none, some, [], ◌∷◌, Result, ok, ℤ, if◌then◌else◌, same,
  arith,
}
use stowmark.Base.Exec.{background}
use stowmark.Encryption.{EncryptionConfig, new_encryption_config}
use stowmark.Repository.Compression.{
  Compression, zstd, lz4, new_compression, parse_compression_type, to_string,
}
use stowmark.Repository.Compression.Laws.{
  FitsType, IsValid, new_compression-FitsType, IsValid-iff-new_compression, parse-to_string,
  to_string-parse,
}
use stowmark.Repository.Config.{Config, InitResult, update_config}
use stowmark.Repository.Config.Stored.{IsReadable, timeless}
use stowmark.Repository.Config.Laws.{Keeps, drops, update_config-Keeps}
use stowmark.Encryption.Decrypt.{DecryptState, decrypt}
use stowmark.Encryption.Decrypt.Laws.{decrypt_again}
use stowmark.Repository.Init.{init}
use stowmark.Repository.Init.Laws.{Chosen, init-Chosen}
use stowmark.Document.{config_document, build_config_domain}
use stowmark.Repository.Location.{Repository}
use stowmark.Repository.Rewrap.{rewrap}
use stowmark.Snapshot.Rekey.{Contexts, rekey}
use stowmark.Snapshot.Rekey.Safety.{Rotated, rekey-Rotated}
use stowmark.Pool.{feed}
use stowmark.Tests.Memory.{
  Memory, objects, view, lawful, folder, symmetric, asymmetric, base64, Pair, keys, held, repeat,
  document, the_value,
}

abbrev zstd_5 : Compression
zstd_5 = record { comp_type = zstd; level = some (ℤ.pos 5) }

new_compression-FitsType_example : (zstd_5.comp_type ≡ zstd) × FitsType zstd zstd_5.level
unfolding new_compression
new_compression-FitsType_example = new_compression-FitsType zstd (some (ℤ.pos 5)) zstd_5 refl

IsValid-iff-new_compression_example :
    IsValid zstd_5 ↔ (new_compression zstd_5.comp_type zstd_5.level ≡ ok zstd_5)
IsValid-iff-new_compression_example = IsValid-iff-new_compression zstd_5

to_string-parse_example : to_string lz4 ≡ codes "lz4"
unfolding parse_compression_type
to_string-parse_example = to_string-parse (codes "lz4") lz4 refl

parse-to_string_example : parse_compression_type (to_string zstd) ≡ ok zstd
parse-to_string_example = parse-to_string zstd (λ s h. cc)

abbrev pub some_encryption : EncryptionConfig
some_encryption = new_encryption_config (repeat 32 7) (codes "old") 3

abbrev pub encrypted : Config
encrypted = record {
  id = codes "id";
  format_version = ℤ.pos 2;
  created_at = 5;
  compression = some zstd_5;
  encryption = some some_encryption;
}

abbrev pub plain : Config
plain = record encrypted { encryption = none }

abbrev empty_result : InitResult
empty_result = record { id = []; warnings = [] }

update_config-Keeps_example :
    Keeps encrypted
      (update_config 9 encrypted plain false empty_result).0
      (drops encrypted.encryption plain.encryption false)
    × ((update_config 9 encrypted plain false empty_result).0.compression ≡ plain.compression)
update_config-Keeps_example = update_config-Keeps 9 encrypted plain false empty_result

abbrev pub path : Bytes
path = codes "/r"

abbrev pub memory : Config → Memory
memory c = record {
  configs = λ p. if same path p then the_value (document c) else none;
  full = false;
  entries = λ g. record { hash = codes "aab"; key = repeat 32 7; text = codes "text" } ∷ [];
}

abbrev repository : Repository
repository = record { path = path; config = plain }

abbrev show_id : Bytes → Bytes
show_id id = 45 ∷ id

readable : IsReadable plain
readable = record {
  comp = zstd_5;
  has_compression = refl;
  storable = record { known = λ s h. cc; valid = (refl, refl) };
  defaults = tt;
}

abbrev initialised : Result InitResult × Memory
initialised = init folder show_id 9 background repository false (memory encrypted)

init-Chosen_example :
    (c : Config) × (held.stored initialised.1 path ≡ some (timeless c))
    × (codes "-id" ≡ show_id c.id)
    × Chosen folder show_id 9 held background repository false (memory encrypted) c
unfolding init update_config config_document build_config_domain parse_compression_type to_string
    new_compression
init-Chosen_example =
    init-Chosen folder show_id 9 held background repository false (memory encrypted)
      (record {
        id = codes "-id";
        warnings = "the existing encryption configuration has been preserved" ∷ [];
      })
      initialised.1 readable refl

abbrev rewrapped : Result (Unit {0}) × Memory
rewrapped =
    rewrap folder symmetric asymmetric base64 background path (codes "old.pem") (codes "new.pem")
      (memory encrypted)

abbrev ctxs : Contexts
ctxs = record {
  prepare = background;
  create = background;
  delete = background;
  cleanup = background;
}

abbrev rotated : Result (Unit {0}) × Memory
rotated =
    rekey objects folder symmetric asymmetric base64 ctxs (feed ∷ []) path (codes "old.pem")
      (codes "new.pem") (memory encrypted)

memory_held : view.stored (memory encrypted) path ≡ some (timeless encrypted)
unfolding config_document build_config_domain parse_compression_type to_string new_compression
memory_held = refl

rekey-Rotated_example :
    Rotated view objects folder symmetric asymmetric base64 lawful Pair keys ctxs
      (feed ∷ [])
      path
      (codes "old.pem")
      (codes "new.pem")
      (memory encrypted)
      (timeless encrypted)
      some_encryption
      memory_held
      refl
      (omega arith)
      rotated
rekey-Rotated_example =
    rekey-Rotated view objects folder symmetric asymmetric base64 lawful Pair keys ctxs (feed ∷ [])
      path (codes "old.pem") (codes "new.pem") (memory encrypted) (timeless encrypted)
      some_encryption memory_held refl (omega arith)

abbrev no_key : DecryptState Memory
no_key = record { symmetric_key = []; world = memory encrypted }

abbrev with_key : DecryptState Memory
with_key = record { symmetric_key = repeat 32 7; world = memory encrypted }

decrypt_again_example :
    decrypt symmetric asymmetric background (codes "other.pem") (codes "other key") with_key
    ≡ (ok (7 ∷ repeat 31 7), with_key)
unfolding decrypt
decrypt_again_example =
    decrypt_again symmetric asymmetric background background (codes "old.pem") (repeat 32 7)
      (codes "other.pem") (codes "other key") 7 (repeat 31 7) no_key with_key refl
