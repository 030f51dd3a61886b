-- ===== src/Tests/Files.antt =====
-- Documents, paths and chunks.
use stowmark.Base.{
  ℕ, ◌+◌, ◌<◌, ◌^◌, ◌≡◌, ◌∙◌, ◌↔◌, refl, ap, Bytes, codes, true, false, Option, none, some, List,
  [], ◌∷◌, ◌++◌, Result, ok, take, All, ℤ, arith,
}
use stowmark.Base.Exec.{background, pure}
use stowmark.Encryption.{new_encryption_config}
use stowmark.Repository.Compression.{Compression, zstd}
use stowmark.Repository.Config.{Config}
use stowmark.Snapshot.Model.{Chunk, File, Manifest}
use stowmark.Document.{
  then_result, manifest_document, build_manifest_domain, config_document, build_config_domain,
}
use stowmark.Document.Laws.{manifest_round_trip, config_round_trip, IsStorable}
use stowmark.Storage.Paths.{
  Joins, get_objects_path, encrypted_generation_path, encrypted_object_path,
  get_objects_path-encrypted_object_path,
}
use stowmark.Storage.Hashes.{object_hashes, parts, IsLong, object_hashes_lem}
use stowmark.Storage.Chunking.{Disk, Opener, FileInfo, calculate_chunks, calculate_reader_hash}
use stowmark.Storage.Chunking.Tiles.{Tiles, calculate_chunks-Tiles}
use stowmark.Storage.Chunking.Ends.{Works, calculate_chunks_ends}
use stowmark.Storage.Sections.{open_source, open_source_inside}

abbrev zstd_3 : Compression
zstd_3 = record { comp_type = zstd; level = some (ℤ.pos 3) }

storable : IsStorable zstd_3
storable = record { known = λ s h. cc; valid = (refl, refl) }

abbrev two_chunks : List Chunk
two_chunks =
    record { hash = codes "abc"; offset = 0; size = 4 }
    ∷ record { hash = codes "abc"; offset = 4; size = 1 }
    ∷ []

abbrev file : File
file = record { path = codes "/a"; size = 5; hash = []; chunks = two_chunks }

abbrev manifest : Manifest
manifest = record {
  id = codes "s1";
  files = file ∷ [];
  created_at = 5;
  source = codes "/";
  compression = some zstd_3;
}

manifest_round_trip_example :
    then_result (manifest_document manifest) build_manifest_domain ≡ ok manifest
manifest_round_trip_example = manifest_round_trip manifest zstd_3 refl storable

abbrev config : Config
config = record {
  id = codes "id";
  format_version = ℤ.pos 2;
  created_at = 5;
  compression = some zstd_3;
  encryption = some (new_encryption_config (codes "key") (codes "print") 1);
}

abbrev show_uuid : Bytes → Bytes
show_uuid id = 45 ∷ id

abbrev parse_uuid : Bytes → Option Bytes
parse_uuid [] = none
parse_uuid (b ∷ id) = some id

config_round_trip_example :
    then_result (config_document show_uuid (λ t. []) config) (build_config_domain parse_uuid 9)
    ≡ ok (record config { created_at = 9 })
config_round_trip_example =
    config_round_trip show_uuid (λ t. []) parse_uuid 9 config zstd_3 refl refl storable
      (record { type_default = refl; key_default = refl })

-- Paths as the bytes of their elements, one after the other.
abbrev join : List Bytes → Bytes
join [] = []
join (x ∷ xs) = x ++ join xs

abbrev numeral : ℕ → Bytes
numeral g = (48 + g) ∷ []

append_assoc : (xs ys zs : Bytes) → (xs ++ ys) ++ zs ≡ xs ++ (ys ++ zs)
append_assoc [] ys zs = refl
append_assoc (x ∷ xs) ys zs = ap (λ r. x ∷ r) (append_assoc xs ys zs)

join_first : (xs ys : List Bytes) → join (join xs ∷ ys) ≡ join (xs ++ ys)
join_first [] ys = refl
join_first (x ∷ xs) ys = append_assoc x (join xs) (join ys) ∙ ap (λ r. x ++ r) (join_first xs ys)

joins : Joins join join (λ p. p) numeral
joins = record { first = join_first; second = λ r p g. refl }

get_objects_path-encrypted_object_path_example :
    get_objects_path join join (λ p. p) numeral (codes "/r") (codes "abcd") 3 (7 ∷ []) false
    ≡ ok (record {
      directory_path = join (
          encrypted_generation_path join join (λ p. p) numeral (codes "/r") 3 false
          ∷ take 2 (codes "abcd")
          ∷ []);
      object_path = encrypted_object_path join join (λ p. p) numeral (codes "/r") (codes "abcd") 3;
    })
get_objects_path-encrypted_object_path_example =
    get_objects_path-encrypted_object_path join join (λ p. p) numeral joins (codes "/r")
      (codes "abcd") 3 7 [] (omega arith)

object_hashes_lem_example :
    (object_hashes file ≡ ok (codes "abc" ∷ codes "abc" ∷ []))
    ↔ (((codes "abc" ∷ codes "abc" ∷ []) ≡ parts file) × All IsLong (parts file))
object_hashes_lem_example = object_hashes_lem file (codes "abc" ∷ codes "abc" ∷ [])

abbrev info : FileInfo
info = record { size = 5; is_regular = true }

-- A disk with one file of five bytes.
abbrev opener : Opener Unit Unit
opener = record {
  open_file = λ path. pure tt;
  stat = λ handle. pure info;
  close_file = λ handle. pure tt;
}

abbrev disk : Disk Unit Unit Unit
disk = record {
  files = opener;
  encoder = λ t level. pure tt;
  copy = λ ctx part writer. pure tt;
  close_writer = λ writer. pure tt;
  digest = λ writer. pure (codes "abc");
}

abbrev size_of : Result FileInfo → ℕ
size_of (ok i) = i.size
size_of _ = 0

bounded : (i : FileInfo) {u v : Unit {0}} → pure info u ≡ (ok i, v) → i.size + 4 < 2 ^ 63
bounded i h = let e : 5 ≡ i.size = ap (λ z. size_of z.0) h in omega (arith, e)

calculate_chunks-Tiles_example :
    (handle : Unit {0}) × (u : Unit {0}) × (u' : Unit {0}) × (i : FileInfo) × (disk.files.open_file
        (codes "/a")
        tt
      ≡ (ok handle, u))
    × (disk.files.stat handle u ≡ (ok i, u'))
    × Tiles i.size 4 0 two_chunks
unfolding calculate_chunks
calculate_chunks-Tiles_example =
    calculate_chunks-Tiles disk (λ o. background) (codes "/a") 4 zstd_3 two_chunks tt tt
      (omega arith) (λ f u u' i h. bounded i h) refl

works : Works disk (λ o. background) (codes "/a") zstd_3 info
unfolding calculate_reader_hash
works = record {
  calm = λ o. refl;
  opened = λ w. (tt, tt, refl);
  sized = λ f w. (tt, refl);
  hashed = λ f o n w. (codes "abc", tt, refl);
}

calculate_chunks_ends_example :
    (out : List Chunk) × (v : Unit {0}) × (calculate_chunks disk
        (λ o. background)
        (codes "/a")
        4
        (some zstd_3)
        tt
      ≡ (ok out, v))
calculate_chunks_ends_example =
    calculate_chunks_ends disk (λ o. background) (codes "/a") zstd_3 info 4 tt works (omega arith)
      (omega arith)

open_source_inside_example :
    open_source opener (codes "/a") (codes "abc") 4 1 (some zstd_3) tt ≡ (ok tt, tt)
open_source_inside_example =
    open_source_inside opener (codes "/a") (codes "abc") 4 1 zstd_3 info tt tt tt tt (omega arith)
      (omega arith) (omega arith) (omega arith) refl refl refl
