-- ===== src/Tests/Disk.antt =====
-- A repository on a small disk: AES-GCM that seals nothing, codecs that copy, numerals of one digit.
use mathlib.Core.List.{Mem}
use stowmark.Base.{
  ℕ, zero, suc, ◌+◌, ◌*◌, ◌≤◌, ◌≡◌, ◌≢◌, ◌⊎◌, refl, ap, sym, ◌∙◌, Bytes, codes, String, same,
  lookup, Bool, true, false, ltb, length, take, drop, Option, none, some, List, [], ◌∷◌, ◌++◌,
  Result, ok, err, panics, if◌then◌else◌, arith, word_size, ◌%◌,
}
use stowmark.Base.Exec.{Ctx, background}
use stowmark.Cipher.{Aead, IsAead, plain, finish}
use stowmark.Cipher.Stream.{write_full, append_nil}
use stowmark.Codec.{Packages, AreCodecs, get_handler, new_writer, encode, new_reader}
use stowmark.Codec
use stowmark.Repository.Compression.{Compression, no_compression}
use stowmark.Repository.Config.{Config}
use stowmark.Snapshot.Model.{File}
use stowmark.Snapshot.Rekey.Store.{LawfulObjects}
use stowmark.Storage.Files.{
  Fs, mkdir_all, open_file, create_excl, create, write, close, sync, rename, remove, random,
  content,
}
use stowmark.Storage.Hashes.{object_hashes}
use stowmark.Storage.Sections.{open_source}
use stowmark.Storage.Paths.{
  ObjectsPath, get_objects_path, encrypted_generation_path, encrypted_object_path,
}
use stowmark.Storage.Objects.{Setting, object_path, location}
use stowmark.Storage.Objects.Places.{AreNumerals, has_slash}
use stowmark.Storage.Objects.View.{disk_view}
use stowmark.Storage.Objects.Lawful.{object_repository-LawfulObjects}
use stowmark.Storage.Objects.Repository.{object_repository}
use stowmark.Storage.Objects.Listing.{list_encrypted_objects}
use stowmark.Storage.Objects.Listing.Complete.{list_encrypted_objects-Mem}
use stowmark.Storage.Objects.Reads.{reads, read_all, read_all_lem, buffer_size}
use stowmark.Storage.Objects.Rekeyed.{save_rekeyed_object, committed, temp_path}
use stowmark.Storage.Objects.Rekeyed.Saved.{save_rekeyed_object-Sealed}
use stowmark.Storage.Objects.Rekeyed.Atomic.{AllBut, save_rekeyed_object-AllBut}
use stowmark.Storage.Objects.Restore.{
  restore_object, restore_content, restore_parts, restore_object_part, decode_part,
}
use stowmark.Storage.Objects.Restore.Texts.{object_text, assembled, unlocked, unpacked}
use stowmark.Storage.Objects.Restore.Assembled.{restore_object-Assembled}
use stowmark.Storage.Objects.SaveChunk.{save_chunk, write_chunk}
use stowmark.Storage.Objects.SaveChunk.Decodes.{save_chunk-object_text}
use stowmark.Storage.Encoding.{encode_chunk, encrypt}
use stowmark.Storage.Encoding.Laws.{encode_chunk-Packed}
use stowmark.Storage.Objects.Save.{save, write_object}
use stowmark.Storage.Objects.Save.Stored.{IsTaken, save-object_text}
use stowmark.Tests.Memory.{repeat}

abbrev open_cipher : Aead
open_cipher = record {
  seal = λ key nonce text. text;
  unseal = λ key nonce text. some text;
  draw = λ size n. repeat size 7;
}

length-repeat : (n b : ℕ) → length (repeat n b) ≡ n
length-repeat zero b = refl
length-repeat (suc n) b = ap suc (length-repeat n b)

pub sealing : IsAead open_cipher
sealing = record { opens = λ key nonce text. refl; draw_size = λ size n. length-repeat size 7 }

abbrev pub copiers : Packages
copiers = record {
  zstd_writer = λ l. ok tt;
  lz4_apply = λ l. ok tt;
  xz_writer = ok tt;
  gzip_writer = λ l. ok tt;
  compress = λ t l text. record { body = text; tail = [] };
  reader = λ t source. ok tt;
  decompress = λ t source. record { text = source; error = none };
}

pub codecs : AreCodecs copiers
codecs = record {
  zstd_levels = λ l. refl;
  lz4_levels = λ l a b. refl;
  xz_makes = refl;
  gzip_levels = λ l a b. refl;
  reads = λ t l text. refl;
  gives_back = λ t l text. ap (λ b. record { text = b; error = none }) (append_nil text);
}

abbrev ones : ℕ → Bytes
ones g = repeat g 49

no_slash : (g : ℕ) → has_slash (ones g) ≡ false
no_slash zero = refl
no_slash (suc g) = no_slash g

numerals : AreNumerals ones
numerals = record {
  injective = λ g h e. sym (length-repeat g 49) ∙ ap length e ∙ length-repeat h 49;
  plain = no_slash;
}

abbrev on_disk : Setting
on_disk = record {
  repository_path = codes "repo";
  aead = open_cipher;
  packages = copiers;
  format_uint = ones;
  sha256_hex = λ b. b;
  temp_suffix = λ n. codes "0";
  dir = λ p. p;
}

abbrev pub empty_disk : Fs
empty_disk = record { files = []; dirs = []; trouble = []; draws = 0 }

abbrev key : Bytes
key = repeat 32 7

abbrev no_config : Bytes → Option Config
no_config b = none

object_repository-LawfulObjects_example :
    LawfulObjects (disk_view on_disk no_config) (object_repository on_disk)
object_repository-LawfulObjects_example =
    object_repository-LawfulObjects on_disk no_config sealing numerals

abbrev saved : Result (Unit {0}) × Fs
saved = save_rekeyed_object on_disk background (codes "abc") (codes "abc") 2 key empty_disk

saved_ok : saved.0 ≡ ok tt
unfolding save_rekeyed_object committed finish write_full mkdir_all create_excl close sync rename
    remove random write encrypted_object_path encrypted_generation_path
saved_ok = refl

save_rekeyed_object-Sealed_example :
    (ltb 3 3 ≡ false)
    × (codes "abc" ≡ codes "abc")
    × ((c : Bytes) × (plain open_cipher key c ≡ some (codes "abc"))
        × ((k : Bytes)
            → lookup k saved.1.files
              ≡ (if same (object_path on_disk (codes "abc") 2) k then some c else lookup k [])))
save_rekeyed_object-Sealed_example =
    save_rekeyed_object-Sealed on_disk sealing background (codes "abc") (codes "abc") 2 key
      empty_disk (ap (λ r. (r, saved.1)) saved_ok)

-- The disk is full while the nonce is written: the sixth call fails.
abbrev full_disk : Fs
full_disk = record {
  files = [];
  dirs = [];
  trouble = none ∷ none ∷ none ∷ some (record { done = 5; reason = "no space" }) ∷ [];
  draws = 0;
}

abbrev unsaved : Result (Unit {0}) × Fs
unsaved = save_rekeyed_object on_disk background (codes "abc") (codes "abc") 2 key full_disk

abbrev failure_of : Result (Unit {0}) → Bool
failure_of (ok _) = false
failure_of _ = true

unsaved_failed : failure_of unsaved.0 ≡ true
unfolding save_rekeyed_object committed finish write_full mkdir_all create_excl close sync rename
    remove random write encrypted_object_path encrypted_generation_path
unsaved_failed = refl

failed_not_ok : (r : Result (Unit {0})) → failure_of r ≡ true → r ≢ ok tt
failed_not_ok (ok x) h e = cc
failed_not_ok (err x) h e = cc
failed_not_ok (panics x) h e = cc

save_rekeyed_object-AllBut_example :
    (n : ℕ) × AllBut (temp_path on_disk (codes "abc") 2 n) full_disk unsaved.1
save_rekeyed_object-AllBut_example =
    save_rekeyed_object-AllBut on_disk (codes "abc") 2 background (codes "abc") key full_disk
      (failed_not_ok unsaved.0 unsaved_failed)

abbrev rekeyed_disk : Fs
rekeyed_disk = record {
  files = (codes "repo/objects/encrypted/11/ab/c", repeat 12 7 ++ codes "abc") ∷ [];
  dirs = [];
  trouble = [];
  draws = 0;
}

abbrev listing : Result (List Bytes) × Fs
listing = list_encrypted_objects on_disk background 2 rekeyed_disk

listing_ok : listing.0 ≡ ok (codes "abc" ∷ [])
unfolding list_encrypted_objects encrypted_generation_path
listing_ok = refl

there :
    lookup (object_path on_disk (codes "abc") 2) rekeyed_disk.files
    ≡ some (repeat 12 7 ++ codes "abc")
unfolding encrypted_object_path encrypted_generation_path
there = refl

list_encrypted_objects-Mem_example : Mem (codes "abc") (codes "abc" ∷ [])
list_encrypted_objects-Mem_example =
    list_encrypted_objects-Mem on_disk background 2 (codes "abc") rekeyed_disk (omega arith) there
      (ap (λ r. (r, listing.1)) listing_ok)

abbrev plain_disk : Fs
plain_disk = record {
  files =
      (codes "repo/objects/ab/c", codes "te")
      ∷ (codes "repo/objects/de/f", codes "xt")
      ∷ (codes "in", codes "hello")
      ∷ [];
  dirs = [];
  trouble = [];
  draws = 0;
}

abbrev uncompressed : Compression
uncompressed = record { comp_type = no_compression; level = none }

abbrev two_parts : File
two_parts = record {
  path = codes "out";
  size = 4;
  hash = [];
  chunks =
      record { hash = codes "abc"; offset = 0; size = 2 }
      ∷ record { hash = codes "def"; offset = 2; size = 2 }
      ∷ [];
}

abbrev part_hashes : List Bytes
part_hashes = codes "abc" ∷ codes "def" ∷ []

abbrev restored : Result (Unit {0}) × Fs
restored = restore_object on_disk background (some uncompressed) two_parts [] 0 plain_disk

restored_ok : restored.0 ≡ ok tt
unfolding restore_object restore_content restore_parts restore_object_part decode_part object_hashes
    reads get_handler new_reader Codec.decode mkdir_all open_file create write close remove
    get_objects_path
restored_ok = refl

hashes_ok : object_hashes two_parts ≡ ok part_hashes
unfolding object_hashes
hashes_ok = refl

restore_object-Assembled_example :
    (text : Bytes) × (assembled on_disk uncompressed [] 0 plain_disk part_hashes ≡ some text)
    × (content (codes "out") restored.1.files ≡ text)
    × (4 % word_size ≡ length text % word_size)
unfolding get_objects_path
restore_object-Assembled_example =
    restore_object-Assembled on_disk uncompressed [] 0 background two_parts part_hashes plain_disk
      hashes_ok (refl, (refl, tt)) (ap (λ r. (r, restored.1)) restored_ok)

abbrev chunk_saved : Result (Unit {0}) × Fs
chunk_saved =
    save_chunk on_disk background (codes "in") (codes "xyz") 1 3 (some uncompressed) key 1
      plain_disk

chunk_saved_ok : chunk_saved.0 ≡ ok tt
unfolding save_chunk write_chunk open_source reads get_handler new_writer encode finish write_full
    mkdir_all open_file create write close remove random get_objects_path
chunk_saved_ok = refl

save_chunk-object_text_example :
    (text : Bytes) × (lookup (codes "in") plain_disk.files ≡ some text)
    × (dest : ObjectsPath) × (location on_disk (codes "xyz") 1 key false ≡ ok dest)
    × (object_text on_disk uncompressed key (some (content dest.object_path chunk_saved.1.files))
        ≡ some (take 3 (drop 1 text)))
unfolding get_objects_path
save_chunk-object_text_example =
    save_chunk-object_text on_disk sealing codecs background (codes "in") (codes "xyz") 1 3
      uncompressed key 1 plain_disk refl (ap (λ r. (r, chunk_saved.1)) chunk_saved_ok)

abbrev cancelled : Ctx
cancelled n = ltb 0 n

read_all_lem_example :
    ((p : String) → (read_all cancelled 0 (codes "abc") empty_disk).0.outcome ≢ panics p)
    × ((read_all cancelled 0 (codes "abc") empty_disk).0.outcome ≡ ok tt
        → (read_all cancelled 0 (codes "abc") empty_disk).0.text ≡ codes "abc")
    × ((k : ℕ)
        → cancelled (0 + k) ≡ true
        → k * buffer_size ≤ 3
        → (read_all cancelled 0 (codes "abc") empty_disk).0.outcome ≢ ok tt)
read_all_lem_example = read_all_lem cancelled 0 (codes "abc") empty_disk

abbrev encoded_chunk : Result Bytes × Fs
encoded_chunk =
    encode_chunk on_disk background (codes "ell") 1 3 (some uncompressed) key (codes "hello")
      empty_disk

abbrev chunk_bytes : Bytes
chunk_bytes = repeat 12 7 ++ codes "ell"

encoded_chunk_ok : encoded_chunk.0 ≡ ok chunk_bytes
unfolding encode_chunk encrypt reads get_handler new_writer encode random
encoded_chunk_ok = refl

encode_chunk-Packed_example :
    (packed : Bytes) × (unlocked open_cipher key chunk_bytes ≡ some packed)
    × (packed ≡ codes "ell")
    × (unpacked on_disk uncompressed (some packed) ≡ some (take 3 (drop 1 (codes "hello"))))
encode_chunk-Packed_example =
    encode_chunk-Packed on_disk sealing codecs background (codes "ell") 1 3 uncompressed key
      (codes "hello") empty_disk (ap (λ r. (r, encoded_chunk.1)) encoded_chunk_ok)

abbrev file_saved : Result (Unit {0}) × Fs
file_saved = save on_disk background (codes "in") (codes "xyz") (some uncompressed) [] 0 plain_disk

file_saved_ok : file_saved.0 ≡ ok tt
unfolding save write_object get_handler new_writer encode mkdir_all open_file create_excl write
    close remove get_objects_path
file_saved_ok = refl

save-object_text_example :
    (text : Bytes) × (lookup (codes "in") plain_disk.files ≡ some text)
    × (dest : ObjectsPath) × (location on_disk (codes "xyz") 0 [] false ≡ ok dest)
    × (((lookup dest.object_path file_saved.1.files ≡ lookup dest.object_path plain_disk.files)
          × IsTaken dest.object_path file_saved.1)
        ⊎ (object_text on_disk uncompressed [] (some (content dest.object_path file_saved.1.files))
            ≡ some text))
save-object_text_example =
    save-object_text on_disk sealing codecs background (codes "in") (codes "xyz") uncompressed 0
      plain_disk (ap (λ r. (r, file_saved.1)) file_saved_ok)
