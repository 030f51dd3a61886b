-- ===== src/Tests/Ciphers.antt =====
-- Keys and writers, and the handlers of the compression types.
use stowmark.Base.{
  ℕ, zero, suc, ◌≡◌, ◌≢◌, refl, ap, Bytes, codes, String, some, ok, panics, length, ℤ,
}
use stowmark.Cipher.Stream.{write_full, write_full-Written}
use stowmark.Cipher.Laws.{held_at, write-IsWriter}
use stowmark.Cipher.SymmetricKeys.{
  Oaep, IsOaep, Paired, symmetric_repository, symmetric_repository-Keys,
}
use stowmark.Codec.{get_handler, new_writer}
use stowmark.Codec.Laws.{FitsType-new_writer}
use stowmark.Encryption.Keys.{Keys}
use stowmark.Repository.Compression.{gzip}
use stowmark.Storage.Files.{write}
use stowmark.Tests.Disk.{copiers, codecs, empty_disk}
use stowmark.Tests.Memory.{repeat}

write_full-Written_example :
    ((p : String) → (write_full (write (codes "f")) 2 (codes "ab") empty_disk).0 ≢ panics p)
    × ((write_full (write (codes "f")) 2 (codes "ab") empty_disk).0 ≡ ok tt
        → held_at (codes "f") (write_full (write (codes "f")) 2 (codes "ab") empty_disk).1
          ≡ codes "ab")
write_full-Written_example =
    write_full-Written (write (codes "f")) (held_at (codes "f")) (write-IsWriter (codes "f"))
      (codes "ab") empty_disk

abbrev oaep : Oaep Unit Unit
oaep = record {
  encrypt = λ public_key text n. ok text;
  decrypt = λ private_key text. some text;
  decode_base64 = λ text. some text;
}

abbrev draw : ℕ → ℕ → Bytes
draw size n = repeat size 7

abbrev base64 : Bytes → Bytes
base64 b = b

abbrev IsPair : Unit {0} → Unit {0} → Type 0
IsPair p q = Unit {0}

length-repeat : (n b : ℕ) → length (repeat n b) ≡ n
length-repeat zero b = refl
length-repeat (suc n) b = ap suc (length-repeat n b)

oaep-IsOaep : IsOaep oaep draw base64 IsPair
oaep-IsOaep = record {
  decodes = λ b. refl;
  decrypts = λ p q k c n pair e. same_text e;
  draw_size = λ size n. length-repeat size 7;
}
  where
    same_text : {k c : Bytes} → ok k ≡ ok c → some c ≡ some k
    same_text e = cc

symmetric_repository-Keys_example : Keys (symmetric_repository oaep draw) base64 (Paired IsPair)
symmetric_repository-Keys_example = symmetric_repository-Keys oaep draw base64 IsPair oaep-IsOaep

FitsType-new_writer_example :
    (get_handler gzip ≡ ok tt) × (new_writer copiers gzip (some (ℤ.pos 6)) ≡ ok tt)
FitsType-new_writer_example =
    FitsType-new_writer copiers codecs gzip (some (ℤ.pos 6)) (λ s e. cc) (refl, refl)
