-- ===== src/Encryption/Keys.antt =====
-- What the services rely on of the two key interfaces: RSA-OAEP decrypts what it encrypted, and a
-- decrypted key has the size of an AES-256 key.
use stowmark.Base.{ℕ, Bytes, ◌≡◌, length, ok}
use stowmark.Base.Exec.{Ctx, background}
use stowmark.Encryption.{SymmetricKeyRepository}

abbrev pub aes_256_key_size : ℕ
aes_256_key_size = 32

pub record Keys {W PublicKey PrivateKey : Type 0}
    (symmetric : SymmetricKeyRepository W PublicKey PrivateKey) (base64 : Bytes → Bytes)
    (Pair : PublicKey → PrivateKey → Type 0) : Type 0 where
  pub decrypted_size :
      (ctx : Ctx) (private_key : PrivateKey) (encoded : Bytes) (w : W) {k : Bytes} {v : W}
      → symmetric.decode_and_decrypt_symmetric_key ctx private_key encoded w ≡ (ok k, v)
      → length k ≡ aes_256_key_size
  pub generated_size :
      (ctx : Ctx) (w : W) {k : Bytes} {v : W}
      → symmetric.generate_symmetric_key ctx w ≡ (ok k, v)
      → length k ≡ aes_256_key_size
  pub decrypts :
      (ctx : Ctx) (public_key : PublicKey) (private_key : PrivateKey) (k c : Bytes) (w v u : W)
      → Pair public_key private_key
      → length k ≡ aes_256_key_size
      → symmetric.encrypt_symmetric_key ctx public_key k w ≡ (ok c, v)
      → (symmetric.decode_and_decrypt_symmetric_key background private_key (base64 c) u).0 ≡ ok k
