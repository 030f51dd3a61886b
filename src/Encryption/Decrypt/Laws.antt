-- ===== src/Encryption/Decrypt/Laws.antt =====
-- What a second decryption gives.
use stowmark.Base.{ℕ, Bytes, ◌≡◌, refl, sym, ap, ◌∙◌, [], ◌∷◌, Result, ok}
use stowmark.Base.Exec.{Ctx, bind-ok}
use stowmark.Encryption.{AsymmetricKeyPairRepository, SymmetricKeyRepository}
use stowmark.Encryption.Decrypt.{DecryptState, decrypt, decrypt_with, on_world}

module _ {W PublicKey PrivateKey : Type 0}
    (symmetric : SymmetricKeyRepository W PublicKey PrivateKey)
    (asymmetric : AsymmetricKeyPairRepository W PublicKey PrivateKey) where
  abbrev key_of_result : Result Bytes → Bytes
  key_of_result (ok k) = k
  key_of_result _ = []

  keeps :
      (held : Bytes) (ctx : Ctx) (path encoded : Bytes) (s : DecryptState W) {key : Bytes}
      {t : DecryptState W}
      → s.symmetric_key ≡ held
      → decrypt_with symmetric asymmetric held ctx path encoded s ≡ (ok key, t)
      → t.symmetric_key ≡ key
  keeps (b ∷ held) ctx path encoded s e h =
      ap (λ z. z.1.symmetric_key) (sym h) ∙ e ∙ ap (λ z. key_of_result z.0) h
  keeps [] ctx path encoded s e h =
      bind-ok (on_world (asymmetric.read_rsa_private_key ctx path)) _ s h λ p s1 e1 h1.
        bind-ok (on_world (symmetric.decode_and_decrypt_symmetric_key ctx p encoded)) _ s1 h1
          λ k s2 e2 h2. ap (λ z. z.1.symmetric_key) (sym h2) ∙ ap (λ z. key_of_result z.0) h2

  again :
      (b : ℕ) (key held : Bytes) (ctx : Ctx) (path encoded : Bytes) (s : DecryptState W)
      → held ≡ b ∷ key
      → decrypt_with symmetric asymmetric held ctx path encoded s ≡ (ok (b ∷ key), s)
  again b key held ctx path encoded s e = rw e refl

  -- After a decryption that gave a key that is not empty, every later one gives the same key and
  -- calls no repository: whichever private key and whichever encrypted key it is asked for.
  pub decrypt_again :
      (ctx later : Ctx) (path encoded other_path other_encoded : Bytes) (b : ℕ) (key : Bytes)
      (s t : DecryptState W)
      → decrypt symmetric asymmetric ctx path encoded s ≡ (ok (b ∷ key), t)
      → decrypt symmetric asymmetric later other_path other_encoded t ≡ (ok (b ∷ key), t)
  unfolding decrypt
  decrypt_again ctx later path encoded other_path other_encoded b key s t h =
      again b key t.symmetric_key later other_path other_encoded t
        (keeps s.symmetric_key ctx path encoded s refl h)
