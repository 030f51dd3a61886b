-- ===== src/Cipher/SymmetricKeys.antt =====
-- internal/infra/encrypt/symmetric_repository.go. RSA-OAEP and the decoding of base64 are the
-- fields of a record; the key pointers may be nil.
use stowmark.Base.{
  ℕ, ◌+◌, ◌≡◌, sym, ap, subst, Bytes, ◌==◌, ==_iff, Bool-cases, inl, inr, Option, none, some, Err,
  Result, ok, err, length, if◌then◌else◌, arith,
}
use stowmark.Base.Exec.{
  Exec, Ctx, background, ◌>>=◌, ◌>>◌, lift, wrapping, ctx_err, bind-ok, wrap_result, wrap_result-ok,
  wrapping-ok,
}
use stowmark.Encryption.{SymmetricKeyRepository}
use stowmark.Encryption.Keys.{Keys, aes_256_key_size}
use stowmark.Storage.Files.{Fs, random}
use stowmark.Storage.Files.Laws.{random-draw}

pub record Oaep (PublicKey PrivateKey : Type 0) : Type 0 where
  -- the last argument is the draw of the random source
  pub encrypt : PublicKey → Bytes → ℕ → Result Bytes
  pub decrypt : PrivateKey → Bytes → Option Bytes
  pub decode_base64 : Bytes → Option Bytes

abbrev pub required : {A : Type 0} → Option A → Result A
required none = err (Err.failure "private key is required")
required (some k) = ok k

abbrev pub decoded : Option Bytes → Result Bytes
decoded none = err (Err.failure "decode encrypted symmetric key")
decoded (some b) = ok b

abbrev pub decrypted : Option Bytes → Result Bytes
decrypted none = err (Err.failure "decrypt symmetric key")
decrypted (some b) = ok b

abbrev pub sized : Bytes → Result Bytes
sized key =
    if length key == aes_256_key_size
    then ok key
    else err (Err.failure "invalid symmetric key size")

module _ {PublicKey PrivateKey : Type 0} (oaep : Oaep PublicKey PrivateKey)
    (draw : ℕ → ℕ → Bytes) where
  unfoldable pub decode_and_decrypt_symmetric_key : Ctx → Option PrivateKey → Bytes → Exec Fs Bytes
  decode_and_decrypt_symmetric_key ctx private_key encoded = do
    ctx_err ctx 0
    k ← lift (required private_key)
    encrypted ← lift (decoded (oaep.decode_base64 encoded))
    key ← lift (decrypted (oaep.decrypt k encrypted))
    lift (sized key)

  unfoldable pub encrypt_symmetric_key : Ctx → PublicKey → Bytes → Exec Fs Bytes
  encrypt_symmetric_key ctx public_key key = do
    ctx_err ctx 0
    λ s. (
      wrap_result "encrypt symmetric key" (oaep.encrypt public_key key s.draws),
      record s { draws = s.draws + 1 },
    )

  unfoldable pub generate_symmetric_key : Ctx → Exec Fs Bytes
  generate_symmetric_key ctx = do
    ctx_err ctx 0
    wrapping "generate symmetric key" (random draw aes_256_key_size)

  -- The repository as the domain sees it.
  abbrev pub symmetric_repository : SymmetricKeyRepository Fs PublicKey (Option PrivateKey)
  symmetric_repository = record {
    generate_symmetric_key = generate_symmetric_key;
    encrypt_symmetric_key = encrypt_symmetric_key;
    decode_and_decrypt_symmetric_key = decode_and_decrypt_symmetric_key;
  }

-- What is relied on: base64 decodes what it encoded, a private key decrypts what its public key
-- encrypted, and a draw has the bytes that were asked for.
pub record IsOaep {PublicKey PrivateKey : Type 0} (oaep : Oaep PublicKey PrivateKey)
    (draw : ℕ → ℕ → Bytes) (base64 : Bytes → Bytes) (IsPair : PublicKey → PrivateKey → Type 0)
    : Type 0 where
  pub decodes : (b : Bytes) → oaep.decode_base64 (base64 b) ≡ some b
  pub decrypts :
      (p : PublicKey) (q : PrivateKey) (k c : Bytes) (n : ℕ)
      → IsPair p q
      → oaep.encrypt p k n ≡ ok c
      → oaep.decrypt q c ≡ some k
  pub draw_size : (size n : ℕ) → length (draw size n) ≡ size

-- A public key and a private key that is not nil belong together.
abbrev pub Paired :
    {PublicKey PrivateKey : Type 0}
    → (PublicKey → PrivateKey → Type 0)
    → PublicKey
    → Option PrivateKey
    → Type 0
Paired P p none = ⊥
Paired P p (some q) = P p q

sized_lem : (k : Bytes) {a : Bytes} → sized k ≡ ok a → length a ≡ aes_256_key_size
sized_lem k h = elim (Bool-cases (length k == 32)) [
  | inl e ↦ same_size k ((==_iff (length k) 32).0 e) (rw e at h)
  | inr e ↦ absurd (refused (rw e at h))
]
  where
    same_size : (k : Bytes) {a : Bytes} → length k ≡ 32 → ok k ≡ ok a → length a ≡ 32
    same_size k e h = ground (arith, e)

    refused : {e : Err} {a : Bytes} → err e ≡ ok a → ⊥
    refused h = cc

sized_right : (k : Bytes) → length k ≡ aes_256_key_size → sized k ≡ ok k
sized_right k e = rw ((==_iff (length k) 32).1 e)

module _ {PublicKey PrivateKey : Type 0} (oaep : Oaep PublicKey PrivateKey) (draw : ℕ → ℕ → Bytes)
    (base64 : Bytes → Bytes) (IsPair : PublicKey → PrivateKey → Type 0)
    (law : IsOaep oaep draw base64 IsPair) where
  decrypted_size :
      (ctx : Ctx) (q : Option PrivateKey) (encoded : Bytes) (w : Fs) {k : Bytes} {v : Fs}
      → decode_and_decrypt_symmetric_key oaep draw ctx q encoded w ≡ (ok k, v)
      → length k ≡ aes_256_key_size
  unfolding decode_and_decrypt_symmetric_key
  decrypted_size ctx q encoded w h = bind-ok (ctx_err ctx 0) _ w h λ _ w1 e1 h1.
      bind-ok (lift (required q)) _ w1 h1 λ key w2 e2 h2.
        bind-ok (lift (decoded (oaep.decode_base64 encoded))) _ w2 h2 λ b w3 e3 h3.
          bind-ok (lift (decrypted (oaep.decrypt key b))) _ w3 h3
            λ k' w4 e4 h4. sized_lem k' (ap (λ z. z.0) h4)

  decrypts_again :
      (ctx : Ctx) (p : PublicKey) (q : Option PrivateKey) (k c : Bytes) (w v u : Fs)
      → Paired IsPair p q
      → length k ≡ aes_256_key_size
      → encrypt_symmetric_key oaep draw ctx p k w ≡ (ok c, v)
      → (decode_and_decrypt_symmetric_key oaep draw background q (base64 c) u).0 ≡ ok k
  unfolding decode_and_decrypt_symmetric_key encrypt_symmetric_key
  decrypts_again ctx p none k c w v u pair size h = absurd pair
  decrypts_again ctx p (some q) k c w v u pair size h = bind-ok (ctx_err ctx 0) _ w h λ _ w1 e1 h1.
      let e =
        wrap_result-ok "encrypt symmetric key" (oaep.encrypt p k w1.draws) (ap (λ z. z.0) h1) in
      rw (law.decodes c) (rw (law.decrypts p q k c w1.draws pair e) (sized_right k size))

  generated_size :
      (ctx : Ctx) (w : Fs) {k : Bytes} {v : Fs}
      → generate_symmetric_key oaep draw ctx w ≡ (ok k, v)
      → length k ≡ aes_256_key_size
  unfolding generate_symmetric_key random
  generated_size ctx w h = bind-ok (ctx_err ctx 0) _ w h λ _ w1 e1 h1.
      let (n, e) =
        random-draw draw aes_256_key_size w1
          (wrapping-ok "generate symmetric key" (random draw aes_256_key_size) w1 h1) in
      subst (λ b. length b ≡ aes_256_key_size) (sym e) (law.draw_size aes_256_key_size n)

  -- The repository keeps what the services rely on, if RSA-OAEP, base64 and the random source do
  -- what they document.
  pub symmetric_repository-Keys : Keys (symmetric_repository oaep draw) base64 (Paired IsPair)
  symmetric_repository-Keys = record {
    decrypted_size = decrypted_size;
    generated_size = generated_size;
    decrypts = decrypts_again;
  }
