-- ===== src/Storage/Encoding/Laws.antt =====
-- What internal/infra/object/encoder.go gives can be decrypted and decompressed, and has the hash.
use stowmark.Base.{
  ℕ, Bytes, ◌≡◌, refl, sym, ap, subst, ◌∙◌, Bool, true, false, not, same, same→eq, some, [], ◌∷◌,
  ◌++◌, Err, Result, ok, err, panics, take, drop, length, arith,
}
use stowmark.Base.Exec.{Ctx, lift, wrapping, wrapping-ok, bind-ok, ctx_err}
use stowmark.Cipher.{IsAead, new_encoder, nonce_size, plain}
use stowmark.Cipher.Laws.{plain-seal}
use stowmark.Codec.{AreCodecs, get_handler, new_writer, encode}
use stowmark.Repository.Compression.{Compression}
use stowmark.Storage.Files.{Fs, random}
use stowmark.Storage.Files.Laws.{random-draw}
use stowmark.Storage.Objects.{Setting}
use stowmark.Storage.Objects.Reads.{Read, read_all, read_all_lem}
use stowmark.Storage.Objects.Rekeyed.Steps.{encoder-ok, refuse-ok}
use stowmark.Storage.Objects.Restore.Texts.{unlocked, unpacked}
use stowmark.Storage.Objects.SaveChunk.Copied.{unpacked-encode}
use stowmark.Storage.Encoding.{
  finish_in_memory, encrypt_read, encrypt, validate_hash, encrypted, encode_read, encode_chunk,
}

bytes_of : Result Bytes → Bytes
bytes_of (ok b) = b
bytes_of _ = []

positive : (b : Bool) → not b ≡ false → b ≡ true
positive b h = ground arith

module _ (o : Setting) (sealing : IsAead o.aead) (codecs : AreCodecs o.packages) where
  finish-ok :
      (key text : Bytes) (s : Fs) {out : Bytes} {t : Fs}
      → length key ≡ 32
      → finish_in_memory o.aead key text s ≡ (ok out, t)
      → plain o.aead key out ≡ some text
  unfolding bytes_of
  finish-ok key text s size h =
      bind-ok (wrapping "generate AES-GCM nonce" (random o.aead.draw nonce_size)) _ s h
        λ nonce u e1 e2.
          let d =
            random-draw o.aead.draw nonce_size s
              (wrapping-ok "generate AES-GCM nonce" (random o.aead.draw nonce_size) s e1) in
          ap (λ z. plain o.aead key (bytes_of z.0)) (sym e2)
          ∙ plain-seal o.aead sealing key nonce text size
              (subst (λ b. length b ≡ nonce_size) (sym d.1) (sealing.draw_size nonce_size d.0))

  read-ok :
      (key : Bytes) (read : Read) (r : Result (Unit {0})) (s : Fs) {out : Bytes} {t : Fs}
      → encrypt_read o.aead key read r s ≡ (ok out, t)
      → (r ≡ ok tt) × (finish_in_memory o.aead key read.text s ≡ (ok out, t))
  read-ok key read (ok _) s h =
      (refl, wrapping-ok "finish encryption" (finish_in_memory o.aead key read.text) s h)
  read-ok key read (err e) s h = ground arith
  read-ok key read (panics p) s h = ground arith

  encrypt-ok :
      (ctx : Ctx) (n : ℕ) (text key : Bytes) (s : Fs) {out : Bytes} {t : Fs}
      → encrypt o.aead ctx n text key s ≡ (ok out, t)
      → plain o.aead key out ≡ some text
  unfolding encrypt
  encrypt-ok ctx n text key s {out = out} h =
      bind-ok (wrapping "create encryption encoder" (new_encoder o.aead key)) _ s h λ _ u e1 e2.
        let (size, _) =
          encoder-ok o.aead key s
            (wrapping-ok "create encryption encoder" (new_encoder o.aead key) s e1) in
        let r = read_all ctx n text u in
        let (all, f) = read-ok key r.0 r.0.outcome r.1 e2 in
        subst (λ z. plain o.aead key out ≡ some z) ((read_all_lem ctx n text u).1 all)
          (finish-ok key r.0.text r.1 size f)

  encrypted-ok :
      (ctx : Ctx) (n : ℕ) (key text : Bytes) (s : Fs) {out : Bytes} {t : Fs}
      → encrypted o ctx n key text s ≡ (ok out, t)
      → unlocked o.aead key out ≡ some text
  unfolding bytes_of
  encrypted-ok ctx n [] text s h = ap (λ z. some (bytes_of z.0)) (sym h)
  encrypted-ok ctx n (k ∷ key) text s h =
      encrypt-ok ctx n text (k ∷ key) s
        (wrapping-ok "encrypt chunk" (encrypt o.aead ctx n text (k ∷ key)) s h)

  abbrev Packed : Bytes → Compression → Bytes → Bytes → Bytes → Type 0
  Packed hash comp key text out =
      (packed : Bytes) × (unlocked o.aead key out ≡ some packed)
      × (o.sha256_hex packed ≡ hash)
      × (unpacked o comp (some packed) ≡ some text)

  encode_read-ok :
      (ctx : Ctx) (hash : Bytes) (comp : Compression) (key : Bytes) (read : Read)
      (r : Result (Unit {0})) (s : Fs) {out : Bytes} {t : Fs}
      → get_handler comp.comp_type ≡ ok tt
      → encode_read o ctx hash comp key read r s ≡ (ok out, t)
      → (r ≡ ok tt) × Packed hash comp key read.text out
  encode_read-ok ctx hash comp key read (ok _) s handler h =
      let e = encode o.packages comp.comp_type comp.level read.text in
      let packed = e.body ++ e.tail in
      bind-ok (validate_hash o packed hash) _ s h λ _ u e1 e2. (
        refl,
        (
          packed,
          encrypted-ok ctx read.checks key packed u e2,
          same→eq (o.sha256_hex packed) hash (
              positive (same (o.sha256_hex packed) hash)
                (refuse-ok (not (same (o.sha256_hex packed) hash))
                  (Err.failure "chunk hash mismatch") s e1).0),
          unpacked-encode o sealing codecs comp read.text handler,
        ),
      )
  encode_read-ok ctx hash comp key read (err e) s handler h = ground arith
  encode_read-ok ctx hash comp key read (panics p) s handler h = ground arith

  -- What `Encode` gives without an error decrypts to bytes whose SHA-256 is the hash of the chunk,
  -- and those decompress to the section of the source, with AES-GCM and the packages that compress
  -- as they document.
  pub encode_chunk-Packed :
      (ctx : Ctx) (hash : Bytes) (offset size : ℕ) (comp : Compression) (key source : Bytes)
      (s : Fs) {out : Bytes} {t : Fs}
      → encode_chunk o ctx hash offset size (some comp) key source s ≡ (ok out, t)
      → (packed : Bytes) × (unlocked o.aead key out ≡ some packed)
        × (o.sha256_hex packed ≡ hash)
        × (unpacked o comp (some packed) ≡ some (take size (drop offset source)))
  unfolding encode_chunk
  encode_chunk-Packed ctx hash offset size comp key source s {out = out} h =
      let text = take size (drop offset source) in
      bind-ok (ctx_err ctx 0) _ s h λ _ s1 e1 h1.
        bind-ok (lift (get_handler comp.comp_type)) _ s1 h1 λ _ s2 e2 h2.
          bind-ok
            (wrapping "create compression encoder"
              (lift (new_writer o.packages comp.comp_type comp.level)))
            _ s2 h2
            λ _ s3 e3 h3.
              let r = read_all ctx 1 text s3 in
              let (all, packed) =
                encode_read-ok ctx hash comp key r.0 r.0.outcome r.1 (ap (λ z. z.0) e2) h3 in
              subst (λ z. Packed hash comp key z out) ((read_all_lem ctx 1 text s3).1 all) packed
