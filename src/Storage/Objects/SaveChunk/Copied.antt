-- ===== src/Storage/Objects/SaveChunk/Copied.antt =====
-- What the encoders of `SaveChunk` in internal/infra/disk/object_repository.go wrote when it succeeded.
use stowmark.Base.{
  suc, Bytes, ◌≡◌, ◌≢◌, refl, sym, ap, ap₂, subst, ◌∙◌, Option, none, some, [], ◌∷◌, ◌++◌, length,
  Result, ok, err, panics, arith,
}
use stowmark.Base.Exec.{Exec, Ctx, ◌>>◌, bind-ok, wrapping, wrapping-ok, lift}
use stowmark.Cipher.{IsAead, new_encoder, plain}
use stowmark.Cipher.Stream.{append_nil}
use stowmark.Cipher.Laws.{write-ok, content-put, finish-ok, plain-seal}
use stowmark.Codec.{Encoded, AreCodecs, encode, new_writer, get_handler}
use stowmark.Codec.Laws.{decode-encode}
use stowmark.Repository.Compression.{Compression, CompressionType, other}
use stowmark.Storage.Files.{Fs, content, write, close}
use stowmark.Storage.Files.Keeps.{Keeps-wrapping, Keeps-close}
use stowmark.Storage.Objects.{Setting}
use stowmark.Storage.Objects.Reads.{Read, read_all, Kept-reads, read_all_lem}
use stowmark.Storage.Objects.Rekeyed.Steps.{encoder-ok}
use stowmark.Storage.Objects.Save.{emit, start_encryption, close_encryption, writer_or_close}
use stowmark.Storage.Objects.SaveChunk.{after_copy, sum_up, copy_chunk, write_chunk}
use stowmark.Storage.Objects.Restore.Texts.{unlocked, unpacked, readable, object_text, everywhere}

pub emit-ok :
    (path b : Bytes) (s : Fs) {x : Unit {0}} {t : Fs}
    → emit path [] b s ≡ (ok x, t)
    → content path t.files ≡ content path s.files ++ b
emit-ok path [] s h =
    ap (λ z. content path z.1.files) (sym h) ∙ sym (append_nil (content path s.files))
emit-ok path (y ∷ b) s h = bind-ok (write path (y ∷ b)) _ s h λ n u e1 e2.
    ap (λ z. content path z.1.files) (sym e2)
    ∙ ap (content path) (write-ok path (y ∷ b) s e1).1
    ∙ content-put path (content path s.files ++ y ∷ b) s.files

module _ (o : Setting) (sealing : IsAead o.aead) (codecs : AreCodecs o.packages) where
  -- A file that is created empty, and then given what the encoders pass on, holds the text.
  abbrev pub Holds : Compression → Bytes → Bytes → Bytes → Fs → Type 0
  Holds comp key path text t = object_text o comp key (some (content path t.files)) ≡ some text

  named : (t : CompressionType) → get_handler t ≡ ok tt → (s : Bytes) → t ≢ other s
  unfolding get_handler
  named (other x) h s e = ground arith
  named t h s e = cc

  pub unpacked-encode :
      (comp : Compression) (text : Bytes)
      → get_handler comp.comp_type ≡ ok tt
      → let e = encode o.packages comp.comp_type comp.level text in
        unpacked o comp (some (e.body ++ e.tail)) ≡ some text
  unpacked-encode comp text handler =
      let e = encode o.packages comp.comp_type comp.level text in
      let (made, back) =
        decode-encode o.packages codecs comp.comp_type comp.level text
          (named comp.comp_type handler) in
      ap₂ readable made back

  abbrev KeyFits : Bytes → Type 0
  KeyFits [] = Unit
  KeyFits (k ∷ key) = length (k ∷ key) ≡ 32

  started :
      (key : Bytes) (s : Fs) {x : Unit {0}} {t : Fs}
      → start_encryption o key s ≡ (ok x, t)
      → KeyFits key × (s ≡ t)
  started [] s h = (tt, ap (λ z. z.1) h)
  started (k ∷ key) s h =
      encoder-ok o.aead (k ∷ key) s
        (wrapping-ok "create encryption writer" (new_encoder o.aead (k ∷ key)) s h)

  pub writer-ok :
      (path key : Bytes) (r : Result (Unit {0})) (s : Fs) {x : Unit {0}} {t : Fs}
      → writer_or_close o path key r s ≡ (ok x, t)
      → s ≡ t
  writer-ok path key (ok y) s h = ap (λ z. z.1) h
  writer-ok path key (err e) s h = ground arith
  writer-ok path key (panics p) s h = ground arith

  sum-ok : (a b : Result (Unit {0})) → sum_up o a b ≡ ok tt → (a ≡ ok tt) × (b ≡ ok tt)
  sum-ok (ok x) b h = (refl, h)
  sum-ok (err e) b h = cc
  sum-ok (panics p) b h = cc

  abbrev closers : Bytes → Bytes → Encoded → Exec Fs (Unit {0})
  closers path key e =
      wrapping "finish chunk compression" (emit path key e.tail)
      >> (wrapping "finish chunk encryption" (close_encryption o path key (e.body ++ e.tail))
          >> wrapping "close object" close)

  after_copy-ok :
      (path key : Bytes) (e : Encoded) (r : Result (Unit {0})) (s : Fs) {x : Unit {0}} {t : Fs}
      → after_copy o path key e r s ≡ (ok x, t)
      → (r ≡ ok tt) × (closers path key e s ≡ (ok x, t))
  after_copy-ok path key e (ok _) s h = (refl, h)
  after_copy-ok path key e (err y) s h = ground arith
  after_copy-ok path key e (panics p) s h = ground arith

  -- What the encoders passed on opens to what they were given.
  opens :
      (path key body tail : Bytes) (s s1 s2 s3 : Fs)
      → KeyFits key
      → content path s.files ≡ []
      → emit path key body s ≡ (ok tt, s1)
      → emit path key tail s1 ≡ (ok tt, s2)
      → close_encryption o path key (body ++ tail) s2 ≡ (ok tt, s3)
      → unlocked o.aead key (content path s3.files) ≡ some (body ++ tail)
  opens path [] body tail s s1 s2 s3 fits empty a b c =
      ap (λ z. some (content path z.1.files)) (sym c)
      ∙ ap some (
          emit-ok path tail s1 b
          ∙ ap (λ z. z ++ tail) (emit-ok path body s a ∙ ap (λ z. z ++ body) empty))
  opens path (k ∷ key) body tail s s1 s2 s3 fits empty a b c =
      let (nonce, size, written) = finish-ok o.aead sealing path (k ∷ key) (body ++ tail) s2 c in
      let start : content path s2.files ≡ [] =
        ap (λ z. content path z.1.files) (sym b)
        ∙ ap (λ z. content path z.1.files) (sym a)
        ∙ empty in
      ap (plain o.aead (k ∷ key))
        (written ∙ ap (λ z. z ++ (nonce ++ o.aead.seal (k ∷ key) nonce (body ++ tail))) start)
      ∙ plain-seal o.aead sealing (k ∷ key) nonce (body ++ tail) fits size

  abbrev held : Option Bytes → Bytes
  held none = []
  held (some c) = c

  copied :
      (path key : Bytes) (comp : Compression) (read : Read) (s : Fs) {x : Unit {0}} {t : Fs}
      → KeyFits key
      → get_handler comp.comp_type ≡ ok tt
      → content path s.files ≡ []
      → copy_chunk o path key comp read s ≡ (ok x, t)
      → (read.outcome ≡ ok tt) × Holds comp key path read.text t
  unfolding everywhere
  copied path key comp read s {x = x} {t = t} fits handler empty h =
      let e = encode o.packages comp.comp_type comp.level read.text in
      let m = emit path key e.body s in
      let (sum, rest) = after_copy-ok path key e (sum_up o m.0 read.outcome) m.1 h in
      let (first, all) = sum-ok m.0 read.outcome sum in
      bind-ok (wrapping "finish chunk compression" (emit path key e.tail)) _ m.1 rest λ _ s2 e2 h2.
        bind-ok
          (wrapping "finish chunk encryption" (close_encryption o path key (e.body ++ e.tail))) _ s2
          h2
          λ _ s3 e3 h3.
            let clear =
              opens path key e.body e.tail s m.1 s2 s3 fits empty (ap (λ r. (r, m.1)) first)
                (wrapping-ok "finish chunk compression" (emit path key e.tail) m.1 e2)
                (wrapping-ok "finish chunk encryption"
                  (close_encryption o path key (e.body ++ e.tail)) s2 e3) in
            let end : content path t.files ≡ content path s3.files =
              ap (λ z. content path z.1.files) (sym h3)
              ∙ ap held (
                  (Keeps-wrapping everywhere "close object" _ (Keeps-close everywhere)).at s3 path
                    refl) in
            (
              all,
              ap (λ z. unpacked o comp (unlocked o.aead key z)) end
                  ∙ ap (unpacked o comp) clear
                  ∙ unpacked-encode comp read.text handler,
            )

  pub written :
      (ctx : Ctx) (path key : Bytes) (section : Fs → Bytes) (comp : Compression) (s : Fs)
      {x : Unit {0}} {t : Fs}
      → content path s.files ≡ []
      → write_chunk o ctx path key section (some comp) s ≡ (ok x, t)
      → Holds comp key path (section s) t
  unfolding write_chunk everywhere
  written ctx path key section comp s {t = t} empty h =
      bind-ok (lift (get_handler comp.comp_type)) _ s h λ _ s1 e1 h1.
        bind-ok (start_encryption o key) _ s1 h1 λ _ s2 e2 h2.
          bind-ok (writer_or_close o path key (new_writer o.packages comp.comp_type comp.level)) _
            s2 h2
            λ _ s3 e3 h3.
              let (fits, same2) = started key s1 e2 in
              let text = section s3 in
              let r = read_all ctx 1 text s3 in
              let unmoved : s3 ≡ s = sym (
                ap (λ z. z.1) e1
                ∙ same2
                ∙ writer-ok path key (new_writer o.packages comp.comp_type comp.level) s2 e3) in
              let start : content path r.1.files ≡ [] =
                ap held (Kept-reads everywhere (suc (length text)) ctx 1 text s3 path refl)
                ∙ ap (λ z. content path z.files) unmoved
                ∙ empty in
              let (all, holds) = copied path key comp r.0 r.1 fits (ap (λ z. z.0) e1) start h3 in
              subst (λ z. Holds comp key path (section z) t) unmoved
                (subst (λ z. Holds comp key path z t) ((read_all_lem ctx 1 text s3).1 all) holds)
