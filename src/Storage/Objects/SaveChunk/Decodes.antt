-- ===== src/Storage/Objects/SaveChunk/Decodes.antt =====
-- What a successful `SaveChunk` of internal/infra/disk/object_repository.go leaves.
use stowmark.Base.{
  ℕ, Bytes, ◌≡◌, refl, sym, ap, ◌∙◌, subst, same, same_refl, same→eq, Bool, true, false, ◌||◌, ltb,
  lt64, le64, sub64, lookup, Bool-cases, inl, inr, Option, none, some, [], length, take, drop, Err,
  Result, ok, err, panics, if◌then◌else◌, arith,
}
use stowmark.Base.Exec.{
  not_raised, Exec, Ctx, ◌>>◌, pure, raise, bind-ok, wrapping, wrapping-ok, ctx_err, lift,
}
use stowmark.Cipher.{IsAead}
use stowmark.Codec.{AreCodecs}
use stowmark.Repository.Compression.{Compression}
use stowmark.Storage.Chunking.{FileInfo}
use stowmark.Storage.Files.{Fs, call, content, mkdir_all, open_file, create, close, remove}
use stowmark.Storage.Files.Keeps.{Keeps-after_call, Keeps-close, Keeps-wrapping, Keeps-mkdir_all}
use stowmark.Storage.Files.Laws.{undone-ok}
use stowmark.Storage.Paths.{ObjectsPath}
use stowmark.Storage.Sections.{open_source, checked, close_and_raise}
use stowmark.Storage.Objects.{Setting, location}
use stowmark.Storage.Objects.SaveChunk.{opener, chunk_to, write_chunk, section_of, save_chunk}
use stowmark.Storage.Objects.Restore.Texts.{
  object_text, everywhere, finally-ok, open-ok, create-ok, Apart,
}
use stowmark.Storage.Objects.SaveChunk.Copied.{written}

abbrev held_in : Option Bytes → Bytes
held_in none = []
held_in (some c) = c

abbrev Still : Fs → Fs → Type 0
Still s t = (k : Bytes) → lookup k t.files ≡ lookup k s.files

otherwise :
    {A : Type 0} (b : Bool) (e : Err) (m : Exec Fs A) (s : Fs) {a : A} {t : Fs}
    → (if b then raise e else m) s ≡ (ok a, t)
    → m s ≡ (ok a, t)
otherwise true e m s h = absurd (not_raised h)
otherwise false e m s h = h

closed_or :
    (b : Bool) (e : Err) (text : Bytes) (s : Fs) {a : Bytes} {t : Fs}
    → (if b then close_and_raise opener text e else pure text) s ≡ (ok a, t)
    → (text ≡ a) × (s ≡ t)
closed_or true e text s h = absurd (not_raised h)
closed_or false e text s h = (ap (λ z. text_of z.0) h, ap (λ z. z.1) h)
  where
    text_of : Result Bytes → Bytes
    text_of (ok b) = b
    text_of _ = []

checked-ok :
    (text : Bytes) (offset size : ℕ) (r : Result FileInfo) (s : Fs) {a : Bytes} {t : Fs}
    → checked opener text offset size r s ≡ (ok a, t)
    → (text ≡ a) × (s ≡ t)
checked-ok text offset size (err e) s h = absurd (not_raised h)
checked-ok text offset size (panics p) s h = ground arith
checked-ok text offset size (ok info) s h = elim (Bool-cases info.is_regular) [
  | inl e ↦
      closed_or (lt64 info.size offset || lt64 (sub64 info.size offset) size) _ text s (rw e at h)
  | inr e ↦ absurd (not_raised (rw e at h))
]

-- The file that is opened is read whole.
opened-ok :
    (path hash : Bytes) (offset size : ℕ) (comp : Compression) (s : Fs) {text : Bytes} {t : Fs}
    → open_source opener path hash offset size (some comp) s ≡ (ok text, t)
    → (lookup path s.files ≡ some text) × Still s t
unfolding open_source everywhere
opened-ok path hash offset size comp s h =
    let h1 = otherwise (ltb (length hash) 3) (Err.failure "invalid object hash") _ s h in
    let h2 = otherwise (lt64 offset 0) (Err.failure "invalid chunk offset") _ s h1 in
    let h3 = otherwise (le64 size 0) (Err.failure "invalid chunk size") _ s h2 in
    bind-ok (wrapping "open source file" (open_file path)) _ s h3 λ file u e1 e2.
      let (found, still) = open-ok path s (wrapping-ok "open source file" (open_file path) s e1) in
      let stat : Exec Fs FileInfo =
        call >> pure (record { size = length file; is_regular = true }) in
      let c = checked-ok file offset size (stat u).0 (stat u).1 e2 in
      (
        found ∙ ap some c.0,
        λ k.
            ap (λ z. lookup k z.files) (sym c.1)
            ∙ (Keeps-after_call everywhere (pure (record { size = length file; is_regular = true }))
                  (λ v q f. refl)).at
                u k refl
            ∙ still k,
      )

apart_from : (p q : Bytes) → same q p ≡ false → same p q ≡ false
apart_from p q h = elim (Bool-cases (same p q)) [
  | inl e ↦ absurd (differ h (subst (λ x. same x p ≡ true) (same→eq p q e) (same_refl p)))
  | inr e ↦ e
]
  where
    differ : {b : Bool} → b ≡ false → b ≡ true → ⊥
    differ x y = cc

module _ (o : Setting) (sealing : IsAead o.aead) (codecs : AreCodecs o.packages) where
  -- If `SaveChunk` of a file that is not the object itself returns no error, then with AES-GCM and the
  -- compression packages as they document,
  -- the object that it saved, decrypted and decompressed, is the section of the source file.
  pub save_chunk-object_text :
      (ctx : Ctx) (file_path hash : Bytes) (offset size : ℕ) (comp : Compression) (key : Bytes)
      (g : ℕ) (s : Fs) {t : Fs}
      → Apart file_path (location o hash g key false)
      → save_chunk o ctx file_path hash offset size (some comp) key g s ≡ (ok tt, t)
      → (text : Bytes) × (lookup file_path s.files ≡ some text)
        × (dest : ObjectsPath) × (location o hash g key false ≡ ok dest)
        × (object_text o comp key (some (content dest.object_path t.files))
            ≡ some (take size (drop offset text)))
  unfolding save_chunk everywhere
  save_chunk-object_text ctx file_path hash offset size comp key g s {t = t} apart h =
      bind-ok (ctx_err ctx 0) _ s h λ _ s1 e1 h1.
        bind-ok (open_source opener file_path hash offset size (some comp)) _ s1 h1 λ text s2 e2 h2.
          let (found, still2) = opened-ok file_path hash offset size comp s1 e2 in
          let (u, m, still_u) =
            finally-ok (chunk_to o ctx hash file_path offset size (some comp) key g) s2 h2 in
          bind-ok (lift (location o hash g key false)) _ s2 m λ dest s3 e3 h3.
            bind-ok (wrapping "create object directory" (mkdir_all dest.directory_path)) _ s3 h3
              λ _ s4 e4 h4.
                bind-ok (wrapping "create object" (create dest.object_path)) _ s4 h4 λ _ s5 e5 h5.
                  let path = dest.object_path in
                  let section = section_of o file_path offset size in
                  let run = write_chunk o ctx path key section (some comp) in
                  let (empty, others) =
                    create-ok path s4 (wrapping-ok "create object" (create path) s4 e5) in
                  let d =
                    undone-ok (remove dest.directory_path) (run s5).0 (close (run s5).1).1 h5 in
                  let other : same path file_path ≡ false =
                    apart_from path file_path
                      (subst (λ r. Apart file_path r) (ap (λ z. z.0) e3) apart) in
                  let same_text : content file_path s5.files ≡ text = ap held_in (
                    others file_path other
                    ∙ ap (λ z. lookup file_path z.1.files) (sym e4)
                    ∙ (Keeps-wrapping everywhere "create object directory" _
                          (Keeps-mkdir_all everywhere dest.directory_path)).at
                        s3 file_path refl
                    ∙ ap (λ z. lookup file_path z.1.files) (sym e3)
                    ∙ still2 file_path
                    ∙ found) in
                  let holds =
                    subst
                      (λ b.
                        object_text o comp key (some (content path (run s5).1.files))
                        ≡ some (take size (drop offset b)))
                      same_text
                      (written o sealing codecs ctx path key section comp s5 empty
                        (ap (λ r. (r, (run s5).1)) d.0)) in
                  let end : content path t.files ≡ content path (run s5).1.files =
                    ap held_in (still_u path)
                    ∙ ap (λ z. content path z.files) (sym d.1)
                    ∙ ap held_in ((Keeps-close everywhere).at (run s5).1 path refl) in
                  (
                    text,
                    ap (λ z. lookup file_path z.1.files) e1 ∙ found,
                    dest,
                    ap (λ z. z.0) e3,
                    ap (λ z. object_text o comp key (some z)) end ∙ holds,
                  )
