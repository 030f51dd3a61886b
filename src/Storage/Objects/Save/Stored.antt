-- ===== src/Storage/Objects/Save/Stored.antt =====
-- What a successful `Save` of internal/infra/disk/object_repository.go leaves, without a key.
use stowmark.Base.{
  ℕ, Bytes, ◌≡◌, ◌⊎◌, inl, inr, refl, sym, ap, ap₂, subst, ◌∙◌, Bool, true, false, same_refl,
  lookup, Bool-cases, Option, none, some, List, [], ◌∷◌, ◌++◌, Err, Result, ok, err, panics,
  if◌then◌else◌, arith,
}
use stowmark.Base.Exec.{
  Exec, Ctx, ◌>>◌, lift, wrapping, wrapping-ok, bind-ok, not_raised, ctx_err, continue,
}
use stowmark.Cipher.{IsAead}
use stowmark.Codec.{AreCodecs, get_handler, new_writer, encode}
use stowmark.Repository.Compression.{Compression}
use stowmark.Storage.Files.{
  Fs, call, content, mkdir_all, open_file, create_excl, close, remove, is_taken, is_dir, with_files,
  put, Fault, fault, outcome,
}
use stowmark.Storage.Files.Keeps.{Keeps-call, Keeps-close, Keeps-mkdir_all, Keeps-wrapping}
use stowmark.Storage.Files.Laws.{undone-ok}
use stowmark.Storage.Chunking.{finally}
use stowmark.Storage.Paths.{ObjectsPath}
use stowmark.Storage.Objects.{Setting, location}
use stowmark.Storage.Objects.Rekeyed.Steps.{create_excl-ok}
use stowmark.Storage.Objects.Restore.Texts.{object_text, unpacked, finally-ok, open-ok, everywhere}
use stowmark.Storage.Objects.Save.{
  save, save_to, write_object, writer_or_close, emit, is_already_exist,
}
use stowmark.Storage.Objects.SaveChunk.Copied.{emit-ok, writer-ok, unpacked-encode}

abbrev held : Option Bytes → Bytes
held none = []
held (some c) = c

-- Something has the name: a file, or a directory.
abbrev pub IsTaken : Bytes → Fs → Type 0
IsTaken p t = is_taken (is_dir p t) (lookup p t.files) ≡ true

-- A name that is taken is left as it is.
create_excl-err :
    (p : Bytes) (s : Fs) {e : Err} {t : Fs}
    → create_excl p s ≡ (err e, t)
    → is_already_exist e ≡ true
    → ((k : Bytes) → lookup k t.files ≡ lookup k s.files) × IsTaken p t
unfolding create_excl everywhere
create_excl-err p s {t = t} h exists =
    let (same_files, there) = go (fault s).0 (fault s).1 h exists in
    (λ k. same_files k ∙ (Keeps-call everywhere).at s k refl, there)
  where
    never : {A : Type 0} {a : A} {e : Err} → ok a ≡ err e → ⊥
    never h = cc

    code : Result (Unit {0}) → Bool
    code (err e) = is_already_exist e
    code _ = false

    differ : {b : Bool} → b ≡ false → b ≡ true → ⊥
    differ x y = cc

    taken :
        (b : Bool) (u : Fs) {e : Err} {t : Fs}
        → is_taken (is_dir p u) (lookup p u.files) ≡ b
        → ◌≡◌ {A = Result (Unit {0}) × Fs}
            (if b then (err Err.already_exist, u) else (ok tt, with_files (put p []) u))
            (err e, t)
        → ((k : Bytes) → lookup k t.files ≡ lookup k u.files) × IsTaken p t
    taken true u q h =
        (λ k. ap (λ z. lookup k z.1.files) (sym h), subst (IsTaken p) (ap (λ z. z.1) h) q)
    taken false u q h = absurd (never (ap (λ z. z.0) h))

    go :
        (o : Option Fault) (u : Fs) {e : Err} {t : Fs}
        → continue
            (outcome o)
            (λ _ s.
              if is_taken (is_dir p s) (lookup p s.files)
              then (err Err.already_exist, s)
              else (ok tt, with_files (put p []) s))
            u
          ≡ (err e, t)
        → is_already_exist e ≡ true
        → ((k : Bytes) → lookup k t.files ≡ lookup k u.files) × IsTaken p t
    go none u h x = taken (is_taken (is_dir p u) (lookup p u.files)) u refl h
    go (some f) u h x = absurd (differ (ap (λ z. code z.0) (sym h)) x)

-- Closing a file makes and removes no directory.
close_dirs : (p : Bytes) (s : Fs) → is_dir p (close s).1 ≡ is_dir p s
unfolding close
close_dirs p s = go s.trouble refl
  where
    go : (l : List (Option Fault)) → s.trouble ≡ l → is_dir p (call s).1 ≡ is_dir p s
    go [] e = rw e refl
    go (f ∷ l) e = rw e refl

finally_dirs :
    {A : Type 0} (p : Bytes) (m : Exec Fs A) (s : Fs) {a : A} {t : Fs}
    → finally m close s ≡ (ok a, t)
    → is_dir p t ≡ is_dir p (m s).1
finally_dirs p m s h = ap (λ z. is_dir p z.1) (sym h) ∙ close_dirs p (m s).1

module _ (o : Setting) (sealing : IsAead o.aead) (codecs : AreCodecs o.packages) where
  written :
      (path text : Bytes) (comp : Compression) (s : Fs) {x : Unit {0}} {t : Fs}
      → content path s.files ≡ []
      → write_object o path [] text (some comp) s ≡ (ok x, t)
      → object_text o comp [] (some (content path t.files)) ≡ some text
  unfolding write_object everywhere
  written path text comp s {t = t} empty h =
      let e = encode o.packages comp.comp_type comp.level text in
      bind-ok (lift (get_handler comp.comp_type)) _ s h λ _ s1 e1 h1.
        bind-ok (writer_or_close o path [] (new_writer o.packages comp.comp_type comp.level)) _ s1
          h1
          λ _ s2 e2 h2.
            bind-ok (wrapping "copy object" (call >> emit path [] e.body)) _ s2 h2 λ _ s3 e3 h3.
              bind-ok (wrapping "close destination file" (emit path [] e.tail)) _ s3 h3
                λ _ s4 e4 h4.
                  bind-ok call (λ _. emit path [] e.body) s2
                    (wrapping-ok "copy object" (call >> emit path [] e.body) s2 e3)
                    λ _ u e5 h5.
                      let start : content path u.files ≡ [] =
                        ap (λ z. content path z.1.files) (sym e5)
                        ∙ ap held ((Keeps-call everywhere).at s2 path refl)
                        ∙ ap (λ z. content path z.files)
                            (sym (
                              writer-ok o sealing codecs path []
                                (new_writer o.packages comp.comp_type comp.level) s1 e2))
                        ∙ ap (λ z. content path z.1.files) (sym e1)
                        ∙ empty in
                      ap (λ z. unpacked o comp (some z))
                        (ap (λ z. content path z.1.files) (sym h4)
                          ∙ emit-ok path e.tail s3
                              (wrapping-ok "close destination file" (emit path [] e.tail) s3 e4)
                          ∙ ap (λ z. z ++ e.tail)
                              (emit-ok path e.body u h5 ∙ ap (λ z. z ++ e.body) start))
                      ∙ unpacked-encode o sealing codecs comp text (ap (λ z. z.0) e1)

  abbrev Stored : Bytes → Bytes → Compression → Fs → Fs → Type 0
  Stored path text comp s t =
      ((lookup path t.files ≡ lookup path s.files) × IsTaken path t)
      ⊎ (object_text o comp [] (some (content path t.files)) ≡ some text)

  -- After the file was to be created.
  created :
      (dest : ObjectsPath) (text : Bytes) (comp : Compression) (s : Fs) (r : Result (Unit {0}))
      (u : Fs)
      → create_excl dest.object_path s ≡ (r, u)
      → {x : Unit {0}} {t : Fs} → save_to o dest [] text (some comp) r u ≡ (ok x, t)
      → Stored dest.object_path text comp s t
  unfolding everywhere
  created dest text comp s (ok y) u c {t = t} h =
      let path = dest.object_path in
      let run = write_object o path [] text (some comp) in
      let d = undone-ok (remove dest.directory_path) (run u).0 (close (run u).1).1 h in
      let (free, files) = create_excl-ok path s c in
      let new : lookup path u.files ≡ some [] = files path ∙ rw (same_refl path) refl in
      let end : content path t.files ≡ content path (run u).1.files =
        ap (λ z. content path z.files) (sym d.1)
        ∙ ap held ((Keeps-close everywhere).at (run u).1 path refl) in
      inr (
        ap (λ z. object_text o comp [] (some z)) end
        ∙ written path text comp u (ap held new) (ap (λ r. (r, (run u).1)) d.0))
  created dest text comp s (err e) u c {t = t} h = elim (Bool-cases (is_already_exist e)) [
    | inl f ↦
        let (kept, there) = create_excl-err dest.object_path s c f in
        let end : u ≡ t = ap (λ z. z.1) (rw f at h) in
        inl (
          ap (λ z. lookup dest.object_path z.files) (sym end) ∙ kept dest.object_path,
          subst (IsTaken dest.object_path) end there,
        )
    | inr f ↦ absurd (not_raised (rw f at h))
  ]
  created dest text comp s (panics p) u c h = ground arith

  -- If `Save` without a key returns no error, then either the object's name is taken, by a file that
  -- is as it was or by a directory, or the object that it saved, decompressed, is the source file.
  pub save-object_text :
      (ctx : Ctx) (file_path hash : Bytes) (comp : Compression) (g : ℕ) (s : Fs) {t : Fs}
      → save o ctx file_path hash (some comp) [] g s ≡ (ok tt, t)
      → (text : Bytes) × (lookup file_path s.files ≡ some text)
        × (dest : ObjectsPath) × (location o hash g [] false ≡ ok dest)
        × (((lookup dest.object_path t.files ≡ lookup dest.object_path s.files)
              × IsTaken dest.object_path t)
            ⊎ (object_text o comp [] (some (content dest.object_path t.files)) ≡ some text))
  unfolding save everywhere
  save-object_text ctx file_path hash comp g s {t = t} h =
      bind-ok (ctx_err ctx 0) _ s h λ _ s1 e1 h1.
        bind-ok (lift (location o hash g [] false)) _ s1 h1 λ dest s2 e2 h2.
          bind-ok (wrapping "create object directory" (mkdir_all dest.directory_path)) _ s2 h2
            λ _ s3 e3 h3.
              bind-ok (wrapping "open source file" (open_file file_path)) _ s3 h3 λ text s4 e4 h4.
                let path = dest.object_path in
                let (found, still) =
                  open-ok file_path s3
                    (wrapping-ok "open source file" (open_file file_path) s3 e4) in
                let run : Exec Fs (Unit {0}) = λ v.
                  save_to o dest [] text (some comp) (create_excl path v).0
                    (create_excl path v).1 in
                let (u, m, end) = finally-ok run s4 h4 in
                let before : (k : Bytes) → lookup k s3.files ≡ lookup k s.files = λ k.
                  ap (λ z. lookup k z.1.files) (sym e3)
                  ∙ (Keeps-wrapping everywhere "create object directory" _
                        (Keeps-mkdir_all everywhere dest.directory_path)).at
                      s2 k refl
                  ∙ ap (λ z. lookup k z.1.files) (sym e2)
                  ∙ ap (λ z. lookup k z.1.files) (sym e1) in
                (
                  text,
                  sym (before file_path) ∙ found,
                  dest,
                  ap (λ z. z.0) e2,
                  moved path text s s4 u t (still path ∙ before path) (end path)
                      (finally_dirs path run s4 h4 ∙ ap (λ z. is_dir path z.1) m)
                      (created dest text comp s4 (create_excl path s4).0 (create_excl path s4).1
                        refl m),
                )
    where
      moved :
          (path text : Bytes) (s s4 u t : Fs)
          → lookup path s4.files ≡ lookup path s.files
          → lookup path t.files ≡ lookup path u.files
          → is_dir path t ≡ is_dir path u
          → Stored path text comp s4 u
          → Stored path text comp s t
      moved path text s s4 u t a b d (inl (e, k)) = inl (b ∙ e ∙ a, ap₂ is_taken d b ∙ k)
      moved path text s s4 u t a b d (inr e) =
          inr (ap (λ z. object_text o comp [] (some (held z))) b ∙ e)
