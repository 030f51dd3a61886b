-- ===== src/Storage/Objects/Rekeyed/Saved.antt =====
-- What a successful `SaveRekeyedObject` of internal/infra/disk/object_repository.go leaves.
use stowmark.Base.{
  ℕ, Bytes, ◌≡◌, refl, sym, ap, ap₂, ◌∙◌, Bool, true, false, not, ltb, same, same_refl, same→eq,
  lookup, Bool-cases, inl, inr, Option, none, some, List, [], ◌++◌, Err, ok, length, if◌then◌else◌,
  arith,
}
use stowmark.Base.Exec.{Ctx, bind-ok, wrapping, wrapping-ok, ctx_err}
use stowmark.Cipher.{IsAead, new_encoder, finish, plain}
use stowmark.Cipher.Laws.{finish-ok, plain-seal, Keeps-finish}
use stowmark.Storage.Files.{Fs, content, mkdir_all, create_excl, close, sync, rename}
use stowmark.Storage.Files.Keeps.{Keeps-close, Keeps-sync, Keeps-mkdir_all, Keeps-wrapping}
use stowmark.Storage.Files.Laws.{undone-ok}
use stowmark.Storage.Objects.{Setting, object_path, refuse_if, is_empty, invalid_hash, key_required}
use stowmark.Storage.Objects.Rekeyed.{
  save_rekeyed_object, committed, directory_path, temp_path, discard,
}
use stowmark.Storage.Objects.Rekeyed.Steps.{
  Still, everywhere, still, refuse-ok, encoder-ok, create_excl-ok, rename-ok,
}

not-same : (p k : Bytes) → same p k ≡ false → not (same p k) ≡ true
not-same p k e = rw e refl

-- What a file holds, by what is looked up.
content-some :
    (p : Bytes) (m : List (Bytes × Bytes)) {c : Bytes} → lookup p m ≡ some c → content p m ≡ c
content-some p m e = ap (λ (z : Option Bytes). elim z [ none ↦ [] | some c ↦ c ]) e

module _ (o : Setting) (law : IsAead o.aead) where
  abbrev Moved : Bytes → Bytes → Bytes → Bytes → Fs → Fs → Type 0
  Moved key source temp path s t =
      (c : Bytes) × (plain o.aead key c ≡ some source)
      × ((k : Bytes)
          → lookup k t.files
            ≡ (if same path k then some c else (if same temp k then none else lookup k s.files)))

  committed-ok :
      (ctx : Ctx) (hash source key temp : Bytes) (g : ℕ) (s : Fs) {x : Unit {0}} {t : Fs}
      → lookup temp s.files ≡ some []
      → committed o ctx hash source g key temp s ≡ (ok x, t)
      → (o.sha256_hex source ≡ hash) × Moved key source temp (object_path o hash g) s t
  unfolding committed everywhere
  committed-ok ctx hash source key temp g s {t = t} empty h =
      bind-ok (wrapping "create encryption encoder" (new_encoder o.aead key)) _ s h λ _ s1 e1 h1.
        bind-ok (wrapping "close encryption encoder" (finish o.aead temp key source)) _ s1 h1
          λ _ s2 e2 h2.
            bind-ok
              (refuse_if (not (same (o.sha256_hex source) hash))
                (Err.failure "rekey object hash mismatch"))
              _ s2 h2
              λ _ s3 e3 h3. bind-ok (ctx_err ctx 1) _ s3 h3 λ _ s4 e4 h4.
                bind-ok (wrapping "sync temporary encrypted object" sync) _ s4 h4 λ _ s5 e5 h5.
                  bind-ok (wrapping "close temporary encrypted object" close) _ s5 h5 λ _ s6 e6 h6.
                    let enc =
                      encoder-ok o.aead key s
                        (wrapping-ok "create encryption encoder" (new_encoder o.aead key) s e1) in
                    let fin =
                      wrapping-ok "close encryption encoder" (finish o.aead temp key source) s1
                        e2 in
                    let (nonce, size, written) = finish-ok o.aead law temp key source s1 fin in
                    let sum =
                      refuse-ok (not (same (o.sha256_hex source) hash))
                        (Err.failure "rekey object hash mismatch") s2 e3 in
                    let moved = rename-ok temp (object_path o hash g) s6 (
                      wrapping-ok "commit rekeyed object" (rename temp (object_path o hash g)) s6
                        h6) in
                    let c = nonce ++ o.aead.seal key nonce source in
                    let after : Still s2 s6 = λ k.
                      still (wrapping "close temporary encrypted object" close)
                        (Keeps-wrapping everywhere _ _ (Keeps-close everywhere)) s5 e6 k
                      ∙ still (wrapping "sync temporary encrypted object" sync)
                          (Keeps-wrapping everywhere _ _ (Keeps-sync everywhere)) s4 e5 k
                      ∙ ap (λ z. lookup k z.1.files) (sym e4)
                      ∙ ap (λ z. lookup k z.files) (sym sum.1) in
                    let held : moved.0 ≡ c =
                      sym (content-some temp s6.files moved.1)
                      ∙ ap (λ (z : Option Bytes). elim z [ none ↦ [] | some d ↦ d ]) (after temp)
                      ∙ written
                      ∙ ap (λ b. b ++ c)
                          (ap (λ z. content temp z.files) (sym enc.1)
                            ∙ content-some temp s.files empty) in
                    let untouched : (k : Bytes)
                        → same temp k ≡ false
                        → lookup k s6.files ≡ lookup k s.files =
                      λ k n.
                        after k
                        ∙ ap (λ z. lookup k z.1.files) (sym fin)
                        ∙ (Keeps-finish o.aead (λ q. not (same temp q)) temp
                              (rw (same_refl temp) refl) key source).at
                            s1 k (not-same temp k n)
                        ∙ ap (λ z. lookup k z.files) (sym enc.1) in
                    (
                      same→eq (o.sha256_hex source) hash
                          (positive (same (o.sha256_hex source) hash) sum.0),
                      (
                        moved.0,
                        ap (plain o.aead key) held
                            ∙ plain-seal o.aead law key nonce source enc.0 size,
                        λ k.
                            moved.2 k
                            ∙ ap (λ z. if same (object_path o hash g) k then some moved.0 else z)
                                (elsewhere k s6 untouched),
                      ),
                    )
    where
      positive : (b : Bool) → not b ≡ false → b ≡ true
      positive b h = ground arith

      elsewhere :
          (k : Bytes) (s6 : Fs)
          → ((k : Bytes) → same temp k ≡ false → lookup k s6.files ≡ lookup k s.files)
          → (if same temp k then none else lookup k s6.files)
            ≡ (if same temp k then none else lookup k s.files)
      elsewhere k s6 u = elim (Bool-cases (same temp k)) [
        | inl e ↦ rw e refl
        | inr e ↦ rw e (u k e)
      ]

  -- If `SaveRekeyedObject` returns no error, the hash is long enough and is the SHA-256 of the
  -- source, the object's file decrypts to the source with the key, and every other path holds what
  -- it held: the temporary file is gone.
  pub save_rekeyed_object-Sealed :
      (ctx : Ctx) (hash source : Bytes) (g : ℕ) (key : Bytes) (s : Fs) {x : Unit {0}} {t : Fs}
      → save_rekeyed_object o ctx hash source g key s ≡ (ok x, t)
      → (ltb (length hash) 3 ≡ false)
        × (o.sha256_hex source ≡ hash)
        × ((c : Bytes) × (plain o.aead key c ≡ some source)
            × ((k : Bytes)
                → lookup k t.files
                  ≡ (if same (object_path o hash g) k then some c else lookup k s.files)))
  unfolding save_rekeyed_object everywhere
  save_rekeyed_object-Sealed ctx hash source g key s h = bind-ok (ctx_err ctx 0) _ s h λ _ s1 e1 h1.
      bind-ok (refuse_if (ltb (length hash) 3) invalid_hash) _ s1 h1 λ _ s2 e2 h2.
        bind-ok (refuse_if (is_empty key) key_required) _ s2 h2 λ _ s3 e3 h3.
          bind-ok
            (wrapping "create encrypted object directory" (mkdir_all (directory_path o hash g))) _
            s3 h3
            λ _ s4 e4 h4.
              let temp = temp_path o hash g s4.draws in
              bind-ok (wrapping "create temporary encrypted object" (create_excl temp)) _ s4 h4
                λ _ s5 e5 h5.
                  let run = committed o ctx hash source g key temp in
                  let u = undone-ok (discard temp) (run s5).0 (run s5).1 h5 in
                  let free =
                    create_excl-ok temp s4
                      (wrapping-ok "create temporary encrypted object" (create_excl temp) s4 e5) in
                  let before : Still s s4 = λ k.
                    still
                      (wrapping "create encrypted object directory"
                        (mkdir_all (directory_path o hash g)))
                      (Keeps-wrapping everywhere _ _
                        (Keeps-mkdir_all everywhere (directory_path o hash g)))
                      s3 e4 k
                    ∙ ap (λ z. lookup k z.files)
                        (sym (refuse-ok (is_empty key) key_required s2 e3).1)
                    ∙ ap (λ z. lookup k z.files)
                        (sym (refuse-ok (ltb (length hash) 3) invalid_hash s1 e2).1)
                    ∙ ap (λ z. lookup k z.1.files) (sym e1) in
                  let done =
                    committed-ok ctx hash source key temp g s5
                      (free.1 temp ∙ rw (same_refl temp) refl) (ap₂ (λ r w. (r, w)) u.0 u.1) in
                  (
                    (refuse-ok (ltb (length hash) 3) invalid_hash s1 e2).0,
                    done.0,
                    (
                      done.1.0,
                      done.1.1,
                      λ k.
                          done.1.2 k
                          ∙ ap (λ z. if same (object_path o hash g) k then some done.1.0 else z)
                              (gone k temp s4 s5 before free.0 free.1),
                    ),
                  )
    where
      gone :
          (k temp : Bytes) (s4 s5 : Fs)
          → Still s s4
          → lookup temp s4.files ≡ none
          → ((k : Bytes) → lookup k s5.files ≡ (if same temp k then some [] else lookup k s4.files))
          → (if same temp k then none else lookup k s5.files) ≡ lookup k s.files
      gone k temp s4 s5 b n f = elim (Bool-cases (same temp k)) [
        | inl e ↦ rw e (sym n ∙ ap (λ z. lookup z s4.files) (same→eq temp k e) ∙ b k)
        | inr e ↦ rw e (f k ∙ rw e (b k))
      ]
