-- ===== src/Storage/Objects/Restore/Assembled.antt =====
-- What a successful `RestoreObject` of internal/infra/disk/object_repository.go leaves.
use stowmark.Base.{
  ℕ, suc, ==_iff, ◌+◌, ◌%◌, word_size, length-append, Bytes, ◌≡◌, refl, sym, ap, ap₂, subst, ◌∙◌,
  false, ◌==◌, same, lookup, All, Bool-cases, inl, inr, add64, Option, none, some, List, [], ◌∷◌,
  ◌++◌, length, Err, Result, ok, err, panics, if◌then◌else◌, arith,
}
use stowmark.Base.Exec.{not_raised, Ctx, pure, raise, bind-ok, wrapping, wrapping-ok, ctx_err, lift}
use stowmark.Cipher.Stream.{append_assoc, append_nil}
use stowmark.Codec
use stowmark.Codec.{Decoded, new_reader, get_handler}
use stowmark.Repository.Compression.{Compression}
use stowmark.Snapshot.Model.{File}
use stowmark.Storage.Files.{Fs, content, mkdir_all, open_file, create}
use stowmark.Storage.Files.Keeps.{Keeps-wrapping, Keeps-close, Keeps-mkdir_all}
use stowmark.Storage.Files.Laws.{undone-ok}
use stowmark.Storage.Hashes.{object_hashes}
use stowmark.Storage.Paths.{ObjectsPath}
use stowmark.Storage.Objects.{Setting, location}
use stowmark.Storage.Objects.Restore.{
  decrypted, copy_part, decode_part, restore_object_part, restore_parts, restore_content,
  restore_object, give_up, Written,
}
use stowmark.Storage.Objects.Restore.Texts.{
  whole, readable, unpacked, object_text, at_location, joined, assembled, Apart, everywhere,
  finally-ok, open-ok, create-ok, decrypted-ok, copy_part-ok,
}

abbrev held : Option Bytes → Bytes
held none = []
held (some c) = c

module _ (o : Setting) (comp : Compression) (key : Bytes) (g : ℕ) where
  reader-ok :
      (r : Result (Unit {0})) (d : Decoded)
      → r ≡ ok tt
      → d.error ≡ none
      → readable r d ≡ some d.text
  reader-ok (ok _) d e f = ap (whole d.text) f
  reader-ok (err x) d e f = cc
  reader-ok (panics x) d e f = cc

  part-ok :
      (ctx : Ctx) (n : ℕ) (hash path : Bytes) (s : Fs) {w : Written} {t : Fs}
      → Apart path (location o hash g key false)
      → restore_object_part o ctx n comp hash path key g s ≡ (ok w, t)
      → (text : Bytes) × (object_text o comp key (at_location (location o hash g key false) s)
          ≡ some text)
        × (content path t.files ≡ content path s.files ++ text)
        × ((k : Bytes) → same path k ≡ false → lookup k t.files ≡ lookup k s.files)
        × (w.0 ≡ length text)
  unfolding restore_object_part decode_part
  part-ok ctx n hash path s apart h = bind-ok (ctx_err ctx n) _ s h λ _ s1 e1 h1.
      bind-ok (lift (location o hash g key false)) _ s1 h1 λ dest s2 e2 h2.
        bind-ok (wrapping "open object" (open_file dest.object_path)) _ s2 h2 λ source s3 e3 h3.
          let at : location o hash g key false ≡ ok dest = ap (λ z. z.0) e2 in
          let (found, still3) =
            open-ok dest.object_path s2
              (wrapping-ok "open object" (open_file dest.object_path) s2 e3) in
          let (s4, m, still4) = finally-ok (decode_part o ctx (suc n) comp path key source) s3 h3 in
          bind-ok (decrypted o key source) _ s3 m λ c s5 e5 h5.
            bind-ok (lift (get_handler comp.comp_type)) _ s5 h5 λ _ s6 e6 h6.
              bind-ok (wrapping "decode object" (lift (new_reader o.packages comp.comp_type c))) _
                s6 h6
                λ _ s7 e7 h7.
                  let d = Codec.decode o.packages comp.comp_type c in
                  let (clear, still5) = decrypted-ok o key source s3 e5 in
                  let reader =
                    ap (λ z. z.0)
                      (wrapping-ok "decode object" (lift (new_reader o.packages comp.comp_type c))
                        s6 e7) in
                  let (no_error, written, others, size) =
                    copy_part-ok o ctx (suc n) path d s7
                      (wrapping-ok "read decoded object" (copy_part o ctx (suc n) path d) s7 h7) in
                  let begin : (k : Bytes) → lookup k s2.files ≡ lookup k s.files = λ k.
                    ap (λ z. lookup k z.1.files) (sym e2) ∙ ap (λ z. lookup k z.1.files) (sym e1) in
                  let middle : (k : Bytes) → lookup k s7.files ≡ lookup k s.files = λ k.
                    ap (λ z. lookup k z.1.files) (sym e7)
                    ∙ ap (λ z. lookup k z.1.files) (sym e6)
                    ∙ still5 k
                    ∙ still3 k
                    ∙ begin k in
                  (
                    d.text,
                    ap (λ l. object_text o comp key (at_location l s)) at
                        ∙ ap (object_text o comp key) (sym (begin dest.object_path) ∙ found)
                        ∙ ap (unpacked o comp) clear
                        ∙ reader-ok (new_reader o.packages comp.comp_type c) d reader no_error,
                    ap held (still4 path) ∙ written ∙ ap (λ z. held z ++ d.text) (middle path),
                    λ k f. still4 k ∙ others k f ∙ middle k,
                    size,
                  )

  -- What a change of the destination does not change.
  location-kept :
      (path : Bytes) (l : Result ObjectsPath) (s t : Fs)
      → Apart path l
      → ((k : Bytes) → same path k ≡ false → lookup k t.files ≡ lookup k s.files)
      → at_location l t ≡ at_location l s
  location-kept path (ok p) s t a q = q p.object_path a
  location-kept path (err e) s t a q = refl
  location-kept path (panics e) s t a q = refl

  abbrev pub AllApart : Bytes → List Bytes → Type 0
  AllApart path hashes = All (λ hash. Apart path (location o hash g key false)) hashes

  assembled-kept :
      (path : Bytes) (hashes : List Bytes) (s t : Fs)
      → AllApart path hashes
      → ((k : Bytes) → same path k ≡ false → lookup k t.files ≡ lookup k s.files)
      → assembled o comp key g t hashes ≡ assembled o comp key g s hashes
  assembled-kept path [] s t a q = refl
  assembled-kept path (hash ∷ hashes) s t a q =
      ap₂ joined
        (ap (object_text o comp key) (location-kept path (location o hash g key false) s t a.0 q))
        (assembled-kept path hashes s t a.1 q)

  amount : Result ℕ → ℕ
  amount (ok n) = n
  amount _ = 0

  sum_of :
      (m size w l : ℕ)
      → m % word_size ≡ (add64 size w + l) % word_size
      → m % word_size ≡ (size + (w + l)) % word_size
  sum_of m size w l e = omega (arith, e)

  parts-ok :
      (ctx : Ctx) (n : ℕ) (path : Bytes) (size : ℕ) (hashes : List Bytes) (s : Fs) {m : ℕ} {t : Fs}
      → AllApart path hashes
      → restore_parts o ctx n comp path key g size hashes s ≡ (ok m, t)
      → (text : Bytes) × (assembled o comp key g s hashes ≡ some text)
        × (content path t.files ≡ content path s.files ++ text)
        × (m % word_size ≡ (size + length text) % word_size)
  unfolding restore_parts amount
  parts-ok ctx n path size [] s apart h = (
    [],
    refl,
    ap (λ z. content path z.1.files) (sym h) ∙ sym (append_nil (content path s.files)),
    ap (λ z. amount z.0 % word_size) (sym h) ∙ ap (λ z. z % word_size) (omega arith),
  )
  parts-ok ctx n path size (hash ∷ hashes) s {m = m} apart h =
      bind-ok (ctx_err ctx n) _ s h λ _ s1 e1 h1.
        bind-ok (wrapping "restore part" (restore_object_part o ctx (suc n) comp hash path key g)) _
          s1 h1
          λ w s2 e2 h2.
            let (a, here, written, others, size_a) = part-ok ctx (suc n) hash path s1 apart.0 (
              wrapping-ok "restore part" (restore_object_part o ctx (suc n) comp hash path key g) s1
                e2) in
            let (b, rest, written_b, sum) =
              parts-ok ctx w.1 path (add64 size w.0) hashes s2 apart.1 h2 in
            let same_start : s ≡ s1 = ap (λ z. z.1) e1 in
            (
              a ++ b,
              ap₂ joined
                  (ap (λ z. object_text o comp key (at_location (location o hash g key false) z))
                      same_start
                    ∙ here)
                  (ap (λ z. assembled o comp key g z hashes) same_start
                    ∙ sym (assembled-kept path hashes s1 s2 apart.1 others)
                    ∙ rest),
              written_b
                  ∙ ap (λ z. z ++ b) written
                  ∙ append_assoc (content path s1.files) a b
                  ∙ ap (λ z. content path z.files ++ (a ++ b)) (sym same_start),
              sum_of m size w.0 (length b) sum
                  ∙ ap (λ z. (size + (z + length b)) % word_size) size_a
                  ∙ ap (λ z. (size + z) % word_size) (sym (length-append a b)),
            )

  size-ok :
      (m size : ℕ) (s : Fs) {x : Unit {0}} {t : Fs}
      → (if m == size then pure tt else raise (Err.failure "restored size mismatch")) s ≡ (ok x, t)
      → (m ≡ size) × (s ≡ t)
  size-ok m size s h = elim (Bool-cases (m == size)) [
    | inl e ↦ ((==_iff m size).0 e, ap (λ z. z.1) (rw e at h))
    | inr e ↦ absurd (not_raised (rw e at h))
  ]

  -- If `RestoreObject` of a file that is none of its objects returns no error, the file's objects can
  -- all be decrypted and decompressed, the restored file is their texts one after the other, and its
  -- length is the file's size, as far as 64 bits tell.
  pub restore_object-Assembled :
      (ctx : Ctx) (file : File) (hashes : List Bytes) (s : Fs) {t : Fs}
      → object_hashes file ≡ ok hashes
      → AllApart file.path hashes
      → restore_object o ctx (some comp) file key g s ≡ (ok tt, t)
      → (text : Bytes) × (assembled o comp key g s hashes ≡ some text)
        × (content file.path t.files ≡ text)
        × (file.size % word_size ≡ length text % word_size)
  unfolding restore_object restore_content everywhere
  restore_object-Assembled ctx file hashes s listed apart h =
      bind-ok (ctx_err ctx 0) _ s h λ _ s1 e1 h1.
        bind-ok (lift (object_hashes file)) _ s1 h1 λ hs s2 e2 h2.
          bind-ok (wrapping "create destination directory" (mkdir_all (o.dir file.path))) _ s2 h2
            λ _ s3 e3 h3.
              bind-ok (wrapping "create restored file" (create file.path)) _ s3 h3 λ _ s4 e4 h4.
                let hs_eq : hashes ≡ hs = same_list (sym listed ∙ ap (λ z. z.0) e2) in
                let run = restore_content o ctx comp file hs key g in
                let d = undone-ok (give_up o file.path) (run s4).0 (run s4).1 h4 in
                let done = ap₂ (λ r u. (r, u)) d.0 d.1 in
                let (empty, others) =
                  create-ok file.path s3
                    (wrapping-ok "create restored file" (create file.path) s3 e4) in
                let begin : (k : Bytes) → lookup k s3.files ≡ lookup k s.files = λ k.
                  ap (λ z. lookup k z.1.files) (sym e3)
                  ∙ (Keeps-wrapping everywhere "create destination directory" _
                        (Keeps-mkdir_all everywhere (o.dir file.path))).at
                      s2 k refl
                  ∙ ap (λ z. lookup k z.1.files) (sym e2)
                  ∙ ap (λ z. lookup k z.1.files) (sym e1) in
                bind-ok (restore_parts o ctx 1 comp file.path key g 0 hs) _ s4 done λ m s5 e5 h5.
                  bind-ok
                    (λ u.
                      (if m == file.size
                          then pure tt
                          else raise (Err.failure "restored size mismatch"))
                        u)
                    _ s5 h5
                    λ _ s6 e6 h6.
                      let apart' = subst (AllApart file.path) hs_eq apart in
                      let (text, from, written, sum) = parts-ok ctx 1 file.path 0 hs s4 apart' e5 in
                      let (size, same_state) = size-ok m file.size s5 e6 in
                      (
                        text,
                        ap (assembled o comp key g s) hs_eq
                            ∙ sym (
                                assembled-kept file.path hs s s4 apart'
                                  (λ k n. others k n ∙ begin k))
                            ∙ from,
                        ap (λ z. content file.path z.1.files) (sym h6)
                            ∙ ap held (
                                (Keeps-wrapping everywhere "close restored file" _
                                    (Keeps-close everywhere)).at
                                  s6 file.path refl)
                            ∙ ap (λ z. content file.path z.files) (sym same_state)
                            ∙ written
                            ∙ ap (λ z. z ++ text) empty,
                        ap (λ z. z % word_size) (sym size)
                            ∙ sum
                            ∙ ap (λ z. z % word_size) (plus_zero (length text)),
                      )
    where
      plus_zero : (n : ℕ) → 0 + n ≡ n
      plus_zero n = omega arith

      same_list : {xs ys : List Bytes} → ok xs ≡ ok ys → xs ≡ ys
      same_list h = cc
