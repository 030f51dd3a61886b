-- ===== src/Storage/Objects/Restore/Texts.antt =====
-- The text of an object and of a file, and what a successful copy to a file leaves, of
-- internal/infra/disk/object_repository.go.
use stowmark.Base.{
  ℕ, suc, Bytes, ◌≡◌, refl, sym, ap, ap₂, ◌∙◌, Bool, true, false, same, lookup, Option, none, some,
  List, [], ◌∷◌, ◌++◌, length, Err, Result, ok, err, panics,
}
use stowmark.Base.Exec.{Exec, Ctx, bind-ok, wrapping-ok, lift}
use stowmark.Cipher
use stowmark.Cipher.{Aead, plain}
use stowmark.Cipher.Stream.{append_nil}
use stowmark.Cipher.Laws.{write-ok, content-put}
use stowmark.Codec
use stowmark.Codec.{Decoded, new_reader, get_handler}
use stowmark.Repository.Compression.{Compression}
use stowmark.Storage.Chunking.{finally}
use stowmark.Storage.Files.{
  Fs, Fault, call, content, open_file, create, changed, fault, put, write, close, untouched,
}
use stowmark.Storage.Files.Keeps.{Keeps-call, Keeps-wrapping, Keeps-close, fault-files}
use stowmark.Storage.Files.Laws.{lookup-put}
use stowmark.Storage.Paths.{ObjectsPath}
use stowmark.Storage.Objects.{Setting, location}
use stowmark.Storage.Objects.Reads.{read_all, Kept-reads, read_all_lem}
use stowmark.Storage.Objects.Restore.{decrypted, copy_ended, write_part, copy_part, Written}
use stowmark.Storage.Objects.Kept.{Keeps-decode}
use stowmark.Storage.Objects.View.{decode-ok, content-ok}

-- What the bytes of an object hold, with a key that may be empty.
abbrev pub unlocked : Aead → Bytes → Bytes → Option Bytes
unlocked aead [] c = some c
unlocked aead (k ∷ key) c = plain aead (k ∷ key) c

abbrev pub whole : Bytes → Option Err → Option Bytes
whole text none = some text
whole text (some e) = none

abbrev pub readable : Result (Unit {0}) → Decoded → Option Bytes
readable (ok _) d = whole d.text d.error
readable _ d = none

abbrev pub unpacked : Setting → Compression → Option Bytes → Option Bytes
unpacked o comp none = none
unpacked o comp (some c) =
    readable (new_reader o.packages comp.comp_type c) (Codec.decode o.packages comp.comp_type c)

-- The text of an object: its bytes, decrypted and decompressed.
abbrev pub object_text : Setting → Compression → Bytes → Option Bytes → Option Bytes
object_text o comp key none = none
object_text o comp key (some c) = unpacked o comp (unlocked o.aead key c)

abbrev pub at_location : Result ObjectsPath → Fs → Option Bytes
at_location (ok p) s = lookup p.object_path s.files
at_location _ s = none

abbrev pub joined : Option Bytes → Option Bytes → Option Bytes
joined (some a) (some b) = some (a ++ b)
joined _ _ = none

-- The texts of the objects of a file, one after the other.
abbrev pub assembled : Setting → Compression → Bytes → ℕ → Fs → List Bytes → Option Bytes
assembled o comp key g s [] = some []
assembled o comp key g s (hash ∷ hashes) =
    joined (object_text o comp key (at_location (location o hash g key false) s))
      (assembled o comp key g s hashes)

-- The file that is restored is none of the objects.
abbrev pub Apart : Bytes → Result ObjectsPath → Type 0
Apart path (ok p) = same path p.object_path ≡ false
Apart path _ = Unit

unfoldable pub everywhere : Bytes → Bool
everywhere k = true

pub finally-ok :
    {A : Type 0} (m : Exec Fs A) (s : Fs) {a : A} {t : Fs}
    → finally m close s ≡ (ok a, t)
    → (u : Fs) × (m s ≡ (ok a, u)) × ((k : Bytes) → lookup k t.files ≡ lookup k u.files)
unfolding everywhere
finally-ok m s h = (
  (m s).1,
  ap (λ z. (z.0, (m s).1)) h,
  λ k. ap (λ z. lookup k z.1.files) (sym h) ∙ (Keeps-close everywhere).at (m s).1 k refl,
)

pub write_part-ok :
    (path text : Bytes) (s : Fs) {x : Unit {0}} {t : Fs}
    → write_part path text s ≡ (ok x, t)
    → (content path t.files ≡ content path s.files ++ text)
      × ((k : Bytes) → same path k ≡ false → lookup k t.files ≡ lookup k s.files)
write_part-ok path [] s h = (
  ap (λ z. content path z.1.files) (sym h) ∙ sym (append_nil (content path s.files)),
  λ k n. ap (λ z. lookup k z.1.files) (sym h),
)
write_part-ok path (b ∷ text) s {t = t} h = bind-ok (write path (b ∷ text)) _ s h λ n u e1 e2.
    let f : t.files ≡ put path (content path s.files ++ b ∷ text) s.files =
      ap (λ z. z.1.files) (sym e2) ∙ (write-ok path (b ∷ text) s e1).1 in
    (
      ap (content path) f ∙ content-put path (content path s.files ++ b ∷ text) s.files,
      λ k n. ap (lookup k) f ∙ lookup-put path _ k s.files ∙ rw n refl,
    )

pub ended-ok :
    (r : Result (Unit {0})) (e : Option Err) {x : Unit {0}}
    → copy_ended r e ≡ ok x
    → (r ≡ ok tt) × (e ≡ none)
ended-ok (ok _) none h = (refl, refl)
ended-ok (ok _) (some e) h = cc
ended-ok (err x) none h = cc
ended-ok (err x) (some e) h = cc
ended-ok (panics x) none h = cc
ended-ok (panics x) (some e) h = cc

pub open-ok :
    (p : Bytes) (s : Fs) {c : Bytes} {t : Fs}
    → open_file p s ≡ (ok c, t)
    → (lookup p s.files ≡ some c) × ((k : Bytes) → lookup k t.files ≡ lookup k s.files)
unfolding open_file everywhere
open-ok p s h = bind-ok call _ s h λ _ u e1 e2.
    let still =
      λ (k : Bytes). ap (λ z. lookup k z.1.files) (sym e1) ∙ (Keeps-call everywhere).at s k refl in
    (
      sym (still p) ∙ content-ok (lookup p u.files) (ap (λ z. z.0) e2),
      λ k. ap (λ z. lookup k z.1.files) (sym e2) ∙ still k,
    )

pub create-ok :
    (path : Bytes) (s : Fs) {x : Unit {0}} {t : Fs}
    → create path s ≡ (ok x, t)
    → (content path t.files ≡ [])
      × ((k : Bytes) → same path k ≡ false → lookup k t.files ≡ lookup k s.files)
unfolding create
create-ok path s h = go (fault s).0 (fault s).1 (fault-files s) h
  where
    failed : {e : Err} {x : Unit {0}} → err e ≡ ok x → ⊥
    failed h = cc

    go :
        (f : Option Fault) (u : Fs)
        → u.files ≡ s.files
        → {x : Unit {0}} {t : Fs} → changed (put path []) untouched f u ≡ (ok x, t)
        → (content path t.files ≡ [])
          × ((k : Bytes) → same path k ≡ false → lookup k t.files ≡ lookup k s.files)
    go none u e h = (
      ap (λ z. content path z.1.files) (sym h) ∙ content-put path [] u.files,
      λ k n.
          ap (λ z. lookup k z.1.files) (sym h)
          ∙ lookup-put path [] k u.files
          ∙ rw n (ap (lookup k) e),
    )
    go (some f) u e h = absurd (failed (ap (λ z. z.0) h))

module _ (o : Setting) where
  pub decrypted-ok :
      (key source : Bytes) (s : Fs) {c : Bytes} {t : Fs}
      → decrypted o key source s ≡ (ok c, t)
      → (unlocked o.aead key source ≡ some c) × ((k : Bytes) → lookup k t.files ≡ lookup k s.files)
  unfolding everywhere
  decrypted-ok [] source s h =
      (ap (λ z. some (text z.0)) h, λ k. ap (λ z. lookup k z.1.files) (sym h))
    where
      text : Result Bytes → Bytes
      text (ok b) = b
      text _ = []
  decrypted-ok (b ∷ key) source s h = (
    decode-ok o (λ _. none) source (b ∷ key) s
        (wrapping-ok "decrypt object" (Cipher.decode o.aead source (b ∷ key)) s h),
    λ k.
        ap (λ z. lookup k z.1.files) (sym h)
        ∙ (Keeps-wrapping everywhere "decrypt object" _
              (Keeps-decode everywhere o.aead source (b ∷ key))).at
            s k refl,
  )

  number : Result Written → ℕ
  number (ok w) = w.0
  number _ = 0

  pub copy_part-ok :
      (ctx : Ctx) (n : ℕ) (path : Bytes) (d : Decoded) (s : Fs) {w : Written} {t : Fs}
      → copy_part o ctx n path d s ≡ (ok w, t)
      → (d.error ≡ none)
        × (content path t.files ≡ content path s.files ++ d.text)
        × ((k : Bytes) → same path k ≡ false → lookup k t.files ≡ lookup k s.files)
        × (w.0 ≡ length d.text)
  unfolding everywhere number
  copy_part-ok ctx n path d s h =
      let (read, u) = read_all ctx n d.text s in
      bind-ok (write_part path read.text) _ u h λ _ v e1 e2.
        bind-ok (lift (copy_ended read.outcome d.error)) _ v e2 λ _ v' e3 e4.
          let (whole_read, no_error) = ended-ok read.outcome d.error (ap (λ z. z.0) e3) in
          let full : read.text ≡ d.text = (read_all_lem ctx n d.text s).1 whole_read in
          let (written, others) = write_part-ok path read.text u e1 in
          let still : (k : Bytes) → lookup k u.files ≡ lookup k s.files =
            λ k. Kept-reads everywhere (suc (length d.text)) ctx n d.text s k refl in
          let end = λ (k : Bytes).
            ap (λ z. lookup k z.1.files) (sym e4) ∙ ap (λ z. lookup k z.1.files) (sym e3) in
          (
            no_error,
            ap (λ z. content path z.1.files) (sym e4)
                ∙ ap (λ z. content path z.1.files) (sym e3)
                ∙ written
                ∙ ap₂ (λ a b. a ++ b)
                    (ap (λ (z : Option Bytes). elim z [ none ↦ [] | some c ↦ c ]) (still path))
                    full,
            λ k f. end k ∙ others k f ∙ still k,
            ap (λ z. number z.0) (sym e4) ∙ ap length full,
          )
