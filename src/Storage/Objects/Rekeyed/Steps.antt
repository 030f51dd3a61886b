-- ===== src/Storage/Objects/Rekeyed/Steps.antt =====
-- What the calls of `SaveRekeyedObject` in internal/infra/disk/object_repository.go did when they
-- succeeded.
use stowmark.Base.{
  Bytes, ◌≡◌, refl, sym, ap, ◌∙◌, Bool, true, false, ◌==◌, ==_iff, same, lookup, Bool-cases, inl,
  inr, Option, none, some, [], Err, Result, ok, err, length, if◌then◌else◌, arith,
}
use stowmark.Base.Exec.{Exec, bind-ok}
use stowmark.Cipher.{Aead, new_encoder}
use stowmark.Storage.Files.{
  Fs, call, put, delete, with_files, create_excl, is_taken, is_dir, rename, renamed,
}
use stowmark.Storage.Files.Keeps.{Keeps, Keeps-call}
use stowmark.Storage.Files.Laws.{lookup-put, lookup-delete}
use stowmark.Storage.Objects.{refuse_if}

-- Every path holds what it held.
abbrev pub Still : Fs → Fs → Type 0
Still s t = (k : Bytes) → lookup k t.files ≡ lookup k s.files

unfoldable pub everywhere : Bytes → Bool
everywhere k = true

pub still :
    {A : Type 0} (m : Exec Fs A)
    → Keeps everywhere m
    → (s : Fs) {a : A} {t : Fs} → m s ≡ (ok a, t)
    → Still s t
unfolding everywhere
still m q s e k = ap (λ z. lookup k z.1.files) (sym e) ∙ q.at s k refl

pub refuse-ok :
    (b : Bool) (x : Err) (s : Fs) {a : Unit {0}} {t : Fs}
    → refuse_if b x s ≡ (ok a, t)
    → (b ≡ false) × (s ≡ t)
refuse-ok true x s e = ground arith
refuse-ok false x s e = (refl, ap (λ z. z.1) e)

pub encoder-ok :
    (aead : Aead) (key : Bytes) (s : Fs) {a : Unit {0}} {t : Fs}
    → new_encoder aead key s ≡ (ok a, t)
    → (length key ≡ 32) × (s ≡ t)
encoder-ok aead key s e = elim (Bool-cases (length key == 32)) [
  | inl f ↦ ((==_iff (length key) 32).0 f, ap (λ z. z.1) (rw f at e))
  | inr f ↦ absurd (refused (ap (λ z. z.0) (rw f at e)))
]
  where
    refused : {x : Err} {a : Unit {0}} → err x ≡ ok a → ⊥
    refused e = cc

-- A name that was free holds nothing.
pub create_excl-ok :
    (p : Bytes) (s : Fs) {a : Unit {0}} {t : Fs}
    → create_excl p s ≡ (ok a, t)
    → (lookup p s.files ≡ none)
      × ((k : Bytes) → lookup k t.files ≡ (if same p k then some [] else lookup k s.files))
unfolding create_excl everywhere
create_excl-ok p s h =
    bind-ok call _ s h λ _ u e1 e2. go u (still call (Keeps-call everywhere) s e1) e2
  where
    refused : {x : Err} {A : Type 0} {a : A} → err x ≡ ok a → ⊥
    refused e = cc

    free : (d : Bool) (o : Option Bytes) → is_taken d o ≡ false → o ≡ none
    free d none e = refl
    free d (some c) e = cc

    go :
        (u : Fs)
        → Still s u
        → {a : Unit {0}} {t : Fs}
        → ◌≡◌ {A = Result (Unit {0}) × Fs}
            (if is_taken (is_dir p u) (lookup p u.files)
              then (err Err.already_exist, u)
              else (ok tt, with_files (put p []) u))
            (ok a, t)
        → (lookup p s.files ≡ none)
          × ((k : Bytes) → lookup k t.files ≡ (if same p k then some [] else lookup k s.files))
    go u st e = elim (Bool-cases (is_taken (is_dir p u) (lookup p u.files))) [
      | inl f ↦ absurd (refused (ap (λ z. z.0) (rw f at e)))
      | inr f ↦ (
        sym (st p) ∙ free (is_dir p u) (lookup p u.files) f,
        λ k.
            ap (λ z. lookup k z.1.files) (sym (rw f at e))
            ∙ lookup-put p [] k u.files
            ∙ ap (λ z. if same p k then some [] else z) (st k),
      )
    ]

pub rename-ok :
    (a b : Bytes) (s : Fs) {x : Unit {0}} {t : Fs}
    → rename a b s ≡ (ok x, t)
    → (c : Bytes) × (lookup a s.files ≡ some c)
      × ((k : Bytes)
          → lookup k t.files
            ≡ (if same b k then some c else (if same a k then none else lookup k s.files)))
unfolding rename everywhere
rename-ok a b s h =
    bind-ok call _ s h
      λ _ u e1 e2. go u (lookup a u.files) refl (still call (Keeps-call everywhere) s e1) e2
  where
    refused : {x : Err} {A : Type 0} {a : A} → err x ≡ ok a → ⊥
    refused e = cc

    go :
        (u : Fs) (o : Option Bytes)
        → lookup a u.files ≡ o
        → Still s u
        → {x : Unit {0}} {t : Fs} → renamed a b o u ≡ (ok x, t)
        → (c : Bytes) × (lookup a s.files ≡ some c)
          × ((k : Bytes)
              → lookup k t.files
                ≡ (if same b k then some c else (if same a k then none else lookup k s.files)))
    go u none l st e = absurd (refused (ap (λ z. z.0) e))
    go u (some c) l st e = (
      c,
      sym (st a) ∙ l,
      λ k.
          ap (λ z. lookup k z.1.files) (sym e)
          ∙ lookup-put b c k (delete a u.files)
          ∙ ap (λ z. if same b k then some c else z)
              (lookup-delete a k u.files ∙ ap (λ z. if same a k then none else z) (st k)),
    )
