-- ===== src/Storage/Files/Keeps.antt =====
-- Calls that leave the files at some paths as they were, whatever their outcome.
use stowmark.Base.{
  ℕ, zero, suc, Bytes, String, same, same→eq, lookup, ◌≡◌, refl, ap, ◌∙◌, Bool, true, false, ◌||◌,
  ◌==◌, Bool-cases, inl, inr, Option, none, some, List, [], ◌∷◌, ◌++◌, take, drop, Err, Result, ok,
  err, panics,
}
use stowmark.Base.Exec.{Exec, Ctx, ◌>>=◌, ◌>>◌, raise, lift, wrapping, continue, ctx_err}
use stowmark.Storage.Files.{
  Fs, Fault, call, fault, change, changed, put, delete, is_within, content, mkdir_all, open_file,
  stat, create_excl, create, write, close, sync, rename, remove, remove_all, random, unless_ok,
  undone, renamed, removed, any_below, paths, is_dir, is_taken,
}
use stowmark.Storage.Files.Laws.{lookup-delete, lookup-put, lookup-clear, lookup-prune}
use stowmark.Cipher.Stream.{write_full}

-- The calls that start leave the files as they are.
pub fault-files : (s : Fs) → (fault s).1.files ≡ s.files
fault-files s = go s s.trouble refl
  where
    go : (s : Fs) (t : List (Option Fault)) → s.trouble ≡ t → (fault s).1.files ≡ s.files
    go s [] e = rw e refl
    go s (f ∷ fs) e = rw e refl

module _ (P : Bytes → Bool) where
  -- The paths of `P` hold what they held.
  abbrev pub Kept : Fs → Fs → Type 0
  Kept s t = (k : Bytes) → P k ≡ true → lookup k t.files ≡ lookup k s.files

  pub record Keeps {A : Type 0} (m : Exec Fs A) : Type 0 where
    pub at : (s : Fs) → Kept s (m s).1

  after-Keeps :
      {A B : Type 0} (r : Result A) (f : A → Exec Fs B) (s : Fs)
      → ((a : A) → Keeps (f a))
      → Kept s (continue r f s).1
  after-Keeps (ok a) f s q k p = (q a).at s k p
  after-Keeps (err e) f s q k p = refl
  after-Keeps (panics e) f s q k p = refl

  pub Keeps-bind :
      {A B : Type 0} (m : Exec Fs A) (f : A → Exec Fs B)
      → Keeps m
      → ((a : A) → Keeps (f a))
      → Keeps (m >>= f)
  Keeps-bind m f qm qf = record { at = λ s k p. after-Keeps (m s).0 f (m s).1 qf k p ∙ qm.at s k p }

  pub Keeps-then :
      {B : Type 0} (m : Exec Fs (Unit {0})) (n : Exec Fs B) → Keeps m → Keeps n → Keeps (m >> n)
  Keeps-then m n a b = Keeps-bind m (λ _. n) a (λ _. b)

  pub Keeps-lift : {A : Type 0} (r : Result A) → Keeps (lift r)
  Keeps-lift r = record { at = λ s k p. refl }

  pub Keeps-wrapping : {A : Type 0} (t : String) (m : Exec Fs A) → Keeps m → Keeps (wrapping t m)
  Keeps-wrapping t m q = record { at = q.at }

  pub Keeps-ctx_err : (ctx : Ctx) (n : ℕ) → Keeps (ctx_err ctx n)
  Keeps-ctx_err ctx n = record { at = λ s k p. refl }

  Kept-undone :
      {A : Type 0} (c : Exec Fs (Unit {0})) (r : Result A) (s : Fs)
      → Keeps c
      → Kept s (undone c r s).1
  Kept-undone c (ok a) s q k p = refl
  Kept-undone c (err e) s q k p = q.at s k p
  Kept-undone c (panics e) s q k p = q.at s k p

  pub Keeps-unless_ok :
      {A : Type 0} (m : Exec Fs A) (c : Exec Fs (Unit {0}))
      → Keeps m
      → Keeps c
      → Keeps (unless_ok m c)
  Keeps-unless_ok m c qm qc = record {
    at = λ s k p. Kept-undone c (m s).0 (m s).1 qc k p ∙ qm.at s k p;
  }

  pub Keeps-call : Keeps call
  Keeps-call = record { at = λ s k p. ap (lookup k) (fault-files s) }

  -- A change that keeps the paths, done or half done.
  pub Keeps-change :
      (f : List (Bytes × Bytes) → List (Bytes × Bytes))
      (g : ℕ → List (Bytes × Bytes) → List (Bytes × Bytes))
      → ((m : List (Bytes × Bytes)) (k : Bytes) → P k ≡ true → lookup k (f m) ≡ lookup k m)
      → ((n : ℕ) (m : List (Bytes × Bytes)) (k : Bytes)
          → P k ≡ true
          → lookup k (g n m) ≡ lookup k m)
      → Keeps (change f g)
  Keeps-change f g qf qg = record {
    at = λ s k p. go (fault s).0 (fault s).1 k p ∙ ap (lookup k) (fault-files s);
  }
    where
      go :
          (o : Option Fault) (s : Fs) (k : Bytes)
          → P k ≡ true
          → lookup k (changed f g o s).1.files ≡ lookup k s.files
      go none s k p = qf s.files k p
      go (some x) s k p = qg x.done s.files k p

  -- After a call that starts, a change of the state.
  pub Keeps-after_call :
      {A : Type 0} (f : Exec Fs A) → ((s : Fs) → Kept s (f s).1) → Keeps (call >> f)
  Keeps-after_call f q = Keeps-then call f Keeps-call (record { at = q })

  pub Keeps-mkdir_all : (d : Bytes) → Keeps (mkdir_all d)
  unfolding mkdir_all
  Keeps-mkdir_all d = Keeps-after_call _ λ s k p. refl

  pub Keeps-open_file : (d : Bytes) → Keeps (open_file d)
  unfolding open_file
  Keeps-open_file d = Keeps-after_call _ λ s k p. refl

  pub Keeps-stat : (d : Bytes) → Keeps (stat d)
  unfolding stat
  Keeps-stat d = Keeps-after_call _ λ s k p. refl

  pub Keeps-close : Keeps close
  unfolding close
  Keeps-close = Keeps-call

  pub Keeps-sync : Keeps sync
  unfolding sync
  Keeps-sync = Keeps-call

  pub Keeps-random : (draw : ℕ → ℕ → Bytes) (n : ℕ) → Keeps (random draw n)
  unfolding random
  Keeps-random draw n = Keeps-after_call _ λ s k p. refl

  -- A path that is not kept may be written and removed.
  module _ (q : Bytes) (free : P q ≡ false) where
    pub free_differs : (k : Bytes) → P k ≡ true → same q k ≡ false
    free_differs k p = elim (Bool-cases (same q k)) [
      | inl e ↦ absurd (clash (ap P (same→eq q k e)) free p)
      | inr e ↦ e
    ]
      where
        clash : {a b : Bool} → a ≡ b → a ≡ false → b ≡ true → ⊥
        clash x y z = cc

    pub Kept-put :
        (c : Bytes) (m : List (Bytes × Bytes)) (k : Bytes)
        → P k ≡ true
        → lookup k (put q c m) ≡ lookup k m
    Kept-put c m k p = lookup-put q c k m ∙ rw (free_differs k p) refl

    pub Kept-delete :
        (m : List (Bytes × Bytes)) (k : Bytes) → P k ≡ true → lookup k (delete q m) ≡ lookup k m
    Kept-delete m k p = lookup-delete q k m ∙ rw (free_differs k p) refl

    pub Keeps-create : Keeps (create q)
    unfolding create
    Keeps-create = Keeps-change _ _ (Kept-put []) (λ n m k p. refl)

    pub Keeps-write : (b : Bytes) → Keeps (write q b)
    unfolding write
    Keeps-write b =
        Keeps-bind _ _
          (Keeps-change _ _ (λ m. Kept-put (content q m ++ b) m)
            (λ n m. Kept-put (content q m ++ take n b) m))
          (λ _. Keeps-lift _)

    pub Keeps-create_excl : Keeps (create_excl q)
    unfolding create_excl
    Keeps-create_excl = Keeps-after_call _ λ s k p.
        elim (Bool-cases (is_taken (is_dir q s) (lookup q s.files))) [
          | inl e ↦ rw e refl
          | inr e ↦ rw e (Kept-put [] s.files k p)
        ]

    pub Keeps-write_full : (fuel : ℕ) (b : Bytes) → Keeps (write_full (write q) fuel b)
    unfolding write_full
    Keeps-write_full fuel [] = Keeps-lift _
    Keeps-write_full zero (x ∷ b) = Keeps-lift _
    Keeps-write_full (suc fuel) (x ∷ b) =
        Keeps-bind _ _ (Keeps-write (x ∷ b))
          λ n. after_round fuel n (drop n (x ∷ b)) (Keeps-write_full fuel (drop n (x ∷ b)))
      where
        after_round :
            (fuel n : ℕ) (rest : Bytes)
            → Keeps (write_full (write q) fuel rest)
            → Keeps (elim (n == 0) [
              | true ↦ raise (Err.failure "short write")
              | false ↦ write_full (write q) fuel rest
            ])
        after_round fuel n rest h = elim (Bool-cases (n == 0)) [
          | inl e ↦ rw e (Keeps-lift _)
          | inr e ↦ rw e h
        ]

    Kept-removed : (o : Option Bytes) (s : Fs) → Kept s (removed q o s).1
    Kept-removed (some c) s k p = Kept-delete s.files k p
    Kept-removed none s k p =
        elim (Bool-cases (any_below q (paths s.files) || any_below q s.dirs)) [
          | inl e ↦ rw e refl
          | inr e ↦ rw e (elim (Bool-cases (is_dir q s)) [ inl f ↦ rw f refl | inr f ↦ rw f refl ])
        ]

    pub Keeps-remove : Keeps (remove q)
    unfolding remove
    Keeps-remove = Keeps-after_call _ λ s. Kept-removed (lookup q s.files) s

  pub Keeps-rename : (a b : Bytes) → P a ≡ false → P b ≡ false → Keeps (rename a b)
  unfolding rename
  Keeps-rename a b fa fb = Keeps-after_call _ λ s. go (lookup a s.files) s
    where
      go : (o : Option Bytes) (s : Fs) → Kept s (renamed a b o s).1
      go none s k p = refl
      go (some c) s k p = Kept-put b fb c (delete a s.files) k p ∙ Kept-delete a fa s.files k p

  pub Keeps-remove_all :
      (d : Bytes) → ((k : Bytes) → P k ≡ true → is_within d k ≡ false) → Keeps (remove_all d)
  unfolding remove_all
  Keeps-remove_all d far =
      Keeps-then _ _
        (Keeps-change _ _ (λ m k p. lookup-clear d k m (far k p))
          (λ n m k p. lookup-prune n d k m (far k p)))
        (record { at = λ s k p. refl })
