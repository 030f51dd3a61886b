-- ===== src/Storage/Objects/Listing/Complete.antt =====
-- A listing of a generation, of internal/infra/disk/object_repository.go, misses no object.
use mathlib.Core.List.{Mem}
use stowmark.Base.{
  ℕ, suc, ◌≤◌, Bytes, ◌≡◌, ◌⊎◌, refl, sym, ap, subst, ◌∙◌, Bool, true, false, ◌||◌, ◌==◌,
  Bool-cases, inl, inr, Option, none, some, List, [], ◌∷◌, ◌++◌, same, same→eq, lookup, length,
  take, drop, Err, Result, ok, err, panics, is_not_exist, arith,
}
use stowmark.Base.Exec.{Exec, Ctx, ◌>>◌, ctx_err, continue, ctx_check, bind-ok}
use stowmark.Storage.Files.{
  Fs, Fault, ◌/-◌, is_below, is_dir, any_below, any_within, paths, call, fault, outcome,
}
use stowmark.Storage.Files.Keeps.{Keeps-call, Keeps-after_call}
use stowmark.Storage.Objects.{Setting, generation_path, object_path}
use stowmark.Storage.Objects.Places.{below_join, object-eq}
use stowmark.Storage.Objects.Listing.{
  list_encrypted_objects, split, hash_of_parts, relative, files_below, visit, walk, listed,
  root_found, walked,
}
use stowmark.Storage.Objects.Listing.Parts.{
  has, has-Mem, has-sort, has-append, has_last, has-paths, has-files_below, any_below-has,
  path_hash,
}

-- An outcome that is no error about a path that is not there.
abbrev Plain : {A : Type 0} → Result A → Type 0
Plain (ok a) = Unit
Plain (err e) = is_not_exist e ≡ false
Plain (panics p) = Unit

call-Plain : (o : Option Fault) → Plain (outcome o)
call-Plain none = tt
call-Plain (some f) = refl

then-Plain :
    {A B : Type 0} (r : Result A) (f : A → Exec Fs B) (s : Fs)
    → Plain r
    → ((a : A) (t : Fs) → Plain (f a t).0)
    → Plain (continue r f s).0
then-Plain (ok a) f s p q = q a s
then-Plain (err x) f s p q = p
then-Plain (panics x) f s p q = tt

check-Plain : (b : Bool) → Plain (ctx_check b)
check-Plain true = refl
check-Plain false = tt

parts-Plain : (ps : List Bytes) → Plain (hash_of_parts ps)
parts-Plain [] = refl
parts-Plain (p ∷ []) = refl
parts-Plain (p ∷ [] ∷ ps) = refl
parts-Plain (p ∷ (b ∷ r) ∷ q ∷ ps) = refl
parts-Plain (p ∷ (b ∷ r) ∷ []) = elim (Bool-cases (length p == 2)) [
  | inl e ↦ rw e tt
  | inr e ↦ rw e refl
]

module _ (ctx : Ctx) (dir : Bytes) where
  visit-Plain : (n : ℕ) (path : Bytes) (s : Fs) → Plain (visit ctx n dir path s).0
  visit-Plain n path s = then-Plain (call s).0 _ (call s).1 (call-Plain (fault s).0) λ _ t.
      then-Plain (ctx_check (ctx n)) _ t (check-Plain (ctx n))
        λ _ u. parts-Plain (split (relative dir path))

  visit-ok :
      (n : ℕ) (path : Bytes) (s : Fs) {h : Bytes} {t : Fs}
      → visit ctx n dir path s ≡ (ok h, t)
      → hash_of_parts (split (relative dir path)) ≡ ok h
  visit-ok n path s e =
      bind-ok call _ s e λ _ u e1 e2. bind-ok (ctx_err ctx n) _ u e2 λ _ v e3 e4. ap (λ z. z.0) e4

  abbrev pub walk_on :
      ℕ → List Bytes → List Bytes → Result Bytes → Fs → (Result (Unit {0}) × List Bytes) × Fs
  walk_on n acc ps (ok hash) t = walk ctx (suc n) dir (acc ++ hash ∷ []) ps t
  walk_on n acc ps (err e) t = ((err e, acc), t)
  walk_on n acc ps (panics e) t = ((panics e, acc), t)

  pub walk-eq :
      (n : ℕ) (acc : List Bytes) (p : Bytes) (ps : List Bytes) (s : Fs)
      → walk ctx n dir acc (p ∷ ps) s
        ≡ walk_on n acc ps (visit ctx n dir p s).0 (visit ctx n dir p s).1
  walk-eq n acc p ps s = go (visit ctx n dir p s).0 (visit ctx n dir p s).1
    where
      go :
          (r : Result Bytes) (t : Fs)
          → ((elim r [
            | ok hash ↦ walk ctx (suc n) dir (acc ++ hash ∷ []) ps t
            | err e ↦ ((err e, acc), t)
            | panics e ↦ ((panics e, acc), t)
          ])
              ≡ walk_on n acc ps r t)
      go (ok h) t = refl
      go (err e) t = refl
      go (panics e) t = refl

  pub walk-Plain :
      (n : ℕ) (acc : List Bytes) (ps : List Bytes) (s : Fs) → Plain (walk ctx n dir acc ps s).0.0
  walk-Plain n acc [] s = tt
  walk-Plain n acc (p ∷ ps) s =
      subst (λ z. Plain z.0.0) (sym (walk-eq n acc p ps s))
        (go (visit ctx n dir p s).0 (visit ctx n dir p s).1 (visit-Plain n p s)
          (λ h t. walk-Plain (suc n) (acc ++ h ∷ []) ps t))
    where
      go :
          (r : Result Bytes) (t : Fs)
          → Plain r
          → ((h : Bytes) (t : Fs) → Plain (walk ctx (suc n) dir (acc ++ h ∷ []) ps t).0.0)
          → Plain (walk_on n acc ps r t).0.0
      go (ok h) t p q = q h t
      go (err x) t p q = p
      go (panics x) t p q = tt

  module _ (hash path : Bytes)
      (right : (h : Bytes) → hash_of_parts (split (relative dir path)) ≡ ok h → h ≡ hash) where
    pub walk-has :
        (n : ℕ) (acc : List Bytes) (ps : List Bytes) (s : Fs)
        → (walk ctx n dir acc ps s).0.0 ≡ ok tt
        → (has hash acc ≡ true) ⊎ (has path ps ≡ true)
        → has hash (walk ctx n dir acc ps s).0.1 ≡ true
    walk-has n acc [] s e (inl a) = a
    walk-has n acc [] s e (inr b) = cc
    walk-has n acc (p ∷ ps) s e d =
        subst (λ z. has hash z.0.1 ≡ true) (sym (walk-eq n acc p ps s))
          (go (visit ctx n dir p s).0 (visit ctx n dir p s).1 refl
            (ap (λ z. z.0.0) (sym (walk-eq n acc p ps s)) ∙ e) d
            (λ h t. walk-has (suc n) (acc ++ h ∷ []) ps t))
      where
        go :
            (r : Result Bytes) (t : Fs)
            → visit ctx n dir p s ≡ (r, t)
            → (walk_on n acc ps r t).0.0 ≡ ok tt
            → (has hash acc ≡ true) ⊎ (has path (p ∷ ps) ≡ true)
            → ((h : Bytes) (t : Fs)
                → (walk ctx (suc n) dir (acc ++ h ∷ []) ps t).0.0 ≡ ok tt
                → (has hash (acc ++ h ∷ []) ≡ true) ⊎ (has path ps ≡ true)
                → has hash (walk ctx (suc n) dir (acc ++ h ∷ []) ps t).0.1 ≡ true)
            → has hash (walk_on n acc ps r t).0.1 ≡ true
        go (err x) t v e d q = cc
        go (panics x) t v e d q = cc
        go (ok h) t v e (inl a) q = q h t e (inl (has-append hash acc h a))
        go (ok h) t v e (inr b) q = elim (Bool-cases (same p path)) [
          | inl f ↦
              let g = right h (
                subst (λ z. hash_of_parts (split (relative dir z)) ≡ ok h) (same→eq p path f)
                  (visit-ok n p s v)) in
              q h t e
                (inl (subst (λ z. has hash (acc ++ z ∷ []) ≡ true) (sym g) (has_last hash acc)))
          | inr f ↦ q h t e (inr (rw f at b))
        ]

-- A listing that is given has every object of the generation that a file holds.
module _ (o : Setting) where
  listed-has :
      (r : Result (Unit {0})) (hs : List Bytes) (hash : Bytes) {hashes : List Bytes}
      → Plain r
      → (r ≡ ok tt → has hash hs ≡ true)
      → listed r hs ≡ ok hashes
      → has hash hashes ≡ true
  listed-has (ok tt) hs hash p q e =
      subst (λ z. has hash z ≡ true) (value e) (has-sort hash hs (q refl))
    where
      value : {a b : List Bytes} → ok a ≡ ok b → a ≡ b
      value e = cc
  listed-has (err x) hs hash p q e = absurd (refused (rw p at e))
    where
      refused : {x : Err} {a : List Bytes} → err x ≡ ok a → ⊥
      refused e = cc
  listed-has (panics x) hs hash p q e = cc

  walked-has :
      (ctx : Ctx) (dir hash path : Bytes) (r : Result (Unit {0})) (s : Fs) {hashes : List Bytes}
      → ((h : Bytes) → hash_of_parts (split (relative dir path)) ≡ ok h → h ≡ hash)
      → is_below dir path ≡ true
      → has path (paths s.files) ≡ true
      → Plain r
      → (walked ctx dir r s).0 ≡ ok hashes
      → has hash hashes ≡ true
  walked-has ctx dir hash path (ok _) s right b m p e =
      let ps = files_below dir (paths s.files) in
      listed-has (walk ctx 1 dir [] ps s).0.0 (walk ctx 1 dir [] ps s).0.1 hash
        (walk-Plain ctx dir 1 [] ps s)
        (λ f.
          walk-has ctx dir hash path right 1 [] ps s f
            (inr (has-files_below dir path (paths s.files) b m)))
        e
  walked-has ctx dir hash path (err x) s right b m p e = listed-has (err x) [] hash p (λ f. cc) e
  walked-has ctx dir hash path (panics x) s right b m p e = cc

  root-Plain : (o : Option Bytes) (b : Bool) → b ≡ true → Plain (root_found b o)
  root-Plain o true h = tt
  root-Plain o false h = cc

  found_dir : (a b : Bool) → b ≡ true → (a || b) ≡ true
  found_dir a b h = ground arith

  root_lem :
      (dir path : Bytes) (r : Result (Unit {0})) (t : Fs)
      → Plain r
      → is_below dir path ≡ true
      → has path (paths t.files) ≡ true
      → Plain (continue r (λ _ u. (root_found (is_dir dir u) (lookup dir u.files), u)) t).0
  root_lem dir path (ok _) t p b h = root-Plain (lookup dir t.files) (is_dir dir t) (
      found_dir (any_within dir t.dirs) (any_below dir (paths t.files))
        (any_below-has dir path (paths t.files) b h))
  root_lem dir path (err x) t p b h = p
  root_lem dir path (panics x) t p b h = tt

  -- If a listing of a generation succeeds, it has the hash, of two bytes at least, of each object that
  -- the generation has a file for.
  pub list_encrypted_objects-Mem :
      (ctx : Ctx) (g : ℕ) (hash : Bytes) (s : Fs) {hashes : List Bytes} {v : Fs} {c : Bytes}
      → 2 ≤ length hash
      → lookup (object_path o hash g) s.files ≡ some c
      → list_encrypted_objects o ctx g s ≡ (ok hashes, v)
      → Mem hash hashes
  unfolding list_encrypted_objects
  list_encrypted_objects-Mem ctx g hash s {c = c} long l e =
      bind-ok (ctx_err ctx 0) _ s e λ _ s1 e1 e2.
        let dir = generation_path o g in
        let path = object_path o hash g in
        let below =
          subst (λ p. is_below dir p ≡ true) (sym (object-eq o hash g))
            (below_join dir (take 2 hash /- drop 2 hash)) in
        let root : Exec Fs (Unit {0}) =
          call >> λ u. (root_found (is_dir dir u) (lookup dir u.files), u) in
        let all = λ (p : Bytes). true in
        let held : lookup path s1.files ≡ some c =
          subst (λ u. lookup path u.files ≡ some c) (ap (λ z. z.1) e1) l in
        let there = has-paths path (call s1).1.files ((Keeps-call all).at s1 path refl ∙ held) in
        let end = has-paths path (root s1).1.files (
          (Keeps-after_call all (λ u. (root_found (is_dir dir u) (lookup dir u.files), u))
              (λ t k q. refl)).at
            s1 path refl
          ∙ held) in
        has-Mem hash _ (
          walked-has ctx dir hash path (root s1).0 (root s1).1
            (λ h q.
              path_hash dir hash long
                (subst (λ p. hash_of_parts (split (relative dir p)) ≡ ok h) (object-eq o hash g) q))
            below end
            (root_lem dir path (call s1).0 (call s1).1 (call-Plain (fault s1).0) below there)
            (ap (λ z. z.0) e2))
