-- ===== src/Storage/Files/Laws.antt =====
-- What the calls of the file system do to the files.
use stowmark.Base.{
  ℕ, ◌-◌, Bytes, same, same_refl, same→eq, lookup, ◌≡◌, refl, sym, ap, subst, ◌∙◌, Bool, true,
  false, ◌&&◌, ltb, Bool-cases, inl, inr, none, some, List, [], ◌∷◌, Result, ok, err, panics,
  if◌then◌else◌, arith,
}
use stowmark.Base.Exec.{Exec, bind-ok}
use stowmark.Storage.Files.{Fs, call, put, delete, prune, clear, is_within, random, undone}

absurd_same : {A : Type 0} {b : Bool} → b ≡ false → b ≡ true → A
absurd_same p q = absurd (impossible p q)
  where
    impossible : {b : Bool} → b ≡ false → b ≡ true → ⊥
    impossible p q = cc

differ : (q p k : Bytes) → same q p ≡ false → same q k ≡ true → same p k ≡ false
differ q p k n e = elim (Bool-cases (same p k)) [
  | inl y ↦
      absurd_same n
        (subst (λ z. same q z ≡ true) (same→eq q k e ∙ sym (same→eq p k y)) (same_refl q))
  | inr y ↦ y
]

outside_differs : (d q k : Bytes) → is_within d q ≡ true → is_within d k ≡ false → same q k ≡ false
outside_differs d q k e n = elim (Bool-cases (same q k)) [
  | inl y ↦ absurd_same n (subst (λ z. is_within d z ≡ true) (same→eq q k y) e)
  | inr y ↦ y
]

and_left : (a b : Bool) → (a && b) ≡ true → a ≡ true
and_left a b h = ground arith

abbrev bytes_of : Result Bytes → Bytes
bytes_of (ok b) = b
bytes_of _ = []

pub lookup-delete :
    (p k : Bytes) (m : List (Bytes × Bytes))
    → lookup k (delete p m) ≡ (if same p k then none else lookup k m)
lookup-delete p k [] = elim (Bool-cases (same p k)) [ inl e ↦ rw e refl | inr e ↦ rw e refl ]
lookup-delete p k ((q, c) ∷ m) = elim (Bool-cases (same q p)) [
  | inl e ↦ rw (e) (here (same→eq q p e) (lookup-delete p k m))
  | inr e ↦ rw (e) (there e (lookup-delete p k m))
]
  where
    here :
        q ≡ p
        → lookup k (delete p m) ≡ (if same p k then none else lookup k m)
        → lookup k (delete p m)
          ≡ (if same p k then none else (if same q k then some c else lookup k m))
    here e h = rw e (ground (arith, h))

    there :
        same q p ≡ false
        → lookup k (delete p m) ≡ (if same p k then none else lookup k m)
        → (if same q k then some c else lookup k (delete p m))
          ≡ (if same p k then none else (if same q k then some c else lookup k m))
    there e h = elim (Bool-cases (same q k)) [
      | inl x ↦ rw x (rw (differ q p k e x) refl)
      | inr x ↦ rw x h
    ]

pub lookup-put :
    (p c k : Bytes) (m : List (Bytes × Bytes))
    → lookup k (put p c m) ≡ (if same p k then some c else lookup k m)
lookup-put p c k m = elim (Bool-cases (same p k)) [
  | inl e ↦ rw e refl
  | inr e ↦ rw e (lookup-delete p k m ∙ rw e refl)
]

pub lookup-clear :
    (d k : Bytes) (m : List (Bytes × Bytes))
    → is_within d k ≡ false
    → lookup k (clear d m) ≡ lookup k m
lookup-clear d k [] h = refl
lookup-clear d k ((q, c) ∷ m) h = elim (Bool-cases (is_within d q)) [
  | inl e ↦ rw e (rw (outside_differs d q k e h) (lookup-clear d k m h))
  | inr e ↦ rw e (rw (lookup-clear d k m h))
]

pub lookup-prune :
    (n : ℕ) (d k : Bytes) (m : List (Bytes × Bytes))
    → is_within d k ≡ false
    → lookup k (prune n d m) ≡ lookup k m
lookup-prune n d k [] h = refl
lookup-prune n d k ((q, c) ∷ m) h = elim (Bool-cases (is_within d q && ltb 0 n)) [
  | inl e ↦
      rw (e, prune)
        (rw (outside_differs d q k (and_left (is_within d q) (ltb 0 n) e) h)
          (lookup-prune (n - 1) d k m h))
  | inr e ↦ rw (e, prune) (rw (lookup-prune n d k m h) refl)
]

pub random-draw :
    (draw : ℕ → ℕ → Bytes) (size : ℕ) (s : Fs) {b : Bytes} {t : Fs}
    → random draw size s ≡ (ok b, t)
    → (n : ℕ) × (b ≡ draw size n)
unfolding random
random-draw draw size s h = bind-ok call _ s h λ _ u e t. (u.draws, ap (λ z. bytes_of z.0) (sym t))

-- With a clean-up that runs unless the call succeeded, a success is that of the call.
pub undone-ok :
    {A : Type 0} (c : Exec Fs (Unit {0})) (r : Result A) (u : Fs) {x : A} {v : Fs}
    → undone c r u ≡ (ok x, v)
    → (r ≡ ok x) × (u ≡ v)
undone-ok c (ok a) u h = (ap (λ z. z.0) h, ap (λ z. z.1) h)
undone-ok c (err e) u h = ground arith
undone-ok c (panics e) u h = ground arith
