-- ===== src/Storage/Objects/Listing/Parts.antt =====
-- The hash that the path of an object stands for, and the files of a listing, of `ListEncryptedObjects`
-- in internal/infra/disk/object_repository.go.
use mathlib.Core.List.{Mem, mem-cons_self, mem-cons_of_mem}
use stowmark.Base.{
  ℕ, ◌≤◌, Bytes, ◌≡◌, ◌≢◌, refl, sym, ap, ap₂, subst, ◌∙◌, Bool, true, false, ◌||◌, ◌==◌, ==_iff,
  Bool-cases, inl, inr, some, List, [], ◌∷◌, ◌++◌, same, same_refl, same→eq, lookup, length, take,
  drop, take-append-drop, Result, ok, arith,
}
use stowmark.Storage.Files.{◌/-◌, is_below, any_below, paths}
use stowmark.Storage.Objects.Listing.{
  split, add_to_first, hash_of_parts, relative, less_equal, insert, sort, files_below, invalid_path,
}

abbrev pub has : Bytes → List Bytes → Bool
has x [] = false
has x (y ∷ ys) = same y x || has x ys

pub has-Mem : (x : Bytes) (ys : List Bytes) → has x ys ≡ true → Mem x ys
has-Mem x [] h = cc
has-Mem x (y ∷ ys) h = elim (Bool-cases (same y x)) [
  | inl e ↦ subst (λ z. Mem x (z ∷ ys)) (sym (same→eq y x e)) mem-cons_self
  | inr e ↦ mem-cons_of_mem y (has-Mem x ys (rw e at h))
]

has-insert : (x h : Bytes) (xs : List Bytes) → has x (h ∷ xs) ≡ true → has x (insert h xs) ≡ true
has-insert x h [] p = p
has-insert x h (y ∷ xs) p = elim (Bool-cases (less_equal h y)) [
  | inl e ↦ rw e p
  | inr e ↦
      rw e (other (same h x) (same y x) (has x xs) (has x (insert h xs)) p (has-insert x h xs))
]
  where
    other :
        (a b c d : Bool) → (a || (b || c)) ≡ true → ((a || c) ≡ true → d ≡ true) → (b || d) ≡ true
    other true true c d p q = refl
    other true false c d p q = q refl
    other false true c d p q = refl
    other false false c d p q = q p

pub has-sort : (x : Bytes) (xs : List Bytes) → has x xs ≡ true → has x (sort xs) ≡ true
has-sort x [] h = h
has-sort x (y ∷ xs) h =
    has-insert x y (sort xs) (step (same y x) (has x xs) (has x (sort xs)) h (has-sort x xs))
  where
    step : (a b c : Bool) → (a || b) ≡ true → (b ≡ true → c ≡ true) → (a || c) ≡ true
    step true b c h q = refl
    step false b c h q = q h

pub has-append :
    (x : Bytes) (xs : List Bytes) (h : Bytes) → has x xs ≡ true → has x (xs ++ h ∷ []) ≡ true
has-append x [] h p = cc
has-append x (y ∷ xs) h p = elim (Bool-cases (same y x)) [
  | inl e ↦ rw e refl
  | inr e ↦ rw e (has-append x xs h (rw e at p))
]

pub has_last : (x : Bytes) (xs : List Bytes) → has x (xs ++ x ∷ []) ≡ true
has_last x [] = rw (same_refl x) refl
has_last x (y ∷ xs) = elim (Bool-cases (same y x)) [
  | inl e ↦ rw e refl
  | inr e ↦ rw e (has_last x xs)
]

pub has-paths :
    (k : Bytes) (m : List (Bytes × Bytes)) {c : Bytes}
    → lookup k m ≡ some c
    → has k (paths m) ≡ true
has-paths k [] h = cc
has-paths k ((q, c) ∷ m) h = elim (Bool-cases (same q k)) [
  | inl e ↦ rw e refl
  | inr e ↦ rw e (has-paths k m (rw e at h))
]

pub has-files_below :
    (d k : Bytes) (ps : List Bytes)
    → is_below d k ≡ true
    → has k ps ≡ true
    → has k (files_below d ps) ≡ true
has-files_below d k [] b h = h
has-files_below d k (p ∷ ps) b h = elim (Bool-cases (same p k)) [
  | inl e ↦ let f = subst (λ z. is_below d z ≡ true) (sym (same→eq p k e)) b in rw f (rw e refl)
  | inr e ↦ elim (Bool-cases (is_below d p)) [
    | inl f ↦ rw f (rw e (has-files_below d k ps b (rw e at h)))
    | inr f ↦ rw f (has-files_below d k ps b (rw e at h))
  ]
]

pub any_below-has :
    (d k : Bytes) (ps : List Bytes) → is_below d k ≡ true → has k ps ≡ true → any_below d ps ≡ true
any_below-has d k [] b h = h
any_below-has d k (p ∷ ps) b h = elim (Bool-cases (same p k)) [
  | inl e ↦ let f = subst (λ z. is_below d z ≡ true) (sym (same→eq p k e)) b in rw f refl
  | inr e ↦ elim (Bool-cases (is_below d p)) [
    | inl f ↦ rw f refl
    | inr f ↦ rw f (any_below-has d k ps b (rw e at h))
  ]
]

-- The parts, with slashes between them.
unsplit : List Bytes → Bytes
unsplit [] = []
unsplit (p ∷ []) = p
unsplit (p ∷ q ∷ ps) = p ++ 47 ∷ unsplit (q ∷ ps)

unsplit-add_to_first : (b : ℕ) (ps : List Bytes) → unsplit (add_to_first b ps) ≡ b ∷ unsplit ps
unfolding unsplit
unsplit-add_to_first b [] = refl
unsplit-add_to_first b (p ∷ []) = refl
unsplit-add_to_first b (p ∷ q ∷ ps) = refl

split_nonempty : (s : Bytes) → split s ≢ []
split_nonempty [] e = cc
split_nonempty (b ∷ s) e = elim (Bool-cases (b == 47)) [
  | inl f ↦ no_cons (rw f at e)
  | inr f ↦ no_add b (split s) (rw f at e)
]
  where
    no_cons : {p : Bytes} {ps : List Bytes} → p ∷ ps ≢ []
    no_cons e = cc

    no_add : (b : ℕ) (ps : List Bytes) → add_to_first b ps ≢ []
    no_add b [] e = cc
    no_add b (p ∷ ps) e = cc

unsplit-split : (s : Bytes) → unsplit (split s) ≡ s
unfolding unsplit
unsplit-split [] = refl
unsplit-split (b ∷ s) = elim (Bool-cases (b == 47)) [
  | inl e ↦ rw e (
      lead (split s) (split_nonempty s)
      ∙ ap₂ (λ x xs. x ∷ xs) (sym ((==_iff b 47).0 e)) (unsplit-split s))
  | inr e ↦ rw e (unsplit-add_to_first b (split s) ∙ ap (λ x. b ∷ x) (unsplit-split s))
]
  where
    lead : (ps : List Bytes) → ps ≢ [] → unsplit ([] ∷ ps) ≡ 47 ∷ unsplit ps
    lead [] n = absurd (n refl)
    lead (p ∷ ps) n = refl

abbrev value : Result Bytes → Bytes
value (ok h) = h
value _ = []

same_length_cancel :
    (a p x y : Bytes) → length a ≡ length p → a ++ 47 ∷ x ≡ p ++ 47 ∷ y → a ++ x ≡ p ++ y
same_length_cancel [] [] x y n e = ap (drop 1) e
same_length_cancel [] (c ∷ p) x y n e = absurd (omega (arith, n))
same_length_cancel (c ∷ a) [] x y n e = absurd (omega (arith, n))
same_length_cancel (c ∷ a) (d ∷ p) x y n e =
    ap₂ (λ z zs. z ∷ zs) (ap first e)
      (same_length_cancel a p x y (omega (arith, n)) (ap (drop 1) e))
  where
    first : Bytes → ℕ
    first [] = 0
    first (b ∷ bs) = b

-- The hash that a path of two parts stands for.
parts_hash :
    (a x : Bytes) (ps : List Bytes) {h : Bytes}
    → length a ≡ 2
    → unsplit ps ≡ a ++ 47 ∷ x
    → hash_of_parts ps ≡ ok h
    → h ≡ a ++ x
unfolding unsplit
parts_hash a x [] n u e = cc
parts_hash a x (p ∷ []) n u e = cc
parts_hash a x (p ∷ [] ∷ []) n u e = cc
parts_hash a x (p ∷ [] ∷ q ∷ ps) n u e = cc
parts_hash a x (p ∷ (b ∷ r) ∷ q ∷ ps) n u e = cc
parts_hash a x (p ∷ (b ∷ r) ∷ []) n u e = elim (Bool-cases (length p == 2)) [
  | inl f ↦
      sym (ap value (rw f at e))
      ∙ sym (same_length_cancel a p x (b ∷ r) (n ∙ sym ((==_iff (length p) 2).0 f)) (sym u))
  | inr f ↦ absurd (refused (rw f at e))
]
  where
    refused : {h : Bytes} → invalid_path ≡ ok h → ⊥
    refused e = cc

drop-append : (d x : Bytes) → drop (length d) (d ++ x) ≡ x
drop-append [] x = refl
drop-append (b ∷ d) x = drop-append d x

relative_join : (d x : Bytes) → relative d (d /- x) ≡ x
relative_join [] x = refl
relative_join (b ∷ d) x = relative_join d x

take_two : (h : Bytes) → 2 ≤ length h → length (take 2 h) ≡ 2
take_two [] n = absurd (omega (arith, n))
take_two (a ∷ []) n = absurd (omega (arith, n))
take_two (a ∷ b ∷ h) n = refl

pub path_hash :
    (d hash : Bytes) {h : Bytes}
    → 2 ≤ length hash
    → hash_of_parts (split (relative d (d /- (take 2 hash /- drop 2 hash)))) ≡ ok h
    → h ≡ hash
path_hash d hash long e =
    parts_hash (take 2 hash) (drop 2 hash) (split (relative d (d /- (take 2 hash /- drop 2 hash))))
      (take_two hash long) (unsplit-split _ ∙ relative_join d (take 2 hash /- drop 2 hash)) e
    ∙ take-append-drop 2 hash
