-- ===== src/Storage/Objects/Places.antt =====
-- Where the encrypted objects of internal/infra/disk/object_repository.go are: what tells apart the
-- paths of two generations, and of two objects.
use stowmark.Base.{
  ℕ, ◌≤◌, Bytes, ◌≡◌, ◌≢◌, refl, sym, ap, ap₂, subst, ◌∙◌, Bool, true, false, ◌||◌, ◌==◌, ==_iff,
  Bool-cases, inl, inr, [], ◌∷◌, ◌++◌, same, same→eq, length, take, drop, arith, codes,
}
use stowmark.Base.Replace.{starts_with, starts_with-append}
use stowmark.Cipher.Stream.{append_assoc}
use stowmark.Storage.Files.{◌/-◌, is_below, is_within}
use stowmark.Storage.Paths.{encrypted_generation_path, encrypted_object_path}
use stowmark.Storage.Objects.{Setting, generation_path, object_path}
use stowmark.Storage.Objects.Rekeyed.{temp_path}

abbrev pub has_slash : Bytes → Bool
has_slash [] = false
has_slash (b ∷ bs) = b == 47 || has_slash bs

-- What is relied on of the numerals: different numbers have different ones, without a slash.
pub record AreNumerals (format_uint : ℕ → Bytes) : Type 0 where
  pub injective : (g h : ℕ) → format_uint g ≡ format_uint h → g ≡ h
  pub plain : (g : ℕ) → has_slash (format_uint g) ≡ false

abbrev head : Bytes → ℕ
head [] = 0
head (b ∷ bs) = b

pub cancel : (p : Bytes) {x y : Bytes} → p ++ x ≡ p ++ y → x ≡ y
cancel [] e = e
cancel (b ∷ p) e = cancel p (ap (drop 1) e)

pub starts_with-inv : (p q : Bytes) → starts_with p q ≡ true → (r : Bytes) × (q ≡ p ++ r)
starts_with-inv [] q h = (q, refl)
starts_with-inv (x ∷ p) [] h = cc
starts_with-inv (x ∷ p) (y ∷ q) h = elim (Bool-cases (x == y)) [
  | inl e ↦
      let (r, f) = starts_with-inv p q (rw e at h) in
      (r, ap₂ (λ b bs. b ∷ bs) (sym ((==_iff x y).0 e)) f)
  | inr e ↦ absurd (impossible (rw e at h))
]
  where
    impossible : false ≡ true → ⊥
    impossible h = cc

pub below_join : (d r : Bytes) → is_below d (d /- r) ≡ true
below_join d r =
    subst (λ p. starts_with (d ++ 47 ∷ []) p ≡ true) (append_assoc d (47 ∷ []) r)
      (starts_with-append (d ++ 47 ∷ []) r)

pub below_inv : (d q : Bytes) → is_below d q ≡ true → (r : Bytes) × (q ≡ d /- r)
below_inv d q h =
    let (r, e) = starts_with-inv (d ++ 47 ∷ []) q h in (r, e ∙ append_assoc d (47 ∷ []) r)

pub within_join : (d r : Bytes) → is_within d (d /- r) ≡ true
within_join d r = elim (Bool-cases (same d (d /- r))) [
  | inl e ↦ rw e refl
  | inr e ↦ rw e (below_join d r)
]

-- Up to the first slash.
first_part :
    (a b x y : Bytes)
    → has_slash a ≡ false
    → has_slash b ≡ false
    → a ++ 47 ∷ x ≡ b ++ 47 ∷ y
    → a ≡ b
first_part [] [] x y ha hb e = refl
first_part [] (c ∷ b) x y ha hb e = absurd (clash c (has_slash b) (ap head e) hb)
  where
    clash : (c : ℕ) (s : Bool) → 47 ≡ c → (c == 47 || s) ≡ false → ⊥
    clash c s e h = ground arith
first_part (c ∷ a) [] x y ha hb e = absurd (clash c (has_slash a) (ap head e) ha)
  where
    clash : (c : ℕ) (s : Bool) → c ≡ 47 → (c == 47 || s) ≡ false → ⊥
    clash c s e h = ground arith
first_part (c ∷ a) (d ∷ b) x y ha hb e =
    ap₂ (λ z zs. z ∷ zs) (ap head e)
      (first_part a b x y (rest c (has_slash a) ha) (rest d (has_slash b) hb) (ap (drop 1) e))
  where
    rest : (c : ℕ) (s : Bool) → (c == 47 || s) ≡ false → s ≡ false
    rest c s h = ground arith

has_slash-append : (a x : Bytes) → has_slash (a ++ 47 ∷ x) ≡ true
has_slash-append [] x = refl
has_slash-append (b ∷ a) x = elim (Bool-cases (b == 47)) [
  | inl e ↦ rw e refl
  | inr e ↦ rw e (has_slash-append a x)
]

module _ (o : Setting) where
  abbrev between : Bytes
  between = codes "/objects/encrypted/"

  pub generation-eq :
      (g : ℕ) → generation_path o g ≡ o.repository_path ++ (between ++ o.format_uint g)
  unfolding encrypted_generation_path
  generation-eq g = refl

  pub object-eq :
      (hash : Bytes) (g : ℕ)
      → object_path o hash g ≡ generation_path o g /- (take 2 hash /- drop 2 hash)
  unfolding encrypted_object_path
  object-eq hash g = refl

  -- What is below a generation, and what is a generation.
  below-eq :
      (g : ℕ) (r : Bytes)
      → generation_path o g /- r ≡ o.repository_path ++ (between ++ (o.format_uint g /- r))
  below-eq g r =
      ap (λ p. p /- r) (generation-eq g)
      ∙ append_assoc o.repository_path (between ++ o.format_uint g) (47 ∷ r)

  pub object_within :
      (g : ℕ) (hash : Bytes) → is_within (generation_path o g) (object_path o hash g) ≡ true
  object_within g hash =
      subst (λ p. is_within (generation_path o g) p ≡ true) (sym (object-eq hash g))
        (within_join (generation_path o g) (take 2 hash /- drop 2 hash))

  pub temp_within :
      (g n : ℕ) (hash : Bytes) → is_within (generation_path o g) (temp_path o hash g n) ≡ true
  temp_within g n hash =
      let name = codes "." ++ drop 2 hash ++ codes ".rekey-" ++ o.temp_suffix n in
      subst (λ p. is_within (generation_path o g) p ≡ true)
        (sym (append_assoc (generation_path o g) (47 ∷ take 2 hash) (47 ∷ name)))
        (within_join (generation_path o g) (take 2 hash /- name))

  -- Objects of different hashes have different paths.
  pub object_path_injective :
      (g : ℕ) (j h : Bytes)
      → 2 ≤ length j
      → 2 ≤ length h
      → object_path o j g ≡ object_path o h g
      → j ≡ h
  object_path_injective g j h lj lh e =
      parts j h lj lh (cancel (generation_path o g) (sym (object-eq j g) ∙ e ∙ object-eq h g))
    where
      parts :
          (j h : Bytes)
          → 2 ≤ length j
          → 2 ≤ length h
          → 47 ∷ (take 2 j /- drop 2 j) ≡ 47 ∷ (take 2 h /- drop 2 h)
          → j ≡ h
      parts [] h lj lh e = absurd (omega (arith, lj))
      parts (a ∷ []) h lj lh e = absurd (omega (arith, lj))
      parts (a ∷ b ∷ j) [] lj lh e = absurd (omega (arith, lh))
      parts (a ∷ b ∷ j) (c ∷ []) lj lh e = absurd (omega (arith, lh))
      parts (a ∷ b ∷ j) (c ∷ d ∷ h) lj lh e =
          ap₂ (λ x xs. x ∷ xs) (ap (λ l. head (drop 1 l)) e)
            (ap₂ (λ x xs. x ∷ xs) (ap (λ l. head (drop 2 l)) e) (ap (drop 4) e))

module _ (o : Setting) (law : AreNumerals o.format_uint) where
  same_generation :
      (g h : ℕ) (r : Bytes)
      → is_within (generation_path o g) (generation_path o h /- r) ≡ true
      → g ≡ h
  same_generation g h r e =
      elim (Bool-cases (same (generation_path o g) (generation_path o h /- r))) [
        | inl f ↦
            let q = cancel (between o) (
              cancel o.repository_path
                (sym (generation-eq o g) ∙ same→eq _ _ f ∙ below-eq o h r)) in
            absurd (clash (law.plain g) (ap has_slash q ∙ has_slash-append (o.format_uint h) r))
        | inr f ↦ under (rw f at e)
      ]
    where
      clash : {a : Bool} → a ≡ false → a ≡ true → ⊥
      clash x y = cc

      under : is_below (generation_path o g) (generation_path o h /- r) ≡ true → g ≡ h
      under b =
          let (s, f) = below_inv (generation_path o g) (generation_path o h /- r) b in
          let q =
            cancel (between o)
              (cancel o.repository_path (sym (below-eq o g s) ∙ sym f ∙ below-eq o h r)) in
          law.injective g h
            (first_part (o.format_uint g) (o.format_uint h) _ _ (law.plain g) (law.plain h) q)

  -- An object of one generation is not within another.
  pub object_outside :
      (g h : ℕ) (hash : Bytes)
      → h ≢ g
      → is_within (generation_path o g) (object_path o hash h) ≡ false
  object_outside g h hash n =
      elim (Bool-cases (is_within (generation_path o g) (object_path o hash h))) [
        | inl e ↦ absurd (
            n (
              sym (
                same_generation g h (take 2 hash /- drop 2 hash)
                  (subst (λ p. is_within (generation_path o g) p ≡ true) (object-eq o hash h) e))))
        | inr e ↦ e
      ]

-- The configuration is not within a generation.
pub config_outside :
    (o : Setting) (g : ℕ)
    → is_within (generation_path o g) (o.repository_path /- codes "config.json") ≡ false
config_outside o g =
    elim (Bool-cases (is_within (generation_path o g) (o.repository_path /- codes "config.json"))) [
      | inl e ↦ absurd (go e)
      | inr e ↦ e
    ]
  where
    clash : (x y : ℕ) → x ≡ 99 → y ≡ 111 → x ≡ y → ⊥
    clash x y a b e = omega (arith, a, b, e)

    letter : (x : Bytes) → between o ++ x ≡ 47 ∷ codes "config.json" → ⊥
    letter x e = clash 99 111 refl refl (ap (λ l. head (drop 1 l)) (sym e))

    go : is_within (generation_path o g) (o.repository_path /- codes "config.json") ≡ true → ⊥
    go e =
        elim (Bool-cases (same (generation_path o g) (o.repository_path /- codes "config.json"))) [
          | inl f ↦
              letter (o.format_uint g)
                (cancel o.repository_path (sym (generation-eq o g) ∙ same→eq _ _ f))
          | inr f ↦ below (rw f at e)
        ]
      where
        below : is_below (generation_path o g) (o.repository_path /- codes "config.json") ≡ true → ⊥
        below b =
            let (r, f) =
              below_inv (generation_path o g) (o.repository_path /- codes "config.json") b in
            letter (o.format_uint g /- r) (cancel o.repository_path (sym (below-eq o g r) ∙ sym f))
