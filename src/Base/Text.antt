-- ===== src/Base/Text.antt =====
-- A Go `string` or `[]byte`: its bytes.
use Prim.Native.Nat.{ℕ}
use Prim.Native.Char.{code}
use Prim.Native.String.{String}
use mathlib.Core.Path.{◌≡◌, refl, subst}
use mathlib.Core.Logic.{◌↔◌, inl, inr}
use mathlib.Core.Option.{Option, none, some}
use stowmark.Base.Lists.{All}
use mathlib.Core.Bool.{Bool, true, false, ◌&&◌}
use mathlib.Core.List.{List, [], ◌∷◌}
use native.Mathlib.Omega.{arith}
use stowmark.Base.Tests.{◌==◌, Bool-cases, if◌then◌else◌}

abbrev pub Bytes : Type 0
Bytes = List ℕ

-- The bytes of an ASCII text.
abbrev pub codes : String → Bytes
codes String.[] = []
codes (String.◌∷◌ c s) = code c ∷ codes s

-- `==` of Go strings
abbrev pub same : Bytes → Bytes → Bool
same [] [] = true
same (x ∷ xs) (y ∷ ys) = x == y && same xs ys
same _ _ = false

pub same_refl : (xs : Bytes) → same xs xs ≡ true
same_refl [] = refl
same_refl (x ∷ xs) = ground (arith, same_refl xs)

pub same→eq : (xs ys : Bytes) → same xs ys ≡ true → xs ≡ ys
same→eq [] [] h = refl
same→eq [] (y ∷ ys) h = ground arith
same→eq (x ∷ xs) [] h = ground arith
same→eq (x ∷ xs) (y ∷ ys) h = ground (arith, same→eq xs ys)

pub same_iff : (xs ys : Bytes) → (same xs ys ≡ true) ↔ (xs ≡ ys)
same_iff xs ys = (same→eq xs ys, λ e. rw e (same_refl ys))

-- A Go map with string keys, as the list of its entries.
module _ {ℓ} {A : Type ℓ} where
  abbrev pub lookup : Bytes → List (Bytes × A) → Option A
  lookup k [] = none
  lookup k ((j, v) ∷ m) = if same j k then some v else lookup k m

pub some_eq {ℓ} : {A : Type ℓ} {a b : A} → some a ≡ some b → a ≡ b
some_eq h = cc

-- What holds of every entry holds of the one that is found.
pub lookup-All :
    {A : Type 0} (P : Bytes → A → Type 0) (k : Bytes) (m : List (Bytes × A)) (v : A)
    → All (λ (e : Bytes × A). P e.0 e.1) m
    → lookup k m ≡ some v
    → P k v
lookup-All P k [] v ps h = cc
lookup-All P k ((j, w) ∷ m) v ps h = elim (Bool-cases (same j k)) [
  | inl e ↦
      let p : w ≡ v = some_eq (rw e at h) in
      subst (λ (x : Bytes). P x v) (same→eq j k e) (subst (λ x. P j x) p ps.0)
  | inr e ↦ lookup-All P k m v ps.1 (rw e at h)
]
