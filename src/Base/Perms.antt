-- ===== src/Base/Perms.antt =====
-- Permutations and native lengths.
use mathlib.Core.List.{Perm, Permᴰ}
use mathlib.Core.Logic.{∥∥₁_elim}
use mathlib.Core.List.{List, [], ◌∷◌}
use mathlib.Core.Path.{◌≡◌, refl, ap, ap₂, ◌∙◌}
use mathlib.Core.Bool.{Bool, true, ◌&&◌}
use native.Mathlib.Omega.{arith}
use Prim.Native.Nat.{suc}
use native.Mathlib.Nat.{ℕ_set}
use stowmark.Base.Lists.{length}

Bool_set : IsSet Bool
Bool_set = hlevel

module _ {A : Type 0} where
  length_permᴰ : {xs ys : List A} → Permᴰ xs ys → length xs ≡ length ys
  length_permᴰ Permᴰ.nil = refl
  length_permᴰ (Permᴰ.cons e p) = ap suc (length_permᴰ p)
  length_permᴰ (Permᴰ.swap e f) = refl
  length_permᴰ (Permᴰ.trans p q) = length_permᴰ p ∙ length_permᴰ q

  pub length_perm : (xs ys : List A) → Perm xs ys → length xs ≡ length ys
  length_perm xs ys p = ∥∥₁_elim p (ℕ_set (length xs) (length ys)) length_permᴰ

  -- A test that every item passes.
  abbrev pub all_pass : (A → Bool) → List A → Bool
  all_pass p [] = true
  all_pass p (x ∷ xs) = p x && all_pass p xs

  all_pass_permᴰ : (p : A → Bool) {xs ys : List A} → Permᴰ xs ys → all_pass p xs ≡ all_pass p ys
  all_pass_permᴰ p Permᴰ.nil = refl
  all_pass_permᴰ p (Permᴰ.cons e r) = ap₂ (λ a b. p a && b) e (all_pass_permᴰ p r)
  all_pass_permᴰ p (Permᴰ.swap {a = a} {b = b} {a' = a'} {b' = b'} {l = l} e f) =
      ground (arith, ap p e, ap p f)
  all_pass_permᴰ p (Permᴰ.trans q r) = all_pass_permᴰ p q ∙ all_pass_permᴰ p r

  pub all_pass_perm : (p : A → Bool) (xs ys : List A) → Perm xs ys → all_pass p xs ≡ all_pass p ys
  all_pass_perm p xs ys r = ∥∥₁_elim r (Bool_set (all_pass p xs) (all_pass p ys)) (all_pass_permᴰ p)
