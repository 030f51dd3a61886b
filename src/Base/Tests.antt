-- ===== src/Base/Tests.antt =====
-- Boolean tests on native numbers, `if`, and Go's 64-bit integers.
use Prim.Native.Nat.{ℕ, ◌+◌, ◌-◌, ◌%◌, ◌^◌, compare, Ordering}
use mathlib.Core.Path.{◌≡◌, refl}
use mathlib.Core.Logic.{◌⊎◌, inl, inr, ◌↔◌}
use mathlib.Core.Bool.{Bool, true, false}
use native.Mathlib.Omega.{arith}

abbrev pub ltb : ℕ → ℕ → Bool
ltb a b = elim (compare a b) [ Ordering.lt ↦ true | _ ↦ false ]

abbrev pub leb : ℕ → ℕ → Bool
leb a b = elim (compare a b) [ Ordering.gt ↦ false | _ ↦ true ]

infix 50 ◌==◌
abbrev pub ◌==◌ : ℕ → ℕ → Bool
a == b = elim (compare a b) [ Ordering.eq ↦ true | _ ↦ false ]

infix 1 if◌then◌else◌
abbrev pub if◌then◌else◌ {ℓ} : {A : Type ℓ} → Bool → A → A → A
if true then x else y = x
if false then x else y = y

pub ==_iff : (a b : ℕ) → (a == b ≡ true) ↔ (a ≡ b)
==_iff a b = (λ h. ground arith, λ h. ground arith)

-- To split on a computed value and keep the equation.
pub Bool-cases : (b : Bool) → (b ≡ true) ⊎ (b ≡ false)
Bool-cases true = inl refl
Bool-cases false = inr refl

-- An `int64` or `uint64` is its bit pattern, a number below 2^64; sums wrap around.
abbrev pub word_size : ℕ
word_size = 2 ^ 64

abbrev pub add64 : ℕ → ℕ → ℕ
add64 a b = (a + b) % word_size

-- a - b of bit patterns
abbrev pub sub64 : ℕ → ℕ → ℕ
sub64 a b = (a + word_size - b) % word_size

-- `<` of two `int64`: the sign bit turned over, the patterns compare as numbers.
abbrev pub signed_key : ℕ → ℕ
signed_key a = (a + 2 ^ 63) % word_size

abbrev pub lt64 : ℕ → ℕ → Bool
lt64 a b = ltb (signed_key a) (signed_key b)

abbrev pub le64 : ℕ → ℕ → Bool
le64 a b = leb (signed_key a) (signed_key b)
