-- ===== src/Base/Int.antt =====
-- Go's `int` where a value may be negative. `negsuc n` is -(n + 1).
use Prim.Native.Nat.{ℕ}
use mathlib.Core.Bool.{Bool}
use stowmark.Base.Tests.{ltb}

pub data ℤ : Type 0 where
  pos : ℕ → ℤ
  negsuc : ℕ → ℤ

abbrev pub ltb_ℤ : ℤ → ℤ → Bool
ltb_ℤ (ℤ.pos a) (ℤ.pos b) = ltb a b
ltb_ℤ (ℤ.pos a) (ℤ.negsuc b) = Bool.false
ltb_ℤ (ℤ.negsuc a) (ℤ.pos b) = Bool.true
ltb_ℤ (ℤ.negsuc a) (ℤ.negsuc b) = ltb b a
