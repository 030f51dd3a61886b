-- ===== src/Base/Replace.antt =====
-- `strings.ReplaceAll` of Go's standard library.
use Prim.Native.Nat.{ℕ, zero, suc, ◌-◌}
use mathlib.Core.Path.{◌≡◌, refl}
use mathlib.Core.Bool.{Bool, true, false, ◌&&◌}
use mathlib.Core.List.{[], ◌∷◌, ◌++◌}
use native.Mathlib.Omega.{arith}
use stowmark.Base.Tests.{◌==◌, ltb, leb, if◌then◌else◌}
use stowmark.Base.Lists.{length}
use stowmark.Base.Text.{Bytes}

-- `strings.HasPrefix(s, p)`, the prefix first
abbrev pub starts_with : Bytes → Bytes → Bool
starts_with [] s = true
starts_with (p ∷ ps) [] = false
starts_with (p ∷ ps) (x ∷ xs) = p == x && starts_with ps xs

pub starts_with-append : (p s : Bytes) → starts_with p (p ++ s) ≡ true
starts_with-append [] s = refl
starts_with-append (x ∷ p) s = ground (arith, starts_with-append p s)

-- The bytes left over of a match are passed over, and then the search goes on.
pub replace_from : Bytes → Bytes → ℕ → Bytes → Bytes
replace_from old new skip [] = []
replace_from old new (suc skip) (x ∷ xs) = replace_from old new skip xs
replace_from old new zero (x ∷ xs) =
    let hit = starts_with old (x ∷ xs) in
    let rest = replace_from old new (if hit then length old - 1 else 0) xs in
    if hit then new ++ rest else x ∷ rest

-- An empty `old` matches before each rune and at the end: bytes 128 to 191 continue a rune.
pub insert_at_runes : Bytes → Bytes → Bytes
insert_at_runes new [] = new
insert_at_runes new (x ∷ xs) =
    let rest = x ∷ insert_at_runes new xs in if leb 128 x && ltb x 192 then rest else new ++ rest

unfoldable pub replace_all : Bytes → Bytes → Bytes → Bytes
unfolding replace_from insert_at_runes
replace_all s [] new = insert_at_runes new s
replace_all s (o ∷ old) new = replace_from (o ∷ old) new 0 s

replace_from-skip :
    (old new p s : Bytes) → replace_from old new (length p) (p ++ s) ≡ replace_from old new 0 s
unfolding replace_from
replace_from-skip old new [] s = refl
replace_from-skip old new (x ∷ p) s = replace_from-skip old new p s

-- A leading occurrence is replaced, and the search goes on behind it.
pub replace_all-prefix :
    (o : ℕ) (old new s : Bytes)
    → replace_all ((o ∷ old) ++ s) (o ∷ old) new ≡ new ++ replace_all s (o ∷ old) new
unfolding replace_all
replace_all-prefix o old new s =
    let one_less : suc (length old) - 1 ≡ length old = omega arith in
    rw (starts_with-append (o ∷ old) s) (rw one_less (rw (replace_from-skip (o ∷ old) new old s)))

-- `old` stands at no position of the text.
abbrev pub IsAbsent : Bytes → Bytes → Type 0
IsAbsent old [] = Unit {0}
IsAbsent old (x ∷ xs) = (starts_with old (x ∷ xs) ≡ false) × IsAbsent old xs

-- Where `old` does not occur nothing is replaced.
pub replace_all_absent :
    (s : Bytes) (o : ℕ) (old new : Bytes) → IsAbsent (o ∷ old) s → replace_all s (o ∷ old) new ≡ s
unfolding replace_all
replace_all_absent [] o old new h = refl
replace_all_absent (x ∷ xs) o old new h = rw (h.0) (rw (replace_all_absent xs o old new h.1))
