-- ===== src/Base/Exec.antt =====
-- Calls that read and change a state and may fail. What was done before the failure stays done.
use stowmark.Base.Errors.{Err, Result, ok, err, panics}
use Prim.Native.String.{String}
use Prim.Native.Nat.{ℕ}
use mathlib.Core.Bool.{Bool, true, false}
use mathlib.Core.Path.{◌≡◌, refl, ap, ap₂}
use mathlib.Core.Logic.{◌≢◌}
use native.Mathlib.Omega.{arith}

abbrev pub Exec : Type 0 → Type 0 → Type 0
Exec W A = W → Result A × W

abbrev pub pure : {W A : Type 0} → A → Exec W A
pure a w = (ok a, w)

abbrev pub raise : {W A : Type 0} → Err → Exec W A
raise e w = (err e, w)

abbrev pub panic : {W A : Type 0} → String → Exec W A
panic p w = (panics p, w)

abbrev pub lift : {W A : Type 0} → Result A → Exec W A
lift r w = (r, w)

abbrev pub continue : {W A B : Type 0} → Result A → (A → Exec W B) → Exec W B
continue (ok a) f w = f a w
continue (err e) f w = (err e, w)
continue (panics p) f w = (panics p, w)

infixl 5 ◌>>=◌ ◌>>◌
abbrev pub ◌>>=◌ : {W A B : Type 0} → Exec W A → (A → Exec W B) → Exec W B
◌>>=◌ m f w = let (r, w') = m w in continue r f w'

abbrev pub ◌>>◌ : {W B : Type 0} → Exec W (Unit {0}) → Exec W B → Exec W B
m >> k = m >>= λ _. k

-- `if err != nil { return fmt.Errorf("...: %w", err) }`
abbrev pub wrap_result : {A : Type 0} → String → Result A → Result A
wrap_result s (ok a) = ok a
wrap_result s (err e) = err (Err.wrapped s e)
wrap_result s (panics p) = panics p

abbrev pub wrapping : {W A : Type 0} → String → Exec W A → Exec W A
wrapping s m w = let (r, w') = m w in (wrap_result s r, w')

-- The outcome as a value: `r, err := m()` where the code goes on after an error. A panic goes on up.
abbrev pub caught : {A : Type 0} → Result A → Result (Result A)
caught (ok a) = ok (ok a)
caught (err e) = ok (err e)
caught (panics p) = panics p

abbrev pub attempt : {W A : Type 0} → Exec W A → Exec W (Result A)
attempt m w = let (r, w') = m w in (caught r, w')

-- A `context.Context`: whether it is done at the n-th check that one operation makes.
abbrev pub Ctx : Type 0
Ctx = ℕ → Bool

abbrev pub background : Ctx
background n = false

abbrev pub ctx_check : Bool → Result (Unit {0})
ctx_check true = err Err.context_done
ctx_check false = ok tt

-- `if err := ctx.Err(); err != nil { return err }`, the n-th check
abbrev pub ctx_err : {W : Type 0} → Ctx → ℕ → Exec W (Unit {0})
ctx_err ctx n = lift (ctx_check (ctx n))

-- Inversion of a chain that returned a value: every call in it did.
module _ {W A B : Type 0} where
  pub continue-ok :
      (r : Result A) (f : A → Exec W B) (w : W) {b : B} {v : W}
      → continue r f w ≡ (ok b, v)
      → (a : A) × (r ≡ ok a) × (f a w ≡ (ok b, v))
  continue-ok (ok a) f w h = (a, refl, h)
  continue-ok (err e) f w h = ground arith
  continue-ok (panics p) f w h = ground arith

  pub bind-ok {ℓ} :
      {P : Type ℓ} (m : Exec W A) (f : A → Exec W B) (w : W) {b : B} {v : W}
      → (m >>= f) w ≡ (ok b, v)
      → ((a : A) (u : W) → m w ≡ (ok a, u) → f a u ≡ (ok b, v) → P)
      → P
  bind-ok m f w h k =
      let (a, e, t) = continue-ok (m w).0 f (m w).1 h in k a (m w).1 (ap (λ r. (r, (m w).1)) e) t

pub caught-ok :
    {A : Type 0} (r : Result A) {o : Result A}
    → caught r ≡ ok o
    → (r ≡ o) × ((p : String) → o ≢ panics p)
caught-ok (ok a) h = (ground arith, λ p e. ground arith)
caught-ok (err e) h = (ground arith, λ p x. ground arith)
caught-ok (panics p) h = ground arith

-- What was tried had the outcome that is looked at, and did not panic.
pub attempt-ok :
    {W A : Type 0} (m : Exec W A) (w : W) {o : Result A} {u : W}
    → attempt m w ≡ (ok o, u)
    → ((m w).0 ≡ o) × ((m w).1 ≡ u) × ((p : String) → o ≢ panics p)
attempt-ok m w h = let c = caught-ok (m w).0 (ap (λ p. p.0) h) in (c.0, ap (λ p. p.1) h, c.1)

pub wrap_result-ok :
    {A : Type 0} (s : String) (r : Result A) {a : A} → wrap_result s r ≡ ok a → r ≡ ok a
wrap_result-ok s (ok a) h = h
wrap_result-ok s (err e) h = cc
wrap_result-ok s (panics p) h = cc

pub wrapping-ok :
    {W A : Type 0} (s : String) (m : Exec W A) (w : W) {a : A} {v : W}
    → wrapping s m w ≡ (ok a, v)
    → m w ≡ (ok a, v)
wrapping-ok s m w h =
    ap₂ (λ r u. (r, u)) (wrap_result-ok s (m w).0 (ap (λ z. z.0) h)) (ap (λ z. z.1) h)

pub not_raised : {A W : Type 0} {e : Err} {u v : W} {a : A} → raise e u ≡ (ok a, v) → ⊥
not_raised h = ground arith
