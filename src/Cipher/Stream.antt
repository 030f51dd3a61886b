-- ===== src/Cipher/Stream.antt =====
-- `writeFull` of internal/infra/encrypt/aesgc_handler.go: a writer may take a part of the bytes.
use stowmark.Base.{
  ℕ, zero, suc, ◌≤◌, ◌≡◌, ◌≢◌, String, ◌∙◌, refl, sym, ap, Bytes, true, false, ◌==◌, Bool-cases,
  inl, inr, [], ◌∷◌, ◌++◌, Err, Result, ok, err, length, take, drop, take-append-drop, arith,
  panics,
}
use stowmark.Base.Exec.{Exec, ◌>>=◌, pure, raise, panic, continue}

module _ {W : Type 0} (write : Bytes → Exec W ℕ) where
  -- On fuel: a round that goes on has written a byte.
  unfoldable pub write_full : ℕ → Bytes → Exec W (Unit {0})
  write_full fuel [] = pure tt
  write_full zero (b ∷ text) = panic "out of fuel"
  write_full (suc fuel) (b ∷ text) = write (b ∷ text) >>= λ n. elim (n == 0) [
    | true ↦ raise (Err.failure "short write")
    | false ↦ write_full fuel (drop n (b ∷ text))
  ]

  -- A writer that keeps its contract: it reports no more bytes than it was given, and those that it
  -- reports are at the end of what it holds.
  pub record IsWriter (held : W → Bytes) : Type 0 where
    pub count : (b : Bytes) (w : W) {n : ℕ} {v : W} → write b w ≡ (ok n, v) → n ≤ length b
    pub holds :
        (b : Bytes) (w : W) {n : ℕ} {v : W} → write b w ≡ (ok n, v) → held v ≡ held w ++ take n b
    pub calm : (b : Bytes) (w : W) (p : String) → (write b w).0 ≢ panics p

pub drop_shorter :
    (n : ℕ) (b : ℕ) (text : Bytes) → (n == 0) ≡ false → length (drop n (b ∷ text)) ≤ length text
drop_shorter zero b text h = cc
drop_shorter (suc n) b text h = drop_le n text
  where
    drop_le : (n : ℕ) (xs : Bytes) → length (drop n xs) ≤ length xs
    drop_le zero xs = omega arith
    drop_le (suc n) [] = omega arith
    drop_le (suc n) (x ∷ xs) = omega (arith, drop_le n xs)

pub append_assoc : (xs ys zs : Bytes) → (xs ++ ys) ++ zs ≡ xs ++ (ys ++ zs)
append_assoc [] ys zs = refl
append_assoc (x ∷ xs) ys zs = ap (λ r. x ∷ r) (append_assoc xs ys zs)

pub append_nil : (xs : Bytes) → xs ++ [] ≡ xs
append_nil [] = refl
append_nil (x ∷ xs) = ap (λ r. x ∷ r) (append_nil xs)

module _ {W : Type 0} (write : Bytes → Exec W ℕ) (held : W → Bytes)
    (law : IsWriter write held) where
  -- A run that ends well has written all of the text, and no run ends for want of fuel.
  abbrev Written : Bytes → W → Result (Unit {0}) × W → Type 0
  Written text w (r, v) = ((p : String) → r ≢ panics p) × (r ≡ ok tt → held v ≡ held w ++ text)

  after_write :
      (fuel b : ℕ) (text : Bytes) (w : W) (r : Result ℕ) (u : W)
      → write (b ∷ text) w ≡ (r, u)
      → ((n : ℕ) (v : W)
          → (n == 0) ≡ false
          → Written (drop n (b ∷ text)) v (write_full write fuel (drop n (b ∷ text)) v))
      → Written (b ∷ text) w (
          continue r
            (λ n. elim (n == 0) [
              | true ↦ raise (Err.failure "short write")
              | false ↦ write_full write fuel (drop n (b ∷ text))
            ])
            u)
  after_write fuel b text w (err e) u h rest = (λ p e. ground arith, λ e. ground arith)
  after_write fuel b text w (panics p) u h rest = absurd (law.calm (b ∷ text) w p (ap (λ z. z.0) h))
  after_write fuel b text w (ok n) u h rest = elim (Bool-cases (n == 0)) [
    | inl e ↦ rw (e, continue) (λ p e. ground arith, λ e. ground arith)
    | inr e ↦
        rw (e, continue)
          (
            (rest n u e).0,
            λ k.
                (rest n u e).1 k
                ∙ ap (λ x. x ++ drop n (b ∷ text)) (law.holds (b ∷ text) w h)
                ∙ append_assoc (held w) (take n (b ∷ text)) (drop n (b ∷ text))
                ∙ ap (λ x. held w ++ x) (take-append-drop n (b ∷ text)),
          )
  ]

  written :
      (fuel : ℕ) (text : Bytes) (w : W)
      → length text ≤ fuel
      → Written text w (write_full write fuel text w)
  unfolding write_full
  written fuel [] w enough = (λ p e. ground arith, λ e. sym (append_nil (held w)))
  written zero (b ∷ text) w enough = absurd (omega (arith, enough))
  written (suc fuel) (b ∷ text) w enough =
      after_write fuel b text w (write (b ∷ text) w).0 (write (b ∷ text) w).1 refl
        λ n v e. written fuel (drop n (b ∷ text)) v (omega (arith, enough, drop_shorter n b text e))

  -- To a writer that keeps its contract, with a fuel of as many rounds as there are bytes: the loop
  -- does not run out of fuel, and if it returns without an error the writer holds the whole text
  -- after what it held before.
  pub write_full-Written :
      (text : Bytes) (w : W)
      → ((p : String) → (write_full write (length text) text w).0 ≢ panics p)
        × ((write_full write (length text) text w).0 ≡ ok tt
            → held (write_full write (length text) text w).1 ≡ held w ++ text)
  write_full-Written text w = written (length text) text w (omega arith)
