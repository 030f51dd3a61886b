-- ===== src/Cipher/Laws.antt =====
-- What the encoder of internal/infra/encrypt/aesgc_handler.go writes when it is closed, and that it
-- decrypts again.
use stowmark.Base.{
  ℕ, zero, suc, ◌≤◌, ◌≡◌, ◌≢◌, refl, sym, ap, subst, ◌∙◌, String, Bytes, Bool, true, false, ◌||◌,
  ◌==◌, ltb, same_refl, lookup, Option, none, some, List, [], ◌∷◌, ◌++◌, Err, Result, ok, err,
  panics, length, take, drop, arith, length-append,
}
use stowmark.Base.Exec.{◌>>=◌, pure, bind-ok, wrapping, wrapping-ok}
use stowmark.Cipher.{Aead, IsAead, nonce_size, finish, plain}
use stowmark.Cipher.Stream.{write_full, IsWriter, write_full-Written, append_assoc}
use stowmark.Storage.Files.{Fs, Fault, change, changed, fault, put, content, write, random}
use stowmark.Storage.Files.Keeps.{
  Keeps, Keeps-random, Keeps-bind, Keeps-then, Keeps-wrapping, Keeps-write_full, fault-files,
}
use stowmark.Storage.Files.Laws.{lookup-put, random-draw}

pub take_all : (b : Bytes) → take (length b) b ≡ b
take_all [] = refl
take_all (x ∷ b) = ap (λ z. x ∷ z) (take_all b)

take_first : (n : ℕ) (a b : Bytes) → length a ≡ n → take n (a ++ b) ≡ a
take_first zero [] b e = refl
take_first zero (x ∷ a) b e = absurd (omega (arith, e))
take_first (suc n) [] b e = absurd (omega (arith, e))
take_first (suc n) (x ∷ a) b e = ap (λ z. x ∷ z) (take_first n a b (omega (arith, e)))

drop_first : (n : ℕ) (a b : Bytes) → length a ≡ n → drop n (a ++ b) ≡ b
drop_first zero [] b e = refl
drop_first zero (x ∷ a) b e = absurd (omega (arith, e))
drop_first (suc n) [] b e = absurd (omega (arith, e))
drop_first (suc n) (x ∷ a) b e = drop_first n a b (omega (arith, e))

abbrev pub held_at : Bytes → Fs → Bytes
held_at path s = content path s.files

pub content-put : (p c : Bytes) (m : List (Bytes × Bytes)) → content p (put p c m) ≡ c
content-put p c m =
    let e : lookup p (put p c m) ≡ some c = lookup-put p c p m ∙ rw (same_refl p) refl in
    ap (λ (z : Option Bytes). elim z [ none ↦ [] | some c ↦ c ]) e

number : Result ℕ → ℕ
number (ok n) = n
number _ = 0

-- A write that succeeds has appended all bytes.
pub write-ok :
    (p b : Bytes) (s : Fs) {n : ℕ} {v : Fs}
    → write p b s ≡ (ok n, v)
    → (n ≡ length b) × (v.files ≡ put p (content p s.files ++ b) s.files)
unfolding write number
write-ok p b s h =
    bind-ok (change (λ m. put p (content p m ++ b) m) (λ n m. put p (content p m ++ take n b) m)) _
      s h
      λ _ u e1 e2. (
        sym (ap (λ z. number z.0) e2),
        ap (λ z. z.1.files) (sym e2) ∙ go (fault s).0 (fault s).1 (fault-files s) e1,
      )
  where
    go :
        (o : Option Fault) (t : Fs)
        → t.files ≡ s.files
        → {x : Unit {0}} {u : Fs}
        → changed (λ m. put p (content p m ++ b) m) (λ n m. put p (content p m ++ take n b) m) o t
          ≡ (ok x, u)
        → u.files ≡ put p (content p s.files ++ b) s.files
    go none t f e = ap (λ z. z.1.files) (sym e) ∙ ap (λ m. put p (content p m ++ b) m) f
    go (some x) t f e = absurd (impossible (ap (λ z. z.0) e))
      where
        impossible : {A : Type 0} {x : Err} {a : A} → err x ≡ ok a → ⊥
        impossible e = cc

write_calm : (p b : Bytes) (s : Fs) (x : String) → (write p b s).0 ≢ panics x
unfolding write
write_calm p b s x e = go (fault s).0 (fault s).1 e
  where
    go :
        (o : Option Fault) (t : Fs)
        → ((changed (λ m. put p (content p m ++ b) m) (λ n m. put p (content p m ++ take n b) m) o
              >>= λ _. pure (length b))
            t).0
          ≡ panics x
        → ⊥
    go none t e = cc
    go (some f) t e = cc

pub write-IsWriter : (p : Bytes) → IsWriter (write p) (held_at p)
write-IsWriter p = record {
  count = λ b w h. omega (arith, (write-ok p b w h).0);
  holds = λ b w {n} h.
      let (e, f) = write-ok p b w h in
      ap (content p) f
      ∙ content-put p (content p w.files ++ b) w.files
      ∙ ap (λ x. content p w.files ++ x) (sym (subst (λ k. take k b ≡ b) (sym e) (take_all b)));
  calm = write_calm p;
}

-- What `write_full` to a file appended.
pub write_full-ok :
    (p b : Bytes) (s : Fs) {x : Unit {0}} {v : Fs}
    → write_full (write p) (length b) b s ≡ (ok x, v)
    → content p v.files ≡ content p s.files ++ b
write_full-ok p b s h =
    ap (held_at p) (ap (λ z. z.1) (sym h))
    ∙ (write_full-Written (write p) (held_at p) (write-IsWriter p) b s).1 (ap (λ z. z.0) h)

module _ (aead : Aead) (law : IsAead aead) where
  -- Closing the encoder appends a nonce and the sealed text.
  pub finish-ok :
      (path key text : Bytes) (s : Fs) {x : Unit {0}} {v : Fs}
      → finish aead path key text s ≡ (ok x, v)
      → (nonce : Bytes) × (length nonce ≡ nonce_size)
        × (content path v.files ≡ content path s.files ++ (nonce ++ aead.seal key nonce text))
  unfolding finish
  finish-ok path key text s h =
      bind-ok (wrapping "generate AES-GCM nonce" (random aead.draw nonce_size)) _ s h
        λ nonce u e1 h1.
          bind-ok (wrapping "write AES-GCM nonce" (write_full (write path) (length nonce) nonce)) _
            u h1
            λ _ t e2 h2.
              let r = wrapping-ok "generate AES-GCM nonce" (random aead.draw nonce_size) s e1 in
              let d = random-draw aead.draw nonce_size s r in
              let sealed = aead.seal key nonce text in
              let same_content : content path u.files ≡ content path s.files =
                ap (λ (z : Option Bytes). elim z [ none ↦ [] | some c ↦ c ])
                  (ap (λ z. lookup path z.1.files) (sym r)
                    ∙ (Keeps-random (λ _. true) aead.draw nonce_size).at s path refl) in
              (
                nonce,
                subst (λ b. length b ≡ nonce_size) (sym d.1) (law.draw_size nonce_size d.0),
                write_full-ok path sealed t (
                      wrapping-ok "write encrypted data"
                        (write_full (write path) (length sealed) sealed) t h2)
                    ∙ ap (λ c. c ++ sealed)
                        (write_full-ok path nonce u (
                            wrapping-ok "write AES-GCM nonce"
                              (write_full (write path) (length nonce) nonce) u e2)
                          ∙ ap (λ c. c ++ nonce) same_content)
                    ∙ append_assoc (content path s.files) nonce sealed,
              )

  -- A nonce and a text sealed with it decrypt, under a key of 32 bytes.
  pub plain-seal :
      (key nonce text : Bytes)
      → length key ≡ 32
      → length nonce ≡ nonce_size
      → plain aead key (nonce ++ aead.seal key nonce text) ≡ some text
  plain-seal key nonce text k n =
      let sealed = aead.seal key nonce text in
      rw (good_key (length key) k) (
        rw (long (nonce ++ sealed) (omega (arith, n, length-append nonce sealed))) (
          rw (take_first 12 nonce sealed n)
            (rw (drop_first 12 nonce sealed n) (law.opens key nonce text))))
    where
      good_key : (l : ℕ) → l ≡ 32 → (l == 16 || l == 24 || l == 32) ≡ true
      good_key l e = ground arith

      long : (b : Bytes) → 12 ≤ length b → ltb (length b) 12 ≡ false
      long b h = ground arith

-- Closing the encoder changes no other path.
pub Keeps-finish :
    (aead : Aead) (P : Bytes → Bool) (path : Bytes)
    → P path ≡ false
    → (key text : Bytes) → Keeps P (finish aead path key text)
unfolding finish
Keeps-finish aead P path free key text =
    Keeps-bind P _ _ (Keeps-wrapping P _ _ (Keeps-random P aead.draw nonce_size)) λ nonce.
      Keeps-then P _ _ (Keeps-wrapping P _ _ (Keeps-write_full P path free (length nonce) nonce))
        (Keeps-wrapping P _ _ (Keeps-write_full P path free _ (aead.seal key nonce text)))
