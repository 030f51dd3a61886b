-- ===== src/Storage/Objects/Reads.antt =====
-- internal/infra/model/reader.go: `io.Copy` from a reader that looks at the context before each read.
use stowmark.Base.{
  ℕ, zero, suc, ◌+◌, ◌*◌, ◌≡◌, ◌≢◌, ◌<◌, ◌≤◌, ◌⊎◌, inl, inr, subst, refl, ap, ◌∙◌, String, Bytes,
  Bool, true, false, [], ◌∷◌, ◌++◌, Result, ok, err, panics, take, drop, take-append-drop, length,
  arith, lookup, Option, none, some,
}
use stowmark.Base.Exec.{Exec, Ctx, ◌>>◌, ctx_err, ctx_check, continue}
use stowmark.Storage.Files.{Fs, Fault, call, fault, outcome}
use stowmark.Storage.Files.Keeps.{Kept, Keeps, Keeps-then, Keeps-ctx_err, Keeps-call}
use stowmark.Cipher.Stream.{drop_shorter}

abbrev pub buffer_size : ℕ
buffer_size = 32 * 1024

-- What was read, the error that ended it if one did, and how often the context was looked at.
pub record Read : Type 0 where
  pub text : Bytes
  pub outcome : Result (Unit {0})
  pub checks : ℕ

abbrev pub ended : Result (Unit {0}) → ℕ → Read
ended r n = record { text = []; outcome = r; checks = n }

abbrev pub and_then : Bytes → Read → Read
and_then b r = record r { text = b ++ r.text }

-- `Read` of a `ContextReader`: the test, and the read.
abbrev pub read_next : Ctx → ℕ → Exec Fs (Unit {0})
read_next ctx n = ctx_err ctx n >> call

-- After a read: the end, or a buffer of bytes and the reads that follow.
abbrev pub read_on : ℕ → Bytes → Result (Unit {0}) → Fs → Read × Fs → Read × Fs
read_on n [] (ok _) s rest = (ended (ok tt) (suc n), s)
read_on n (b ∷ bs) (ok _) s rest = (and_then (take buffer_size (b ∷ bs)) rest.0, rest.1)
read_on n text (err e) s rest = (ended (err e) (suc n), s)
read_on n text (panics p) s rest = (ended (panics p) (suc n), s)

-- The reads, the last of which finds the end, on fuel.
unfoldable pub reads : ℕ → Ctx → ℕ → Bytes → Fs → Read × Fs
reads zero ctx n text s = (ended (panics "out of fuel") n, s)
reads (suc fuel) ctx n text s =
    let (r, t) = read_next ctx n s in
    read_on n text r t (reads fuel ctx (suc n) (drop buffer_size text) t)

abbrev pub read_all : Ctx → ℕ → Bytes → Fs → Read × Fs
read_all ctx n text s = reads (suc (length text)) ctx n text s

after_read :
    (n : ℕ) (text : Bytes) (r : Result (Unit {0})) (s : Fs) (rest : Read × Fs)
    → (rest.0.outcome ≡ ok tt → rest.0.text ≡ drop buffer_size text)
    → (read_on n text r s rest).0.outcome ≡ ok tt
    → (read_on n text r s rest).0.text ≡ text
after_read n [] (ok _) s rest q e = refl
after_read n (b ∷ bs) (ok _) s rest q e =
    ap (λ z. take buffer_size (b ∷ bs) ++ z) (q e) ∙ take-append-drop buffer_size (b ∷ bs)
after_read n [] (err x) s rest q e = cc
after_read n (b ∷ bs) (err x) s rest q e = cc
after_read n [] (panics x) s rest q e = cc
after_read n (b ∷ bs) (panics x) s rest q e = cc

-- Reads that end without an error have given the whole text.
pub reads-text :
    (fuel : ℕ) (ctx : Ctx) (n : ℕ) (text : Bytes) (s : Fs)
    → (reads fuel ctx n text s).0.outcome ≡ ok tt
    → (reads fuel ctx n text s).0.text ≡ text
unfolding reads
reads-text zero ctx n text s e = cc
reads-text (suc fuel) ctx n text s e =
    after_read n text (read_next ctx n s).0 (read_next ctx n s).1
      (reads fuel ctx (suc n) (drop buffer_size text) (read_next ctx n s).1)
      (reads-text fuel ctx (suc n) (drop buffer_size text) (read_next ctx n s).1) e

next-calm : (ctx : Ctx) (n : ℕ) (s : Fs) (p : String) → (read_next ctx n s).0 ≢ panics p
next-calm ctx n s p e = go (ctx n) e
  where
    ended : (o : Option Fault) → outcome o ≢ panics p
    ended none e = cc
    ended (some f) e = cc

    go : (b : Bool) → (continue (ctx_check b) (λ _. call) s).0 ≡ panics p → ⊥
    go true e = cc
    go false e = ended (fault s).0 e

-- Reads with more fuel than there are bytes do not run out of it.
pub reads-calm :
    (fuel : ℕ) (ctx : Ctx) (n : ℕ) (text : Bytes) (s : Fs)
    → length text < fuel
    → (p : String) → (reads fuel ctx n text s).0.outcome ≢ panics p
unfolding reads
reads-calm zero ctx n text s enough p = absurd (omega (arith, enough))
reads-calm (suc fuel) ctx n text s enough p =
    go text enough (read_next ctx n s).0 (read_next ctx n s).1 (next-calm ctx n s)
      (λ t l. reads-calm fuel ctx (suc n) (drop buffer_size text) t l p)
  where
    go :
        (text : Bytes)
        → length text < suc fuel
        → (r : Result (Unit {0})) (t : Fs) → ((p : String) → r ≢ panics p)
        → ((t : Fs)
            → length (drop buffer_size text) < fuel
            → (reads fuel ctx (suc n) (drop buffer_size text) t).0.outcome ≢ panics p)
        → (read_on n text r t (reads fuel ctx (suc n) (drop buffer_size text) t)).0.outcome
          ≢ panics p
    go [] enough (ok _) t calm q e = cc
    go (b ∷ bs) enough (ok _) t calm q e =
        q t (omega (arith, enough, drop_shorter buffer_size b bs refl)) e
    go [] enough (err x) t calm q e = cc
    go (b ∷ bs) enough (err x) t calm q e = cc
    go text enough (panics x) t calm q e = calm x refl

module _ (P : Bytes → Bool) where
  Keeps-read_next : (ctx : Ctx) (n : ℕ) → Keeps P (read_next ctx n)
  Keeps-read_next ctx n = Keeps-then P _ _ (Keeps-ctx_err P ctx n) (Keeps-call P)

  pub Kept-reads :
      (fuel : ℕ) (ctx : Ctx) (n : ℕ) (text : Bytes) (s : Fs) → Kept P s (reads fuel ctx n text s).1
  unfolding reads
  Kept-reads zero ctx n text s k p = refl
  Kept-reads (suc fuel) ctx n text s k p =
      go text (read_next ctx n s).0 (read_next ctx n s).1
        (reads fuel ctx (suc n) (drop buffer_size text) (read_next ctx n s).1)
        (Kept-reads fuel ctx (suc n) (drop buffer_size text) (read_next ctx n s).1 k p)
      ∙ (Keeps-read_next ctx n).at s k p
    where
      go :
          (text : Bytes) (r : Result (Unit {0})) (t : Fs) (rest : Read × Fs)
          → lookup k rest.1.files ≡ lookup k t.files
          → lookup k (read_on n text r t rest).1.files ≡ lookup k t.files
      go [] (ok _) t rest q = refl
      go (b ∷ bs) (ok _) t rest q = q
      go [] (err e) t rest q = refl
      go (b ∷ bs) (err e) t rest q = refl
      go [] (panics e) t rest q = refl
      go (b ∷ bs) (panics e) t rest q = refl

length-drop : (n : ℕ) (text : Bytes) → length text ≤ length (drop n text) + n
length-drop zero text = omega arith
length-drop (suc n) [] = omega arith
length-drop (suc n) (b ∷ text) = omega (arith, length-drop n text)

-- Only a read without an error lets the reads go on.
went-on :
    (n : ℕ) (text : Bytes) (r : Result (Unit {0})) (t : Fs) (rest : Read × Fs)
    → (read_on n text r t rest).0.outcome ≡ ok tt
    → (r ≡ ok tt) × ((text ≡ []) ⊎ (rest.0.outcome ≡ ok tt))
went-on n [] (ok _) t rest e = (refl, inl refl)
went-on n (b ∷ bs) (ok _) t rest e = (refl, inr e)
went-on n [] (err x) t rest e = cc
went-on n (b ∷ bs) (err x) t rest e = cc
went-on n [] (panics x) t rest e = cc
went-on n (b ∷ bs) (panics x) t rest e = cc

next-done : (ctx : Ctx) (n : ℕ) (s : Fs) → ctx n ≡ true → (read_next ctx n s).0 ≢ ok tt
next-done ctx n s done e = go (ctx n) done e
  where
    go : (b : Bool) → b ≡ true → (continue (ctx_check b) (λ _. call) s).0 ≡ ok tt → ⊥
    go true d e = cc
    go false d e = cc

-- Where the context is done at a check that comes before the text was left behind, the reads do
-- not end without an error.
reads-done :
    (fuel : ℕ) (ctx : Ctx) (n k : ℕ) (text : Bytes) (s : Fs)
    → ctx (n + k) ≡ true
    → k * buffer_size ≤ length text
    → (reads fuel ctx n text s).0.outcome ≢ ok tt
unfolding reads
reads-done zero ctx n k text s done more e = cc
reads-done (suc fuel) ctx n zero text s done more e =
    next-done ctx n s (subst (λ i. ctx i ≡ true) (omega arith) done)
      (went-on n text (read_next ctx n s).0 (read_next ctx n s).1
        (reads fuel ctx (suc n) (drop buffer_size text) (read_next ctx n s).1) e).0
reads-done (suc fuel) ctx n (suc k) text s done more e =
    let rest = reads fuel ctx (suc n) (drop buffer_size text) (read_next ctx n s).1 in
    elim (went-on n text (read_next ctx n s).0 (read_next ctx n s).1 rest e).1 [
      | inl empty ↦ absurd (omega (arith, more, ap length empty))
      | inr on ↦
          reads-done fuel ctx (suc n) k (drop buffer_size text) (read_next ctx n s).1
            (subst (λ i. ctx i ≡ true) (omega arith) done)
            (omega (arith, more, length-drop buffer_size text)) on
    ]

-- A copy from a reader that looks at the context before each read ends; it has read the whole text if
-- it ends without an error; and it ends with one if the context is done at a check before which the
-- buffers that were read hold no more than the text.
pub read_all_lem :
    (ctx : Ctx) (n : ℕ) (text : Bytes) (s : Fs)
    → ((p : String) → (read_all ctx n text s).0.outcome ≢ panics p)
      × ((read_all ctx n text s).0.outcome ≡ ok tt → (read_all ctx n text s).0.text ≡ text)
      × ((k : ℕ)
          → ctx (n + k) ≡ true
          → k * buffer_size ≤ length text
          → (read_all ctx n text s).0.outcome ≢ ok tt)
read_all_lem ctx n text s = (
  reads-calm (suc (length text)) ctx n text s (omega arith),
  reads-text (suc (length text)) ctx n text s,
  λ k. reads-done (suc (length text)) ctx n k text s,
)
