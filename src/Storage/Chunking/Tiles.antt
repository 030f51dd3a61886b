-- ===== src/Storage/Chunking/Tiles.antt =====
-- The chunks of a file cover it from its begin to its end.
use stowmark.Base.{
  ℕ, zero, suc, ◌+◌, ◌-◌, ◌^◌, ◌<◌, ◌≤◌, ◌≡◌, ◌∙◌, sym, subst, refl, ap, inl, inr, Bool-cases,
  Bytes, true, false, some, List, [], ◌∷◌, ◌++◌, Result, ok, add64, sub64, lt64, le64, ltb, min,
  if◌then◌else◌, arith,
}
use stowmark.Base.Exec.{Exec, Ctx, ctx_err, wrapping, pure, ◌>>=◌, bind-ok, wrapping-ok, not_raised}
use stowmark.Repository.Compression.{Compression}
use stowmark.Snapshot.Model.{Chunk}
use stowmark.Storage.Chunking.{
  Disk, FileInfo, finally, calculate_chunks, chunk_loop, current_size, calculate_reader_hash,
  section,
}

-- Chunks that follow one another from an offset to the end of a file, none empty or larger than the
-- chunk size, and smaller than it only at the end.
abbrev pub Tiles : ℕ → ℕ → ℕ → List Chunk → Type 0
Tiles size chunk offset [] = offset ≡ size
Tiles size chunk offset (c ∷ cs) =
    (c.offset ≡ offset)
    × (0 < c.size)
    × (c.size ≤ chunk)
    × (c.size < chunk → offset + c.size ≡ size)
    × Tiles size chunk (offset + c.size) cs

pub lt64_small : (a b : ℕ) → a < 2 ^ 63 → b < 2 ^ 63 → lt64 a b ≡ ltb a b
lt64_small a b p q = ground arith

pub sub64_small : (a b : ℕ) → a < 2 ^ 63 → b ≤ a → sub64 a b ≡ a - b
sub64_small a b p q = ground arith

pub add64_small : (a b : ℕ) → a + b < 2 ^ 63 → add64 a b ≡ a + b
add64_small a b p = ground arith

smaller : (r chunk : ℕ) → (if ltb r chunk then r else chunk) ≡ min chunk r
smaller r chunk = ground arith

-- The size of the chunk at an offset, as a number.
current_size_lem :
    (size chunk offset : ℕ)
    → size + chunk < 2 ^ 63
    → offset < size
    → current_size size chunk offset ≡ min chunk (size - offset)
current_size_lem size chunk offset bound inside =
    rw (sub64_small size offset (omega arith) (omega arith)) (
      rw (lt64_small (size - offset) chunk (omega arith) (omega arith))
        (smaller (size - offset) chunk))

one_more :
    (size chunk offset : ℕ) (hash : Bytes) (n : ℕ) (cs : List Chunk)
    → 0 < chunk
    → offset < size
    → n ≡ min chunk (size - offset)
    → Tiles size chunk (min (offset + chunk) size) cs
    → Tiles size chunk (min offset size) (record { hash = hash; offset = offset; size = n } ∷ cs)
one_more size chunk offset hash n cs positive inside e t = (
  omega arith,
  omega arith,
  omega arith,
  λ less. omega arith,
  subst (λ o. Tiles size chunk o cs) (omega arith) t,
)

append_assoc :
    {A : Type 0} (xs : List A) (y : A) (zs : List A) → (xs ++ y ∷ []) ++ zs ≡ xs ++ y ∷ zs
append_assoc [] y zs = refl
append_assoc (x ∷ xs) y zs = ap (λ r. x ∷ r) (append_assoc xs y zs)

append_nil : {A : Type 0} (xs : List A) → xs ++ [] ≡ xs
append_nil [] = refl
append_nil (x ∷ xs) = ap (λ r. x ∷ r) (append_nil xs)

abbrev the_ok : {A : Type 0} → Result A → A → A
the_ok (ok a) d = a
the_ok _ d = d

same_list : {A W : Type 0} {a b : List A} {u v : W} → pure a u ≡ (ok b, v) → b ≡ a ++ []
same_list {a = a} h = ap (λ z. the_ok z.0 a) (sym h) ∙ sym (append_nil a)

past : (offset size : ℕ) → ltb offset size ≡ false → min offset size ≡ size
past offset size h = ground arith

pub within : (offset size : ℕ) → ltb offset size ≡ true → offset < size
within offset size h = ground arith

pub beyond :
    (size chunk offset : ℕ)
    → size + chunk < 2 ^ 63
    → offset < size
    → add64 offset chunk < size + chunk
beyond size chunk offset bound inside = rw (add64_small offset chunk (omega arith)) (omega arith)

module _ {W Handle Writer : Type 0} (disk : Disk W Handle Writer) where
  loop-Tiles :
      (fuel : ℕ) (ctxs : ℕ → Ctx) (file : Handle) (comp : Compression) (size chunk offset : ℕ)
      (before out : List Chunk) (w v : W)
      → size + chunk < 2 ^ 63
      → 0 < chunk
      → offset < size + chunk
      → chunk_loop disk fuel ctxs file comp size chunk offset before w ≡ (ok out, v)
      → (cs : List Chunk) × (out ≡ before ++ cs) × Tiles size chunk (min offset size) cs
  unfolding chunk_loop
  loop-Tiles zero ctxs file comp size chunk offset before out w v bound positive near h =
      ground arith
  loop-Tiles (suc fuel) ctxs file comp size chunk offset before out w v bound positive near h =
      elim (Bool-cases (lt64 offset size)) [
        | inr e ↦
            let test = sym (lt64_small offset size (omega arith) (omega arith)) ∙ e in
            ([], same_list (rw e at h), past offset size test)
        | inl e ↦
            let inside =
              within offset size (sym (lt64_small offset size (omega arith) (omega arith)) ∙ e) in
            bind-ok (ctx_err (ctxs offset) 0) _ w (rw e at h) λ _ w1 e1 h1.
              bind-ok
                (wrapping "calculate chunk hash" (
                  calculate_reader_hash disk (ctxs offset)
                    (section file offset (current_size size chunk offset)) comp))
                _ w1 h1
                λ hash w2 e2 h2.
                  let step = add64_small offset chunk (omega arith) in
                  let (cs, p, t) =
                    loop-Tiles fuel ctxs file comp size chunk (add64 offset chunk) _ out w2 v bound
                      positive (beyond size chunk offset bound inside) h2 in
                  (
                    record { hash = hash; offset = offset; size = current_size size chunk offset }
                        ∷ cs,
                    p ∙ append_assoc before _ cs,
                    one_more size chunk offset hash _ cs positive inside
                        (current_size_lem size chunk offset bound inside)
                        (subst (λ o. Tiles size chunk (min o size) cs) step t),
                  )
      ]

  finally-ok :
      {A : Type 0} (m : Exec W A) (close : Exec W (Unit {0})) (w : W) {a : A} {v : W}
      → finally m close w ≡ (ok a, v)
      → m w ≡ (ok a, (m w).1)
  finally-ok m close w h = ap (λ z. (z.0, (m w).1)) h

  -- A file whose chunks were calculated is covered by them from its begin to its end, in order and
  -- without a gap: each has the chunk size but the last, which may be smaller, and none is empty.
  -- The size of the file is what the open file gives; it and the chunk size together, which is not
  -- zero, stay below 2^63.
  pub calculate_chunks-Tiles :
      (ctxs : ℕ → Ctx) (path : Bytes) (chunk : ℕ) (comp : Compression) (chunks : List Chunk)
      (w v : W)
      → 0 < chunk
      → ((file : Handle) (u u' : W) (info : FileInfo)
          → disk.files.stat file u ≡ (ok info, u')
          → info.size + chunk < 2 ^ 63)
      → calculate_chunks disk ctxs path chunk (some comp) w ≡ (ok chunks, v)
      → (file : Handle) × (u : W) × (u' : W) × (info : FileInfo) × (disk.files.open_file path w
          ≡ (ok file, u))
        × (disk.files.stat file u ≡ (ok info, u'))
        × Tiles info.size chunk 0 chunks
  unfolding calculate_chunks
  calculate_chunks-Tiles ctxs path chunk comp chunks w v positive bound h =
      elim (Bool-cases (le64 chunk 0)) [
        | inl e ↦ absurd (not_raised (rw e at h))
        | inr e ↦
            bind-ok (wrapping "open file" (disk.files.open_file path)) _ w (rw e at h)
              λ file u e1 h1.
                let inner =
                  finally-ok
                    (wrapping "stat file" (disk.files.stat file) >>= λ info.
                      chunk_loop disk (suc info.size) ctxs file comp info.size chunk 0 [])
                    (disk.files.close_file file) u h1 in
                bind-ok (wrapping "stat file" (disk.files.stat file)) _ u inner λ info u' e2 h2.
                  let opened = wrapping-ok "open file" (disk.files.open_file path) w e1 in
                  let sized = wrapping-ok "stat file" (disk.files.stat file) u e2 in
                  let (cs, p, t) =
                    loop-Tiles (suc info.size) ctxs file comp info.size chunk 0 [] chunks u' _
                      (bound file u u' info sized) positive (omega arith) h2 in
                  (
                    file,
                    u,
                    u',
                    info,
                    opened,
                    sized,
                    subst (λ x. Tiles info.size chunk 0 x) (sym p)
                        (subst (λ o. Tiles info.size chunk o cs) (omega arith) t),
                  )
      ]
