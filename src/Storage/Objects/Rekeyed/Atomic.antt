-- ===== src/Storage/Objects/Rekeyed/Atomic.antt =====
-- What a `SaveRekeyedObject` of internal/infra/disk/object_repository.go that fails leaves.
use stowmark.Base.{
  ℕ, Bytes, ◌≡◌, ◌≢◌, refl, ap, ◌∙◌, String, Bool, true, false, not, ltb, same, same_refl, lookup,
  Option, none, some, length, Err, Result, ok, err, panics, Bool-cases, inl, inr, ◌==◌,
}
use stowmark.Base.Exec.{Exec, Ctx, ◌>>=◌, ◌>>◌, wrapping, wrap_result, continue}
use stowmark.Cipher.{new_encoder}
use stowmark.Cipher.Laws.{Keeps-finish}
use stowmark.Storage.Files.{
  Fs, call, mkdir_all, create_excl, close, rename, renamed, unless_ok, undone,
}
use stowmark.Storage.Files.Keeps.{
  Kept, Keeps, Keeps-lift, Keeps-wrapping, Keeps-ctx_err, Keeps-call, Keeps-mkdir_all, Keeps-close,
  Keeps-sync, Keeps-create_excl, Keeps-remove,
}
use stowmark.Storage.Objects.{Setting, object_path, refuse_if, is_empty, invalid_hash, key_required}
use stowmark.Storage.Objects.Rekeyed.{
  save_rekeyed_object, committed, into_temp, directory_path, temp_path, discard,
}

pub Keeps-refuse_if : (P : Bytes → Bool) (b : Bool) (e : Err) → Keeps P (refuse_if b e)
Keeps-refuse_if P true e = Keeps-lift P _
Keeps-refuse_if P false e = Keeps-lift P _

pub Keeps-new_encoder :
    (P : Bytes → Bool) (o : Setting) (key : Bytes) → Keeps P (new_encoder o.aead key)
Keeps-new_encoder P o key = record {
  at = λ s k p. elim (Bool-cases (length key == 32)) [ inl e ↦ rw e refl | inr e ↦ rw e refl ];
}

pub Keeps-discard : (P : Bytes → Bool) (temp : Bytes) → P temp ≡ false → Keeps P (discard temp)
Keeps-discard P temp free = record {
  at = λ s k p. (Keeps-remove P temp free).at (close s).1 k p ∙ (Keeps-close P).at s k p;
}

module _ (P : Bytes → Bool) where
  -- The paths of `P` are kept where the call does not succeed.
  record Fails (m : Exec Fs (Unit {0})) : Type 0 where
    at : (s : Fs) → (m s).0 ≢ ok tt → Kept P s (m s).1

  Fails-then :
      {A : Type 0} (m : Exec Fs A) (f : A → Exec Fs (Unit {0}))
      → Keeps P m
      → ((a : A) → Fails (f a))
      → Fails (m >>= f)
  Fails-then {A} m f qm qf = record { at = λ s n k p. go (m s).0 (m s).1 n k p ∙ qm.at s k p }
    where
      go : (r : Result A) (s : Fs) → (continue r f s).0 ≢ ok tt → Kept P s (continue r f s).1
      go (ok a) s n = (qf a).at s n
      go (err e) s n = λ k p. refl
      go (panics e) s n = λ k p. refl

  Fails-wrapping : (t : String) (m : Exec Fs (Unit {0})) → Fails m → Fails (wrapping t m)
  Fails-wrapping t m q = record { at = λ s n. q.at s (λ e. n (ap (wrap_result t) e)) }

  Fails-unless_ok : (m c : Exec Fs (Unit {0})) → Fails m → Keeps P c → Fails (unless_ok m c)
  Fails-unless_ok m c qm qc = record { at = λ s n. go s (m s).0 (m s).1 (qm.at s) n }
    where
      go :
          (s : Fs) (r : Result (Unit {0})) (u : Fs)
          → (r ≢ ok tt → Kept P s u)
          → (undone c r u).0 ≢ ok tt
          → Kept P s (undone c r u).1
      go s (ok x) u h n = absurd (n refl)
      go s (err e) u h n = λ k p. qc.at u k p ∙ h (λ x. cc) k p
      go s (panics e) u h n = λ k p. qc.at u k p ∙ h (λ x. cc) k p

  Fails-rename : (a b : Bytes) → Fails (rename a b)
  unfolding rename
  Fails-rename a b =
      Fails-then call _ (Keeps-call P) λ _. record { at = λ s n. go (lookup a s.files) s n }
    where
      go : (o : Option Bytes) (s : Fs) → (renamed a b o s).0 ≢ ok tt → Kept P s (renamed a b o s).1
      go none s n = λ k p. refl
      go (some c) s n = absurd (n refl)

  module _ (o : Setting) (temp : Bytes) (free : P temp ≡ false) where
    committed-Fails :
        (ctx : Ctx) (hash source : Bytes) (g : ℕ) (key : Bytes)
        → Fails (committed o ctx hash source g key temp)
    unfolding committed
    committed-Fails ctx hash source g key =
        Fails-then _ _ (Keeps-wrapping P _ _ (Keeps-new_encoder P o key)) λ _.
          Fails-then _ _ (Keeps-wrapping P _ _ (Keeps-finish o.aead P temp free key source)) λ _.
            Fails-then _ _ (Keeps-refuse_if P _ _) λ _. Fails-then _ _ (Keeps-ctx_err P ctx 1) λ _.
              Fails-then _ _ (Keeps-wrapping P _ _ (Keeps-sync P)) λ _.
                Fails-then _ _ (Keeps-wrapping P _ _ (Keeps-close P))
                  λ _. Fails-wrapping _ _ (Fails-rename temp (object_path o hash g))

    create-Fails :
        (ctx : Ctx) (hash source : Bytes) (g : ℕ) (key : Bytes)
        → Fails (
            wrapping "create temporary encrypted object" (create_excl temp)
            >> unless_ok (committed o ctx hash source g key temp) (discard temp))
    create-Fails ctx hash source g key =
        Fails-then _ _ (Keeps-wrapping P _ _ (Keeps-create_excl P temp free)) λ _.
          Fails-unless_ok _ _ (committed-Fails ctx hash source g key) (Keeps-discard P temp free)

-- All paths but one hold what they held.
abbrev pub AllBut : Bytes → Fs → Fs → Type 0
AllBut temp s t = (k : Bytes) → same temp k ≡ false → lookup k t.files ≡ lookup k s.files

everywhere : Bytes → Bool
everywhere k = true

module _ (o : Setting) (hash : Bytes) (g : ℕ) where
  abbrev Lost : Fs → Fs → Type 0
  Lost s t = (n : ℕ) × AllBut (temp_path o hash g n) s t

  record Loses (m : Exec Fs (Unit {0})) : Type 0 where
    at : (s : Fs) → (m s).0 ≢ ok tt → Lost s (m s).1

  before :
      {A : Type 0} (m : Exec Fs A) (f : A → Exec Fs (Unit {0}))
      → Keeps everywhere m
      → ((a : A) → Loses (f a))
      → Loses (m >>= f)
  unfolding everywhere
  before {A} m f qm qf = record { at = λ s n. go s (m s).0 (m s).1 (λ k. qm.at s k refl) n }
    where
      go :
          (s : Fs) (r : Result A) (u : Fs)
          → ((k : Bytes) → lookup k u.files ≡ lookup k s.files)
          → (continue r f u).0 ≢ ok tt
          → Lost s (continue r f u).1
      go s (ok a) u st n = let l = (qf a).at u n in (l.0, λ k d. l.1 k d ∙ st k)
      go s (err e) u st n = (0, λ k d. st k)
      go s (panics e) u st n = (0, λ k d. st k)

  other : (temp k : Bytes) → same temp k ≡ false → not (same temp k) ≡ true
  other temp k e = rw e refl

  loses : (ctx : Ctx) (source key : Bytes) → Loses (save_rekeyed_object o ctx hash source g key)
  unfolding save_rekeyed_object
  loses ctx source key = before _ _ (Keeps-ctx_err everywhere ctx 0) λ _.
      before _ _ (Keeps-refuse_if everywhere (ltb (length hash) 3) invalid_hash) λ _.
        before _ _ (Keeps-refuse_if everywhere (is_empty key) key_required) λ _.
          before _ (λ _. into_temp o ctx hash source g key)
            (Keeps-wrapping everywhere "create encrypted object directory"
              (mkdir_all (directory_path o hash g))
              (Keeps-mkdir_all everywhere (directory_path o hash g)))
            λ _. record {
              at = λ s f.
                  let temp = temp_path o hash g s.draws in
                  (
                    s.draws,
                    λ k d.
                        (create-Fails (λ q. not (same temp q)) o temp (rw (same_refl temp) refl) ctx
                            hash source g key).at
                          s f k (other temp k d),
                  );
            }

  -- If `SaveRekeyedObject` does not succeed, whatever call of it failed, every path but that of its
  -- temporary file holds what it held: no object of any generation has changed.
  pub save_rekeyed_object-AllBut :
      (ctx : Ctx) (source key : Bytes) (s : Fs)
      → (save_rekeyed_object o ctx hash source g key s).0 ≢ ok tt
      → (n : ℕ) × AllBut (temp_path o hash g n) s (save_rekeyed_object o ctx hash source g key s).1
  save_rekeyed_object-AllBut ctx source key s n = (loses ctx source key).at s n
