-- ===== src/Snapshot/Rekey/Objects.antt =====
-- What the pool of a key rotation does to the objects.
use mathlib.Core.Logic.Or
use mathlib.Core.List.{Mem, mem-cons, not-mem-nil}
use mathlib.Core.Bool.{false≢true}
use stowmark.Base.{
  ℕ, Bytes, ◌≡◌, ◌≢◌, ◌⊎◌, inl, inr, refl, sym, subst, ◌∙◌, ap, ap₂, same, same→eq, same_iff,
  Bool-cases, false, Option, List, [], ◌∷◌, Result, ok, err, panics, String,
}
use stowmark.Base.Exec.{Ctx, attempt, attempt-ok, bind-ok, wrap_result}
use stowmark.Encryption.{AsymmetricKeyPairRepository, SymmetricKeyRepository}
use stowmark.Repository.Config.{FolderRepository}
use stowmark.Snapshot.Model.{ObjectRepository}
use stowmark.Snapshot.Rekey.{rekey_object, rekey_job, join}
use stowmark.Snapshot.Rekey.Store.{
  View, SameBut, Lawful, SameBut-refl, SameBut-trans, Touches, Touches-bind, Touches-lift,
  Touches-attempt, Touches-wrapping, Touches-Quiet,
}
use stowmark.Pool.{failed}
use stowmark.Pool.Serial.{serial, jobs_of, serial_first_ok}

Bytes_set : IsSet (Option Bytes)
Bytes_set = hlevel

module _ {W Reader PublicKey PrivateKey : Type 0} (view : View W)
    (objects : ObjectRepository W Reader) (folder : FolderRepository W)
    (symmetric : SymmetricKeyRepository W PublicKey PrivateKey)
    (asymmetric : AsymmetricKeyPairRepository W PublicKey PrivateKey)
    (law : Lawful view objects folder symmetric asymmetric) (old_key new_key : Bytes)
    (current new : ℕ) where
  open view use {content}

  -- A job writes nothing but objects of the new generation, whatever its outcome.
  pub job-Touches :
      (ctx : Ctx) (hash : Bytes)
      → Touches view new (rekey_job objects old_key new_key current new ctx hash)
  unfolding rekey_job
  job-Touches ctx hash = Touches-wrapping view new _ _ (
      Touches-bind view new _ _
        (Touches-Quiet view new _ (law.kept_objects.read_quiet ctx hash current old_key))
        λ reader.
          Touches-bind view new _ _
            (Touches-attempt view new _ (law.kept_objects.save_frame ctx hash reader new new_key))
            λ saved.
              Touches-bind view new _ _
                (Touches-attempt view new _
                  (Touches-Quiet view new _ (law.kept_objects.close_quiet reader)))
                λ closed. Touches-lift view new _)

  wrap-ok : (s : String) (r : Result (Unit {0})) → failed (wrap_result s r) ≡ false → r ≡ ok tt
  wrap-ok s (ok tt) h = refl
  wrap-ok s (err e) h = cc
  wrap-ok s (panics p) h = cc

  join-ok : (a b : Result (Unit {0})) → join a b ≡ ok tt → a ≡ ok tt
  join-ok (ok tt) b h = refl
  join-ok (err e) (ok x) h = cc
  join-ok (err e) (err f) h = cc
  join-ok (err e) (panics p) h = cc
  join-ok (panics p) b h = cc

  -- the content of one object, where the objects of two states are the same
  of : {u w : W} (g : ℕ) (k h : Bytes) → content u ≡ content w → content u g k h ≡ content w g k h
  of g k h e = ap (λ (c : ℕ → Bytes → Bytes → Option Bytes). c g k h) e

  saved_lem :
      (ctx : Ctx) (hash : Bytes) (w v : W)
      → rekey_object objects old_key new_key current new ctx hash w ≡ (ok tt, v)
      → (content v new new_key hash ≡ content w current old_key hash)
        × ((j : Bytes) → j ≢ hash → content v new new_key j ≡ content w new new_key j)
  unfolding rekey_object
  saved_lem ctx hash w v h =
      bind-ok (objects.read_encrypted_object ctx hash current old_key) _ w h λ reader w1 e1 h1.
        bind-ok (attempt (objects.save_rekeyed_object ctx hash reader new new_key)) _ w1 h1
          λ s w2 e2 h2. bind-ok (attempt (objects.close reader)) _ w2 h2 λ c w3 e3 h3.
            let a = attempt-ok (objects.save_rekeyed_object ctx hash reader new new_key) w1 e2 in
            let b = attempt-ok (objects.close reader) w2 e3 in
            let saved : objects.save_rekeyed_object ctx hash reader new new_key w1 ≡ (ok tt, w2) =
              ap₂ (λ r u. (r, u)) (a.0 ∙ join-ok s c (ap (λ z. z.0) h3)) a.1 in
            let end : content v ≡ content w2 =
              ap content (sym (b.1 ∙ ap (λ z. z.1) h3))
              ∙ ((law.kept_objects.close_quiet reader).at w2).objects in
            let begin : content w1 ≡ content w =
              ap content (sym (ap (λ z. z.1) e1))
              ∙ ((law.kept_objects.read_quiet ctx hash current old_key).at w).objects in
            let q = law.kept_objects.save_ok ctx hash reader new new_key w1 saved in
            (
              of new new_key hash end
                  ∙ q.0
                  ∙ sym (law.kept_objects.read_ok ctx hash current old_key w e1),
              λ j n. of new new_key j end ∙ q.1 j n ∙ of new new_key j begin,
            )

  -- A job that succeeds leaves the content of its object, under the new key, in the new generation.
  job_lem :
      (ctx : Ctx) (hash : Bytes) (w : W)
      → failed (rekey_job objects old_key new_key current new ctx hash w).0 ≡ false
      → let v = (rekey_job objects old_key new_key current new ctx hash w).1 in
        (content v new new_key hash ≡ content w current old_key hash)
        × ((j : Bytes) → j ≢ hash → content v new new_key j ≡ content w new new_key j)
  unfolding rekey_job
  job_lem ctx hash w h =
      let m = rekey_object objects old_key new_key current new ctx hash in
      saved_lem ctx hash w (m w).1 (ap (λ r. (r, (m w).1)) (wrap-ok "rekey object" (m w).0 h))

  -- Whatever the order of the jobs, and whether they succeed, only the new generation is written.
  pub serial-SameBut :
      (order : List (Ctx × Bytes)) (st : Result (Unit {0})) (w : W)
      → SameBut view new w (serial (rekey_job objects old_key new_key current new) order (st, w)).1
  serial-SameBut [] st w = SameBut-refl view new w
  serial-SameBut ((ctx, hash) ∷ order) st w =
      SameBut-trans view ((job-Touches ctx hash).at w) (serial-SameBut order _ _)

  module _ (apart : current ≢ new) (X : Bytes → Option Bytes) where
    -- Either the new generation has the object already, or its job is still to come.
    abbrev pub Due : List Bytes → W → Bytes → Type 0
    Due hashes w h = (content w new new_key h ≡ X h) ⊎ Mem h hashes

    due_next :
        {P : Type 0} (hash : Bytes) (hashes : List Bytes) (w v : W) (h : Bytes)
        → IsProp P
        → content v new new_key hash ≡ X hash
        → ((j : Bytes) → j ≢ hash → content v new new_key j ≡ content w new new_key j)
        → Due (hash ∷ hashes) w h
        → (Due hashes v h → P)
        → P
    due_next {P} hash hashes w v h prop done others d k = elim (Bool-cases (same h hash)) [
      | inl e ↦ k (inl (subst (λ j. content v new new_key j ≡ X j) (sym (same→eq h hash e)) done))
      | inr e ↦ other (λ p. false≢true (sym e ∙ (same_iff h hash).1 p)) d
    ]
      where
        other : h ≢ hash → Due (hash ∷ hashes) w h → P
        other ne (inl c) = k (inl (others h ne ∙ c))
        other ne (inr m) = Or.elim prop (mem-cons.0 m) (λ p. absurd (ne p)) (λ r. k (inr r))

    -- After jobs that all succeed, each of their objects has, under the new key and in the new
    -- generation, the content that it had under the old key and in the old one.
    pub renewed :
        (order : List (Ctx × Bytes)) (st : Result (Unit {0})) (w v : W)
        → ((h : Bytes) → content w current old_key h ≡ X h)
        → serial (rekey_job objects old_key new_key current new) order (st, w) ≡ (ok tt, v)
        → (h : Bytes) → Due (jobs_of (rekey_job objects old_key new_key current new) order) w h
        → content v new new_key h ≡ X h
    renewed [] st w v same_old e h (inl d) =
        of new new_key h (ap content (ap (λ z. z.1) (sym e))) ∙ d
    renewed [] st w v same_old e h (inr m) = absurd (not-mem-nil m)
    renewed ((ctx, hash) ∷ order) st w v same_old e h d =
        let job = rekey_job objects old_key new_key current new in
        let u = (job ctx hash w).1 in
        let q = job_lem ctx hash w (serial_first_ok job ctx hash order st w v e) in
        let old : (j : Bytes) → content u current old_key j ≡ X j = λ j.
          ap (λ (f : Bytes → Bytes → Option Bytes). f old_key j)
            (((job-Touches ctx hash).at w).others current apart)
          ∙ same_old j in
        due_next hash (jobs_of job order) w u h (Bytes_set _ _) (q.0 ∙ same_old hash) q.1 d
          (renewed order _ u v old e h)
