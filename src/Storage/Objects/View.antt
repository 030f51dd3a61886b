-- ===== src/Storage/Objects/View.antt =====
-- What is seen of the objects on a disk of internal/infra/disk/object_repository.go: the configuration
-- in the repository's folder, as `parse` reads it, and what the file of each object decrypts to.
use mathlib.Core.Path.{fun_ext}
use stowmark.Base.{
  ℕ, Bytes, ◌≡◌, refl, ap, codes, Bool, true, false, not, ltb, take, drop, same, lookup, Bool-cases,
  inl, inr, Option, none, some, length, Err, Result, ok, err, panics, if◌then◌else◌, arith,
}
use stowmark.Base.Exec.{not_raised, Exec, ◌>>◌, bind-ok, wrapping, lift}
use stowmark.Cipher
use stowmark.Cipher.{Aead, IsAead, plain, opened, is_aes_key, nonce_size}
use stowmark.Repository.Config.{Config}
use stowmark.Snapshot.Rekey.Store.{View, Quiet}
use stowmark.Storage.Files.{Fs, ◌/-◌, is_within, call, content_or}
use stowmark.Storage.Files.Keeps.{Keeps}
use stowmark.Storage.Objects.{Setting, generation_path, object_path, decoded_or_closed}

abbrev pub plain_in : Aead → Bytes → Option Bytes → Option Bytes
plain_in aead key none = none
plain_in aead key (some c) = plain aead key c

abbrev parsed : (Bytes → Option Config) → Option Bytes → Option Config
parsed parse none = none
parsed parse (some c) = parse c

abbrev pub config_path : Setting → Bytes
config_path o = o.repository_path /- codes "config.json"

pub content-ok : (z : Option Bytes) {c : Bytes} → content_or z ≡ ok c → z ≡ some c
content-ok none h = ground arith
content-ok (some x) h = ground arith

module _ (o : Setting) (parse : Bytes → Option Config) where
  abbrev pub disk_view : View Fs
  disk_view = record {
    stored = λ s p.
        if same p o.repository_path then parsed parse (lookup (config_path o) s.files) else none;
    content = λ s g key hash.
        if ltb (length hash) 3
        then none
        else plain_in o.aead key (lookup (object_path o hash g) s.files);
  }

  pub config-eq :
      (s t : Fs)
      → lookup (config_path o) t.files ≡ lookup (config_path o) s.files
      → disk_view.stored t ≡ disk_view.stored s
  config-eq s t e =
      fun_ext λ p. ap (λ z. if same p o.repository_path then parsed parse z else none) e

  -- the objects of a generation, by their files
  pub generation-view :
      (g : ℕ) (s t : Fs)
      → ((hash : Bytes)
          → lookup (object_path o hash g) t.files ≡ lookup (object_path o hash g) s.files)
      → disk_view.content t g ≡ disk_view.content s g
  generation-view g s t e = fun_ext λ key.
      fun_ext λ hash. ap (λ z. if ltb (length hash) 3 then none else plain_in o.aead key z) (e hash)

  unfoldable pub everywhere : Bytes → Bool
  everywhere k = true

  pub Quiet-Keeps : {A : Type 0} (m : Exec Fs A) → Keeps everywhere m → Quiet disk_view m
  unfolding everywhere
  Quiet-Keeps m q = record {
    at = λ w. record {
      config = config-eq w (m w).1 (q.at w (config_path o) refl);
      objects =
          fun_ext λ g. generation-view g w (m w).1 (λ hash. q.at w (object_path o hash g) refl);
    };
  }

  abbrev pub outside_of : ℕ → Bytes → Bool
  outside_of g k = not (is_within (generation_path o g) k)

  pub outside_right :
      (g : ℕ) (k : Bytes) → outside_of g k ≡ true → is_within (generation_path o g) k ≡ false
  outside_right g k h = negated (is_within (generation_path o g) k) h
    where
      negated : (b : Bool) → not b ≡ true → b ≡ false
      negated b h = ground arith

  pub outside_left :
      (g : ℕ) (k : Bytes) → is_within (generation_path o g) k ≡ false → outside_of g k ≡ true
  outside_left g k h = rw h refl

  opened-ok : (z : Option Bytes) {r : Bytes} → opened o.aead z ≡ ok r → z ≡ some r
  opened-ok none h = ground arith
  opened-ok (some x) h = ground arith

  pub decode-ok :
      (source key : Bytes) (s : Fs) {r : Bytes} {v : Fs}
      → Cipher.decode o.aead source key s ≡ (ok r, v)
      → plain o.aead key source ≡ some r
  unfolding Cipher.decode
  decode-ok source key s h = elim (Bool-cases (is_aes_key key)) [
    | inl e ↦ rw e (read (rw e at h))
    | inr e ↦ absurd (not_raised (rw e at h))
  ]
    where
      sizes :
          (b : Bool) (z : Option Bytes) {x : Unit {0}} {r : Bytes}
          → (if b then err (Err.failure "read nonce") else ok tt) ≡ ok x
          → opened o.aead z ≡ ok r
          → (if b then none else z) ≡ some r
      sizes true z h k = absurd (never h)
        where
          never : {e : Err} {x : Unit {0}} → err e ≡ ok x → ⊥
          never h = cc
      sizes false z h k = opened-ok z k

      read :
          {r : Bytes} {v : Fs}
          → (wrapping "read nonce" call
                >> lift (
                    if ltb (length source) nonce_size
                    then err (Err.failure "read nonce")
                    else ok tt)
                >> wrapping "read encrypted data" call
                >> lift (
                    opened o.aead
                      (o.aead.unseal key (take nonce_size source) (drop nonce_size source))))
              s
            ≡ (ok r, v)
          → (if ltb (length source) nonce_size
              then none
              else o.aead.unseal key (take nonce_size source) (drop nonce_size source))
            ≡ some r
      read h =
          let nonce : Exec Fs (Unit {0}) = wrapping "read nonce" call in
          let long : Exec Fs (Unit {0}) =
            lift
              (if ltb (length source) nonce_size then err (Err.failure "read nonce") else ok tt) in
          let rest : Exec Fs (Unit {0}) = wrapping "read encrypted data" call in
          let text : Exec Fs Bytes =
            lift (
              opened o.aead
                (o.aead.unseal key (take nonce_size source) (drop nonce_size source))) in
          bind-ok (nonce >> long >> rest) (λ _. text) s h
            λ _ u e1 h1.
              bind-ok (nonce >> long) (λ _. rest) s e1
                λ _ t e2 h2.
                  bind-ok nonce (λ _. long) s e2
                    λ _ w e3 h3.
                      sizes (ltb (length source) nonce_size)
                        (o.aead.unseal key (take nonce_size source) (drop nonce_size source))
                        (ap (λ z. z.0) h3) (ap (λ z. z.0) h1)

  pub closed-ok :
      (r : Result Bytes) (s : Fs) {x : Bytes} {v : Fs}
      → decoded_or_closed o r s ≡ (ok x, v)
      → r ≡ ok x
  closed-ok (ok text) s h = ap (λ z. z.0) h
  closed-ok (err e) s h = ground arith
  closed-ok (panics e) s h = ground arith
