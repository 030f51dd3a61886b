-- ===== src/Snapshot/Rekey/Safety.antt =====
-- A key rotation loses no object, whatever fails and in whatever order the workers run.
use stowmark.Base.{
  ℕ, ◌<◌, Bytes, ◌≡◌, ◌≢◌, ◌⊎◌, inl, inr, refl, sym, subst, ◌∙◌, ap, some_eq, Option, some, List,
  Result, ok, err, panics, word_size,
}
use stowmark.Base.Exec.{Exec, continue}
use stowmark.Encryption.{EncryptionConfig, AsymmetricKeyPairRepository, SymmetricKeyRepository}
use stowmark.Encryption.Keys.{Keys}
use stowmark.Repository.Config.{Config, FolderRepository}
use stowmark.Repository.Config.Stored.{timeless}
use stowmark.Snapshot.Model.{ObjectRepository}
use stowmark.Snapshot.Rekey.{Plan, Contexts, rekey, prepare, commit, new_generation}
use stowmark.Snapshot.Rekey.Store.{View, Same, Lawful}
use stowmark.Snapshot.Rekey.Prepare.{Prepared, prepare-Quiet, prepare-Prepared}
use stowmark.Pool.{Move}
use stowmark.Snapshot.Rekey.Outcome.{
  Intact, Unswitched, Renewed, Outcome, generation_apart, commit-Outcome, from_Same,
}

module _ {W Reader PublicKey PrivateKey : Type 0} (view : View W)
    (objects : ObjectRepository W Reader) (folder : FolderRepository W)
    (symmetric : SymmetricKeyRepository W PublicKey PrivateKey)
    (asymmetric : AsymmetricKeyPairRepository W PublicKey PrivateKey) (base64 : Bytes → Bytes)
    (law : Lawful view objects folder symmetric asymmetric) where
  open view use {stored, content}

  module _ (Pair : PublicKey → PrivateKey → Type 0) (keys : Keys symmetric base64 Pair)
      (ctxs : Contexts) (moves : List Move) (path private_key_path public_key_path : Bytes) (w : W)
      (conf : Config) (e : EncryptionConfig) (held : stored w path ≡ some conf)
      (encrypted : conf.encryption ≡ some e) (in_range : e.generation < word_size) where
    -- The rotation failed and everything is as it was; or the write of the configuration failed; or
    -- the rotation was made and everything has moved.
    abbrev pub Rotated : Result (Unit {0}) × W → Type 0
    Rotated x =
        (Intact view objects folder symmetric asymmetric base64 law path e w x.1 × (x.0 ≢ ok tt))
        ⊎ ((plan : Plan) × Prepared view objects folder symmetric asymmetric base64 law Pair path
              public_key_path w plan
            × (timeless (plan.conf) ≡ conf)
            × (plan.encryption ≡ e)
            × ((Unswitched view objects folder symmetric asymmetric base64 law path plan w x.1
                  × (x.0 ≢ ok tt))
                ⊎ Renewed view objects folder symmetric asymmetric base64 law path plan w x.1))

    abbrev prepared : Exec W Plan
    prepared =
        prepare objects folder symmetric asymmetric base64 ctxs.prepare path private_key_path
          public_key_path

    abbrev committed : Plan → Exec W (Unit {0})
    committed = commit objects folder symmetric asymmetric base64 ctxs moves path

    planned :
        (plan : Plan) (u : W)
        → Same view w u
        → Prepared view objects folder symmetric asymmetric base64 law Pair path public_key_path w
            plan
        → Rotated (committed plan u)
    planned plan u k p =
        let c : timeless (plan.conf) ≡ conf = some_eq (sym p.held ∙ held) in
        let en : plan.encryption ≡ e =
          some_eq (sym p.encrypted ∙ ap (λ (x : Config). x.encryption) c ∙ encrypted) in
        let apart : plan.encryption.generation ≢ new_generation plan.encryption =
          subst (λ (x : EncryptionConfig). x.generation ≢ new_generation x) (sym en)
            (generation_apart e.generation in_range) in
        of_outcome apart (committed plan u) c en (
          from_Same view objects folder symmetric asymmetric base64 law plan apart p.readable
            p.encrypted path w u (committed plan u) k
            (commit-Outcome view objects folder symmetric asymmetric base64 law plan apart
              p.readable p.encrypted ctxs moves path u
              λ key h found m. p.listed key h found (
                ap (λ (f : ℕ → Bytes → Bytes → Option Bytes). f plan.encryption.generation key h)
                  (sym k.objects)
                ∙ m)))
      where
        of_outcome :
            (apart : plan.encryption.generation ≢ new_generation plan.encryption)
            (x : Result (Unit {0}) × W)
            → timeless (plan.conf) ≡ conf
            → plan.encryption ≡ e
            → Outcome view objects folder symmetric asymmetric base64 law plan apart p.readable
                p.encrypted path w x
            → Rotated x
        of_outcome a0 (r, v) c en (inl (a, n)) = inl (
          subst (λ y. Intact view objects folder symmetric asymmetric base64 law path y w v) en a,
          n,
        )
        of_outcome a0 (r, v) c en (inr b) = inr (plan, p, c, en, b)

    unchanged :
        {u : W}
        → Same view w u
        → Intact view objects folder symmetric asymmetric base64 law path e w u
    unchanged k = record {
      config = ap (λ (f : Bytes → Option Config). f path) k.config;
      contents = ap (λ (f : ℕ → Bytes → Bytes → Option Bytes). f e.generation) k.objects;
    }

    prepared-Rotated :
        (r : Result Plan) (u : W)
        → prepared w ≡ (r, u)
        → Same view w u
        → Rotated (continue r committed u)
    prepared-Rotated (ok plan) u q k = planned plan u k (
        prepare-Prepared view objects folder symmetric asymmetric base64 law Pair keys ctxs.prepare
          path private_key_path public_key_path w q)
    prepared-Rotated (err f) u q k = inl (unchanged k, λ h. cc)
    prepared-Rotated (panics p) u q k = inl (unchanged k, λ h. cc)

    -- In a repository that holds an encrypted configuration, whatever fails, whatever contexts are
    -- done, and however the workers interleave: either the rotation does not succeed, and the
    -- configuration and every object of its generation are as they were; or it does not succeed
    -- because the write of the new configuration over the old one failed, the configuration is what
    -- that write left, and every object of the old generation is as it was; or, but for its time of
    -- creation, the new configuration is held, which belongs to a new key that the partner of the
    -- new public key decrypts, and under that key its generation has the content of every object
    -- that could be read in the old one.
    pub rekey-Rotated : Rotated (
        rekey objects folder symmetric asymmetric base64 ctxs moves path private_key_path
          public_key_path w)
    unfolding rekey
    rekey-Rotated = prepared-Rotated (prepared w).0 (prepared w).1 refl (
        (prepare-Quiet view objects folder symmetric asymmetric base64 law ctxs.prepare path
            private_key_path public_key_path).at
          w)
