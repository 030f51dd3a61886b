-- ===== src/Snapshot/Rekey.antt =====
-- rekey.go: every encrypted object is encrypted again, with a new key, into a new generation; the
-- configuration is switched to it, and the old generation is deleted. `base64` is
-- `base64.StdEncoding.EncodeToString`.
pub mod Store
pub mod Prepare
pub mod Objects
pub mod Outcome
pub mod Safety
use stowmark.Base.{
  ℕ, zero, suc, Bytes, Bool, true, false, Option, none, some, List, [], ◌∷◌, Err, Result, ok, err,
  panics, ltb, length, add64, String, if◌then◌else◌,
}
use stowmark.Base.Exec.{Exec, Ctx, ◌>>=◌, ◌>>◌, pure, lift, attempt, wrapping}
use stowmark.Encryption.{
  EncryptionConfig, AsymmetricKeyPairRepository, SymmetricKeyRepository, change_generation,
  change_encrypted_key, change_public_key_finger_print,
}
use stowmark.Repository.Config.{Config, FolderRepository}
use stowmark.Snapshot.Model.{ObjectRepository}
use stowmark.Snapshot.Key.{required_encryption}
use stowmark.Pool.{Pool, Move, start, run_pool}

abbrev pub max_rekey_workers : ℕ
max_rekey_workers = 8

-- `errors.Join`: nil if both are; one error alone stands for itself.
abbrev pub join : Result (Unit {0}) → Result (Unit {0}) → Result (Unit {0})
join (ok _) r = r
join (err e) (err f) = err (Err.joined e f)
join (err e) (ok _) = err e
join (err e) (panics p) = panics p
join (panics p) r = panics p

-- What the calls before the deferred clean-up give.
pub record Plan : Type 0 where
  pub conf : Config
  pub encryption : EncryptionConfig
  pub old_key : Bytes
  pub new_key : Bytes
  pub encrypted_key : Bytes
  pub fingerprint : Bytes
  pub hashes : List Bytes

abbrev pub new_generation : EncryptionConfig → ℕ
new_generation e = add64 e.generation 1

-- The contexts of the calls: that of the preparation, those that the two last calls see, and that
-- of the clean-up, which has a limit of its own.
pub record Contexts : Type 0 where
  pub prepare : Ctx
  pub create : Ctx
  pub delete : Ctx
  pub cleanup : Ctx

-- A context that became done stays so.
abbrev pub later : Bool → Ctx → Ctx
later true ctx n = true
later false ctx n = ctx n

module _ {W Reader : Type 0} (objects : ObjectRepository W Reader) where
  unfoldable pub rekey_object : Bytes → Bytes → ℕ → ℕ → Ctx → Bytes → Exec W (Unit {0})
  rekey_object old_key new_key current new ctx hash = do
    reader ← objects.read_encrypted_object ctx hash current old_key
    saved ← attempt (objects.save_rekeyed_object ctx hash reader new new_key)
    closed ← attempt (objects.close reader)
    lift (join saved closed)

  unfoldable pub rekey_job : Bytes → Bytes → ℕ → ℕ → Ctx → Bytes → Exec W (Unit {0})
  unfolding rekey_object
  rekey_job old_key new_key current new ctx hash =
      wrapping "rekey object" (rekey_object old_key new_key current new ctx hash)

  abbrev pub rekey_workers : List Bytes → ℕ
  rekey_workers hashes =
      if ltb (length hashes) max_rekey_workers then length hashes else max_rekey_workers

  -- The pool at its end; with no objects there is no pool.
  unfoldable pub rekey_objects : List Move → Plan → W → Pool Bytes W
  unfolding rekey_job run_pool
  rekey_objects moves plan w = elim plan.hashes [
    | [] ↦ start [] w
    | h ∷ hs ↦
        run_pool (rekey_workers (h ∷ hs))
          (rekey_job plan.old_key plan.new_key plan.encryption.generation
            (new_generation plan.encryption))
          moves (start (h ∷ hs) w)
  ]

  -- The deferred function, where nothing was committed.
  pub clean_up : Ctx → ℕ → Result (Unit {0}) → W → Result (Unit {0}) × W
  clean_up ctx new r w = let (c, w') = objects.abort_rekey ctx new w in (join r c, w')

  module _ {PublicKey PrivateKey : Type 0} (folder : FolderRepository W)
      (symmetric : SymmetricKeyRepository W PublicKey PrivateKey)
      (asymmetric : AsymmetricKeyPairRepository W PublicKey PrivateKey)
      (base64 : Bytes → Bytes) where
    unfoldable pub prepare : Ctx → Bytes → Bytes → Bytes → Exec W Plan
    prepare ctx repository_path private_key_path public_key_path = do
      conf ← folder.get_config ctx repository_path
      e ← required_encryption conf.encryption
      private_key ← asymmetric.read_rsa_private_key ctx private_key_path
      old_key ← symmetric.decode_and_decrypt_symmetric_key ctx private_key e.encrypted_key
      public_key ← asymmetric.read_rsa_public_key ctx public_key_path
      new_key ← symmetric.generate_symmetric_key ctx
      encrypted_key ← symmetric.encrypt_symmetric_key ctx public_key new_key
      fingerprint ← asymmetric.public_key_finger_print ctx public_key
      hashes ← objects.list_encrypted_objects ctx e.generation
      pure (record {
        conf = conf;
        encryption = e;
        old_key = old_key;
        new_key = new_key;
        encrypted_key = encrypted_key;
        fingerprint = fingerprint;
        hashes = hashes;
      })

    abbrev pub changed_encryption : Plan → EncryptionConfig
    changed_encryption plan = change_public_key_finger_print plan.fingerprint (
        change_encrypted_key (base64 plan.encrypted_key)
          (change_generation (new_generation plan.encryption) plan.encryption))

    abbrev pub changed_config : Plan → Config
    changed_config plan = record (plan.conf) { encryption = some (changed_encryption plan) }

    -- After `CreateConfig`: `committed` is set if it returned no error.
    pub after_create : Contexts → Bool → Plan → Result (Unit {0}) → W → Result (Unit {0}) × W
    unfolding clean_up
    after_create ctxs interrupted plan (ok _) w =
        objects.delete_encrypted_generation (later interrupted ctxs.delete)
          plan.encryption.generation w
    after_create ctxs interrupted plan (err e) w =
        clean_up ctxs.cleanup (new_generation plan.encryption) (err e) w
    after_create ctxs interrupted plan (panics p) w =
        clean_up ctxs.cleanup (new_generation plan.encryption) (panics p) w

    pub after_rekey : Contexts → Bytes → Bool → Plan → Result (Unit {0}) → W → Result (Unit {0}) × W
    unfolding after_create
    after_rekey ctxs path interrupted plan (ok _) w =
        let (r, w') =
          folder.create_config (later interrupted ctxs.create) path (changed_config plan) w in
        after_create ctxs interrupted plan r w'
    after_rekey ctxs path interrupted plan (err e) w =
        clean_up ctxs.cleanup (new_generation plan.encryption) (err e) w
    after_rekey ctxs path interrupted plan (panics p) w =
        clean_up ctxs.cleanup (new_generation plan.encryption) (panics p) w

    -- From the deferred function on.
    pub commit : Contexts → List Move → Bytes → Plan → Exec W (Unit {0})
    unfolding rekey_objects after_rekey
    commit ctxs moves path plan w =
        let p = rekey_objects moves plan w in
        after_rekey ctxs path p.interrupted plan p.status p.acc

    unfoldable pub rekey : Contexts → List Move → Bytes → Bytes → Bytes → Exec W (Unit {0})
    unfolding prepare commit
    rekey ctxs moves repository_path private_key_path public_key_path = do
      plan ← prepare ctxs.prepare repository_path private_key_path public_key_path
      commit ctxs moves repository_path plan
