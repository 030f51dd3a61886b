-- ===== src/Snapshot/Verify.antt =====
-- verifier.go: every object of a snapshot is read and hashed again, by a pool of workers over the
-- files. `sha256_hex` is the lower-case hexadecimal SHA-256 of the bytes.
pub mod Laws
pub mod Cancel
use stowmark.Base.{
  ℕ, zero, suc, ◌+◌, Bytes, same, Bool, true, false, ◌||◌, Option, none, some, List, [], ◌∷◌, Err,
  Result, ok, err, panics, ltb, length, String, if◌then◌else◌,
}
use stowmark.Base.Exec.{Exec, Ctx, ◌>>=◌, ◌>>◌, pure, raise, panic, lift, attempt, wrapping}
use stowmark.Repository.Config.{FolderRepository}
use stowmark.Snapshot.Model.{
  Chunk, File, Manifest, Report, new_report, add_failed, add_success, ManifestRepository,
  ObjectRepository,
}
use stowmark.Snapshot.Key.{EncryptionData, symmetric_key, key_of, generation_of}
use stowmark.Pool.{Pool, Move, start, run_pool}

-- The reason that is reported; the empty text, which stands for success, is `none`.
pub data Reason : Type 0 where
  empty_hash : Reason
  not_found : Err → Reason
  hash_mismatch : Bytes → Bytes → Reason
  chunk : ℕ → ℕ → Reason → Reason

-- `errors.As(err, &NotFoundError{})`
abbrev pub is_object_not_found : Err → Bool
is_object_not_found (Err.object_not_found m) = true
is_object_not_found (Err.wrapped s e) = is_object_not_found e
is_object_not_found (Err.joined a b) = is_object_not_found a || is_object_not_found b
is_object_not_found _ = false

abbrev pub worker_count : ℕ → ℕ → ℕ → ℕ
worker_count default_workers workers files =
    let w = if ltb 0 workers then workers else default_workers in
    let capped = if ltb files w then files else w in if ltb capped 1 then 1 else capped

abbrev pub missing_reason : {W : Type 0} → Err → Exec W (Option Reason)
missing_reason e = if is_object_not_found e then pure (some (not_found e)) else raise e

abbrev pub compared : Bytes → Bytes → Option Reason
compared expected calculated =
    if same calculated expected then none else some (hash_mismatch expected calculated)

-- What a worker does with the outcome, under the lock.
abbrev pub tally : File → Result (Option Reason) → Report Reason → Result (Unit {0}) × Report Reason
tally f (err e) r = (err e, r)
tally f (panics p) r = (panics p, r)
tally f (ok (some reason)) r = (ok tt, add_failed f.path reason r)
tally f (ok none) r = (ok tt, add_success r)

abbrev pub verdict : {A : Type 0} → Result (Unit {0}) → A → Result A
verdict (ok _) a = ok a
verdict (err e) a = err e
verdict (panics p) a = panics p

abbrev pub pool_result : {J W : Type 0} → Pool J (W × Report Reason) → Result (Report Reason) × W
pool_result p = (verdict p.status p.acc.1, p.acc.0)

module _ {W Reader : Type 0} (objects : ObjectRepository W Reader)
    (sha256_hex : Bytes → Bytes) where
  -- The object is read to its end and closed, and the read's error comes first.
  pub read_and_close : Ctx → Reader → Exec W Bytes
  read_and_close ctx reader = do
    copied ← attempt (objects.read_all ctx reader)
    closed ← attempt (objects.close reader)
    bytes ← wrapping "read object" (lift copied)
    wrapping "close object" (lift closed)
    pure bytes

  pub check_read : Ctx → Bytes → Result Reader → Exec W (Option Reason)
  unfolding read_and_close
  check_read ctx expected (err e) = missing_reason e
  check_read ctx expected (panics p) = panic p
  check_read ctx expected (ok reader) = do
    bytes ← read_and_close ctx reader
    pure (compared expected (sha256_hex bytes))

  unfoldable pub verify_object : Ctx → Bytes → Bytes → ℕ → Exec W (Option Reason)
  unfolding check_read
  verify_object ctx [] key generation = pure (some empty_hash)
  verify_object ctx (b ∷ hash) key generation = do
    reader ← attempt (objects.read_object ctx (b ∷ hash) key generation)
    check_read ctx (b ∷ hash) reader

  -- The loop over the chunks, from the index of the next one; the first failure ends it.
  pub verify_chunks : Ctx → ℕ → List Chunk → ℕ → Bytes → ℕ → Exec W (Option Reason)
  unfolding verify_object
  verify_chunks ctx index [] total key generation = pure none
  verify_chunks ctx index (c ∷ cs) total key generation = do
    reason ← verify_object ctx c.hash key generation
    elim reason [
      | some r ↦ pure (some (chunk (index + 1) total r))
      | none ↦ verify_chunks ctx (index + 1) cs total key generation
    ]

  abbrev verify_parts : Ctx → File → List Chunk → Bytes → ℕ → Exec W (Option Reason)
  verify_parts ctx f [] key generation = verify_object ctx f.hash key generation
  verify_parts ctx f (c ∷ cs) key generation =
      verify_chunks ctx 0 (c ∷ cs) (length (c ∷ cs)) key generation

  unfoldable pub verify_file : Ctx → File → Bytes → ℕ → Exec W (Option Reason)
  unfolding verify_object verify_chunks
  verify_file ctx f key generation = verify_parts ctx f f.chunks key generation

  unfoldable pub verify_job :
      Bytes → ℕ → Ctx → File → W × Report Reason → Result (Unit {0}) × (W × Report Reason)
  unfolding verify_file
  verify_job key generation ctx f (w, r) =
      let (o, w') = verify_file ctx f key generation w in let (s, r') = tally f o r in (s, (w', r'))

  unfoldable pub verify_all :
      ℕ → ℕ → List Move → Bytes → Option EncryptionData → List File → Exec W (Report Reason)
  unfolding verify_job run_pool
  verify_all default_workers workers moves id d files w = pool_result (
      run_pool (worker_count default_workers workers (length files))
        (verify_job (key_of d) (generation_of d)) moves (start files (w, new_report id)))

  module _ (manifests : ManifestRepository W) (folder : FolderRepository W)
      (decrypt : Ctx → Bytes → Bytes → Exec W Bytes) where
    unfoldable pub verify :
        ℕ → ℕ → List Move → Ctx → Bytes → Bytes → Option Bytes → Exec W (Report Reason)
    unfolding verify_all
    verify default_workers workers moves ctx repository_path id private_key_path = do
      d ← symmetric_key folder decrypt ctx private_key_path repository_path
      man ← manifests.get ctx id
      verify_all default_workers workers moves id d man.files
