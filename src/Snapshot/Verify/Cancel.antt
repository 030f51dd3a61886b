-- ===== src/Snapshot/Verify/Cancel.antt =====
-- A verification whose context is done before the files are offered: one of its runs.
use stowmark.Base.{ℕ, ◌≡◌, ap, length, Bytes, Option, [], ◌∷◌, ok}
use stowmark.Base.Exec.{Exec, Ctx}
use stowmark.Repository.Config.{FolderRepository}
use stowmark.Snapshot.Model.{Manifest, new_report, ManifestRepository, ObjectRepository}
use stowmark.Snapshot.Key.{EncryptionData, symmetric_key, key_of, generation_of}
use stowmark.Snapshot.Verify.{verify, verify_job, worker_count, pool_result}
use stowmark.Pool.{interrupt, stop}
use stowmark.Pool.Settle.{run_pool_interrupted}

module _ {W Reader : Type 0} (objects : ObjectRepository W Reader) (sha256_hex : Bytes → Bytes)
    (manifests : ManifestRepository W) (folder : FolderRepository W)
    (decrypt : Ctx → Bytes → Bytes → Exec W Bytes) where
  -- A verification can return a report of success in which no file is counted, whatever the manifest
  -- lists: it does so in the run in which the caller's context becomes done after the manifest was
  -- read and before a file was offered to a worker, and the loop that offers the files then takes
  -- the branch of the context.
  pub verify_interrupted :
      (default_workers workers : ℕ) (ctx : Ctx) (repository_path id : Bytes)
      (key_path : Option Bytes) (d : Option EncryptionData) (man : Manifest) (w u v : W)
      → symmetric_key folder decrypt ctx key_path repository_path w ≡ (ok d, u)
      → manifests.get ctx id u ≡ (ok man, v)
      → verify objects sha256_hex manifests folder decrypt default_workers workers
          (interrupt ∷ stop ∷ [])
          ctx
          repository_path
          id
          key_path
          w
        ≡ (ok (new_report id), v)
  unfolding verify
  verify_interrupted default_workers workers ctx repository_path id key_path d man w u v k m =
      rw (k, m)
        (ap pool_result (
          run_pool_interrupted (worker_count default_workers workers (length man.files))
            (verify_job objects sha256_hex (key_of d) (generation_of d)) man.files
            (v, new_report id)))
