-- ===== src/Snapshot/Verify/Laws.antt =====
-- What a verification that was not interrupted reports, over storage that does not change under it.
use mathlib.Core.List.{Perm, filter_map, append-nil, append_assoc}
use mathlib.Core.List.Perm
use stowmark.Base.{
  ℕ, ◌+◌, ◌<◌, ◌≡◌, refl, sym, subst, ◌∙◌, ap, ap₂, Bytes, Bool, true, false, Option, none, some,
  List, [], ◌∷◌, ◌++◌, Result, ok, err, panics, length, arith, All,
}
use stowmark.Base.Exec.{Ctx, background}
use stowmark.Base.Perms.{length_perm, all_pass, all_pass_perm}
use stowmark.Snapshot.Model.{File, FailedResult, Report, new_report, ObjectRepository}
use stowmark.Snapshot.Key.{EncryptionData, key_of, generation_of}
use stowmark.Snapshot.Verify.{
  Reason, verify_file, tally, verify_job, verdict, verify_all, worker_count,
}
use stowmark.Pool.{Move, failed, start, run_pool}
use stowmark.Pool.Serial.{serial, jobs_of, serial_first_ok}
use stowmark.Pool.Settle.{run_pool-Completed}
use stowmark.Pool.Calm.{IsCalm, run_pool_calm}

abbrev pub failure_of : File → Result (Option Reason) → Option (FailedResult Reason)
failure_of f (ok (some r)) = some (record { path = f.path; reason = r })
failure_of f _ = none

abbrev pub was_checked : Result (Option Reason) → Bool
was_checked (ok _) = true
was_checked _ = false

abbrev listed {ℓ} : {A : Type ℓ} → Option A → List A
listed none = []
listed (some a) = a ∷ []

filter_map-cons :
    {A B : Type 0} (f : A → Option B) (x : A) (xs : List A)
    → filter_map f (x ∷ xs) ≡ listed (f x) ++ filter_map f xs
unfolding filter_map
filter_map-cons f x xs = ground arith

filter_map-nil : {A B : Type 0} (f : A → Option B) → filter_map f [] ≡ []
unfolding filter_map
filter_map-nil f = refl

tally_lem :
    (f : File) (o : Result (Option Reason)) (r : Report Reason)
    → failed (tally f o r).0 ≡ false
    → ((tally f o r).1.total_files ≡ r.total_files + 1)
      × ((tally f o r).1.failed ≡ r.failed ++ listed (failure_of f o))
      × (was_checked o ≡ true)
      × ((tally f o r).1.snapshot_id ≡ r.snapshot_id)
tally_lem f (ok (some x)) r h = (refl, refl, refl, refl)
tally_lem f (ok none) r h = (refl, sym (append-nil r.failed), refl, refl)
tally_lem f (err e) r h = cc
tally_lem f (panics p) r h = cc

worker_count_pos : (d w n : ℕ) → 0 < worker_count d w n
worker_count_pos d w n = ground arith

verdict-ok :
    {A : Type 0} (s : Result (Unit {0})) (a b : A) → verdict s a ≡ ok b → (s ≡ ok tt) × (a ≡ b)
verdict-ok (ok tt) a b h = (refl, ground arith)
verdict-ok (err e) a b h = cc
verdict-ok (panics p) a b h = cc

module _ {W Reader : Type 0} (objects : ObjectRepository W Reader) (sha256_hex : Bytes → Bytes)
    (d : Option EncryptionData) (IsKept : W → Type 0) (outcome : File → Result (Option Reason))
    (stable : (f : File) (w : W)
      → IsKept w
      → ((verify_file objects sha256_hex background f (key_of d) (generation_of d) w).0 ≡ outcome f)
        × IsKept
            (verify_file objects sha256_hex background f (key_of d) (generation_of d) w).1) where
  abbrev job : Ctx → File → W × Report Reason → Result (Unit {0}) × (W × Report Reason)
  job = verify_job objects sha256_hex (key_of d) (generation_of d)

  abbrev pub expected : List File → List (FailedResult Reason)
  expected = filter_map (λ f. failure_of f (outcome f))

  abbrev pub checked : File → Bool
  checked f = was_checked (outcome f)

  abbrev Counts : List File → Report Reason → Report Reason → Type 0
  Counts fs before after =
      (after.total_files ≡ before.total_files + length fs)
      × (after.failed ≡ before.failed ++ expected fs)
      × (all_pass checked fs ≡ true)
      × (after.snapshot_id ≡ before.snapshot_id)

  job_lem :
      (f : File) (w : W) (r : Report Reason)
      → IsKept w
      → failed (job background f (w, r)).0 ≡ false
      → ((job background f (w, r)).1.1.total_files ≡ r.total_files + 1)
        × ((job background f (w, r)).1.1.failed ≡ r.failed ++ listed (failure_of f (outcome f)))
        × (checked f ≡ true)
        × ((job background f (w, r)).1.1.snapshot_id ≡ r.snapshot_id)
  unfolding verify_job
  job_lem f w r k h = rw (← (stable f w k).0) (tally_lem f _ r h)

  job_keeps :
      (f : File) (w : W) (r : Report Reason) → IsKept w → IsKept (job background f (w, r)).1.0
  unfolding verify_job
  job_keeps f w r k = (stable f w k).1

  counts :
      (order : List (Ctx × File)) (st : Result (Unit {0})) (w v : W) (r rep : Report Reason)
      → IsKept w
      → All (λ (x : Ctx × File). x.0 ≡ background) order
      → serial job order (st, (w, r)) ≡ (ok tt, (v, rep))
      → Counts (jobs_of job order) r rep
  counts [] st w v r rep k fresh h =
      let same_report : rep ≡ r = ap (λ p. p.1.1) (sym h) in
      (
        ground (arith, ap (λ (x : Report Reason). x.total_files) same_report),
        rw filter_map-nil (rw append-nil (ap (λ (x : Report Reason). x.failed) same_report)),
        refl,
        ap (λ (x : Report Reason). x.snapshot_id) same_report,
      )
  counts ((ctx, f) ∷ order) st w v r rep k (e, fresh) h =
      let h' = subst (λ c. serial job ((c, f) ∷ order) (st, (w, r)) ≡ (ok tt, (v, rep))) e h in
      let (w', r') = (job background f (w, r)).1 in
      let q = job_lem f w r k (serial_first_ok job background f order st (w, r) (v, rep) h') in
      let ih = counts order _ w' v r' rep (job_keeps f w r k) fresh h' in
      (
        omega (arith, ih.0, q.0),
        ih.1
            ∙ ap (λ l. l ++ expected (jobs_of job order)) q.1
            ∙ append_assoc r.failed (listed (failure_of f (outcome f)))
                (expected (jobs_of job order))
            ∙ ap (λ l. r.failed ++ l)
                (sym (filter_map-cons (λ g. failure_of g (outcome g)) f (jobs_of job order))),
        ground (arith, ih.2, q.2),
        ih.3 ∙ q.3,
      )

  -- A verification with no interruption that returns a report has counted every file of the
  -- manifest, none of which gave an error, and lists, in some order, exactly the files that fail
  -- the check, each with its reason: whatever the number of workers and their interleaving.
  pub verify_all_lem :
      (default_workers workers : ℕ) (moves : List Move) (id : Bytes) (files : List File) (w : W)
      (rep : Report Reason) (v : W)
      → IsCalm moves
      → IsKept w
      → verify_all objects sha256_hex default_workers workers moves id d files w ≡ (ok rep, v)
      → (rep.total_files ≡ length files)
        × Perm rep.failed (expected files)
        × (all_pass checked files ≡ true)
        × (rep.snapshot_id ≡ id)
  unfolding verify_all
  verify_all_lem default_workers workers moves id files w rep v calm k h =
      let n = worker_count default_workers workers (length files) in
      let p = run_pool n job moves (start files (w, new_report id)) in
      let c =
        run_pool-Completed n job files (w, new_report id) moves
          (worker_count_pos default_workers workers (length files)) in
      let (done, same_report) = verdict-ok p.status p.acc.1 rep (ap (λ x. x.0) h) in
      let (each_once, fresh) =
        c.complete done (run_pool_calm n job moves files (w, new_report id) calm) in
      let x =
        counts c.order (ok tt) w p.acc.0 (new_report id) rep k fresh
          (c.effect ∙ ap₂ (λ s r. (s, (p.acc.0, r))) done same_report) in
      (
        omega (arith, x.0, length_perm (jobs_of job c.order) files each_once),
        subst (λ l. Perm l (expected files)) (sym x.1)
            (Perm.filter_map (λ f. failure_of f (outcome f)) each_once),
        sym (all_pass_perm checked (jobs_of job c.order) files each_once) ∙ x.2,
        x.3,
      )
