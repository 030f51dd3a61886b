-- ===== src/Snapshot/Restore/Laws.antt =====
-- What the report of a restore says.
use mathlib.Core.List.{append_assoc, append-nil}
use stowmark.Base.{
  subst, ◌+◌, ◌≡◌, ◌≢◌, String, refl, sym, ◌∙◌, ap, Bytes, Option, List, [], ◌∷◌, ◌++◌, Err, Result,
  ok, err, panics, length, arith,
}
use stowmark.Base.Exec.{Exec, Ctx, attempt, attempt-ok, bind-ok}
use stowmark.Repository.Config.{FolderRepository}
use stowmark.Snapshot.Model.{
  File, Manifest, FailedResult, Report, new_report, ManifestRepository, ObjectRepository,
}
use stowmark.Snapshot.Key.{EncryptionData, symmetric_key, key_of, generation_of}
use stowmark.Snapshot.Restore.{relocate, recorded, restore_files, restore}

-- The failures among the outcomes of the files, in order.
abbrev failure_of : Bytes → Result (Unit {0}) → List (FailedResult Err)
failure_of path (err e) = record { path = path; reason = e } ∷ []
failure_of path _ = []

abbrev pub failures : List Bytes → List (Result (Unit {0})) → List (FailedResult Err)
failures (p ∷ ps) (o ∷ os) = failure_of p o ++ failures ps os
failures _ _ = []

module _ {W Reader : Type 0} (manifests : ManifestRepository W)
    (objects : ObjectRepository W Reader) (folder : FolderRepository W)
    (decrypt : Ctx → Bytes → Bytes → Exec W Bytes) where
  module _ (ctx : Ctx) (man : Manifest) (destination : Option Bytes)
      (d : Option EncryptionData) where
    abbrev pub target : File → File
    target = relocate man.source destination

    abbrev pub restored : File → Exec W (Unit {0})
    restored f = objects.restore_object ctx man.compression (target f) (key_of d) (generation_of d)

    -- Each outcome is that of the restore of its file, at the place where it goes, one after the
    -- other from a state to another.
    abbrev pub Outcomes : List File → List (Result (Unit {0})) → W → W → Type 0
    Outcomes [] [] w v = w ≡ v
    Outcomes (f ∷ fs) (o ∷ os) w v = ((restored f w).0 ≡ o) × Outcomes fs os (restored f w).1 v
    Outcomes _ _ w v = ⊥

    abbrev pub paths : List File → List Bytes
    paths [] = []
    paths (f ∷ fs) = (target f).path ∷ paths fs

    abbrev pub Reported : List File → Report Err → Report Err → W → W → Type 0
    Reported fs before after w v =
        (os : List (Result (Unit {0}))) × Outcomes fs os w v
        × (after.failed ≡ before.failed ++ failures (paths fs) os)
        × (after.total_files ≡ before.total_files + length fs)
        × (after.snapshot_id ≡ before.snapshot_id)

    recorded-eq :
        (f : File) (o : Result (Unit {0})) (r : Report Err)
        → ((p : String) → o ≢ panics p)
        → ((recorded f o r).failed ≡ r.failed ++ failure_of f.path o)
          × ((recorded f o r).total_files ≡ r.total_files + 1)
          × ((recorded f o r).snapshot_id ≡ r.snapshot_id)
    unfolding recorded
    recorded-eq f (ok x) r n = (sym (append-nil r.failed), refl, refl)
    recorded-eq f (err e') r n = (refl, refl, refl)
    recorded-eq f (panics p) r n = absurd (n p refl)

    reported :
        (fs : List File) (r : Report Err) (w : W) {rep : Report Err} {v : W}
        → restore_files manifests objects folder decrypt ctx man destination d fs r w ≡ (ok rep, v)
        → Reported fs r rep w v
    unfolding restore_files
    reported [] r w h =
        ([], ap (λ z. z.1) h, ground (arith, append-nil r.failed), ground arith, ground arith)
    reported (f ∷ fs) r w {rep} {v} h = bind-ok (attempt (restored f)) _ w h λ o u e t.
        let a = attempt-ok (restored f) w e in
        let q = recorded-eq (target f) o r a.2 in
        let (os, x, failed, total, id) = reported fs (recorded (target f) o r) u t in
        (
          o ∷ os,
          (a.0, subst (λ y. Outcomes fs os y v) (sym a.1) x),
          failed
              ∙ ap (λ l. l ++ failures (paths fs) os) q.0
              ∙ append_assoc r.failed (failure_of (target f).path o) (failures (paths fs) os),
          omega (arith, total, q.1),
          id ∙ q.2,
        )

  -- A restore that returns a report has tried every file of the manifest, in order, at the place
  -- where it goes, each from the state that the one before it left; it counts them all, and lists
  -- those whose restore failed, each with its error.
  pub restore-Reported :
      (ctx : Ctx) (id repository_path : Bytes) (destination private_key_path : Option Bytes) (w : W)
      (rep : Report Err) (v : W)
      → restore manifests objects folder decrypt ctx id repository_path destination private_key_path
          w
        ≡ (ok rep, v)
      → (d : Option EncryptionData) × (u : W) × (man : Manifest) × (u' : W) × (symmetric_key folder
            decrypt ctx private_key_path repository_path w
          ≡ (ok d, u))
        × (manifests.get ctx id u ≡ (ok man, u'))
        × Reported ctx man destination d man.files (new_report id) rep u' v
  unfolding restore
  restore-Reported ctx id repository_path destination private_key_path w rep v h =
      bind-ok (symmetric_key folder decrypt ctx private_key_path repository_path) _ w h
        λ d w1 e1 h1. bind-ok (manifests.get ctx id) _ w1 h1 λ man w2 e2 h2.
          (d, w1, man, w2, e1, e2, reported ctx man destination d man.files (new_report id) w2 h2)
