-- ===== src/Tests/Services.antt =====
-- The services over snapshots: verification, restoration, hashing, listing and key rotation.
use mathlib.Core.List.{Perm}
use stowmark.Base.{
  arith, ◌≡◌, refl, codes, true, Option, none, some, List, [], ◌∷◌, ◌++◌, Err, Result, ok, length,
  ◌%◌, word_size,
}
use stowmark.Base.Exec.{background}
use stowmark.Base.Perms.{all_pass}
use stowmark.Pool.{Move, feed, finish, interrupt, stop}
use stowmark.Snapshot.Model.{File, Manifest, Report, new_report}
use stowmark.Snapshot.Key.{EncryptionData, symmetric_key}
use stowmark.Snapshot.Listing.{resume, total, resume_lem}
use stowmark.Snapshot.Hashing.{calculate, two_format_version}
use stowmark.Snapshot.Hashing.Laws.{SameFile}
use stowmark.Snapshot.Hashing.Calculated.{Filled, calculate-Filled}
use stowmark.Snapshot.Verify.{Reason, verify_file, verify_all, verify}
use stowmark.Snapshot.Verify.Laws.{expected, checked, verify_all_lem}
use stowmark.Snapshot.Verify.Cancel.{verify_interrupted}
use stowmark.Snapshot.Restore.{relocate, restore}
use stowmark.Snapshot.Restore.Laws.{Reported, restore-Reported}
use stowmark.Snapshot.Restore.Paths.{relocate_below, relocate_twice}
use stowmark.Tests.Unchanged.{
  State, good, bad, manifest, objects, manifests, folder, decrypt, source, sha256_hex,
}

resume_lem_example :
    ((resume manifest).files ≡ length manifest.files)
    × ((resume manifest).size ≡ total manifest.files % word_size)
resume_lem_example = resume_lem manifest

abbrev moved : File
moved = record { path = codes "/src/x/src"; size = 1; hash = []; chunks = [] }

relocate_below_example :
    relocate (codes "/src") (some (codes "/out")) good
    ≡ record good { path = codes "/out" ++ codes "/a" }
relocate_below_example =
    relocate_below 47 (codes "src") (codes "/out") (codes "/a") good refl (refl, (refl, tt))

abbrev twice : File
twice = record { path = codes "/src/src/a"; size = 1; hash = []; chunks = [] }

relocate_twice_example :
    (relocate (codes "/src") (some (codes "/out")) twice).path
    ≡ codes "/out" ++ (codes "/out" ++ codes "/a")
relocate_twice_example =
    relocate_twice 47 (codes "src") (codes "/out") (codes "/a") twice refl (refl, (refl, tt))

abbrev hashed : File
hashed = record good {
  chunks = record { hash = good.path; offset = 0; size = 3 } ∷ [];
  hash = good.path;
}

calculate-Filled_example :
    SameFile good hashed × Filled source two_format_version background good none tt hashed tt
unfolding calculate
calculate-Filled_example =
    calculate-Filled source two_format_version background good none tt hashed tt (omega arith) refl

abbrev some_moves : List Move
some_moves = feed ∷ feed ∷ finish 1 background ∷ []

abbrev report : Report Reason
report = record {
  snapshot_id = codes "s1";
  total_files = 2;
  failed =
      record { path = bad.path; reason = Reason.not_found (Err.object_not_found (codes "missing")) }
      ∷ [];
}

abbrev Always : State → Type 0
Always w = Unit {0}

abbrev outcome : File → Result (Option Reason)
outcome f = (verify_file objects sha256_hex background f [] 0 tt).0

stable :
    (f : File) (w : State)
    → Always w
    → ((verify_file objects sha256_hex background f [] 0 w).0 ≡ outcome f) × Always w
stable f w k = (refl, tt)

verify_all_lem_example :
    (report.total_files ≡ length manifest.files)
    × Perm report.failed (expected objects sha256_hex none Always outcome stable manifest.files)
    × (all_pass (checked objects sha256_hex none Always outcome stable) manifest.files ≡ true)
    × (report.snapshot_id ≡ codes "s1")
unfolding verify_all
verify_all_lem_example =
    verify_all_lem objects sha256_hex none Always outcome stable 4 2 some_moves (codes "s1")
      manifest.files tt report tt (refl, (refl, (refl, tt))) tt refl

verify_interrupted_example :
    verify objects sha256_hex manifests folder decrypt 4 2
      (interrupt ∷ stop ∷ [])
      background
      (codes "/r")
      (codes "s1")
      none
      tt
    ≡ (ok (new_report (codes "s1")), tt)
unfolding symmetric_key
verify_interrupted_example =
    verify_interrupted objects sha256_hex manifests folder decrypt 4 2 background (codes "/r")
      (codes "s1") none none manifest tt tt tt refl refl

abbrev restore_report : Report Err
restore_report = record {
  snapshot_id = codes "s1";
  total_files = 2;
  failed = record { path = bad.path; reason = Err.failure "open object" } ∷ [];
}

restore-Reported_example :
    (d : Option EncryptionData) × (u : State) × (man : Manifest) × (u' : State) × (symmetric_key
        folder decrypt background none
        (codes "/r")
        tt
      ≡ (ok d, u))
    × (manifests.get background (codes "s1") u ≡ (ok man, u'))
    × Reported manifests objects folder decrypt background man none d man.files
        (new_report (codes "s1"))
        restore_report
        u'
        tt
unfolding restore symmetric_key
restore-Reported_example =
    restore-Reported manifests objects folder decrypt background (codes "s1") (codes "/r") none none
      tt restore_report tt refl
