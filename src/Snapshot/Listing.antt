-- ===== src/Snapshot/Listing.antt =====
-- listing.go: a line for each manifest, with the number and the total size of its files.
use stowmark.Base.{ℕ, ◌+◌, ◌%◌, ◌≡◌, List, [], ◌∷◌, map, length, add64, word_size, arith, ◌<◌}
use stowmark.Base.Exec.{Exec, Ctx, ◌>>=◌, pure}
use stowmark.Snapshot.Model.{File, Manifest, ManifestResume, ManifestRepository}

-- The loop over the files, with `files++` and `size += f.Size()`.
pub count_files : ℕ → ℕ → List File → ℕ × ℕ
count_files files size [] = (files, size)
count_files files size (f ∷ fs) = count_files (files + 1) (add64 size f.size) fs

unfoldable pub resume : Manifest → ManifestResume
unfolding count_files
resume m =
    let (files, size) = count_files 0 0 m.files in
    record { id = m.id; created_at = m.created_at; files = files; size = size; source = m.source }

unfoldable pub list_snapshots :
    {W : Type 0} → ManifestRepository W → Ctx → Exec W (List ManifestResume)
unfolding resume
list_snapshots repo ctx = do manifests ← repo.list ctx; pure (map resume manifests)

abbrev pub total : List File → ℕ
total [] = 0
total (f ∷ fs) = f.size + total fs

count_files_lem :
    (files size : ℕ) (fs : List File)
    → size < word_size
    → ((count_files files size fs).0 ≡ files + length fs)
      × ((count_files files size fs).1 ≡ (size + total fs) % word_size)
unfolding count_files
count_files_lem files size [] h = (omega arith, omega arith)
count_files_lem files size (f ∷ fs) h =
    let ih = count_files_lem (files + 1) (add64 size f.size) fs (omega arith) in
    (omega (arith, ih.0), omega (arith, ih.1))

-- A line of the listing has the number of the manifest's files, and their total size as an `int64`
-- that wraps around.
pub resume_lem :
    (m : Manifest)
    → ((resume m).files ≡ length m.files) × ((resume m).size ≡ total m.files % word_size)
unfolding resume
resume_lem m =
    let r = count_files_lem 0 0 m.files (omega arith) in (omega (arith, r.0), omega (arith, r.1))
