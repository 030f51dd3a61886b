-- ===== src/Snapshot/Create/Jobs.antt =====
-- One job of the pool of create.go: the file at an index is hashed, and its objects are saved.
use stowmark.Base.{
  ℕ, zero, suc, Bytes, ◌≡◌, ◌≢◌, refl, ◌∙◌, ap, sym, subst, Bool, true, false, Option, none, some,
  List, [], ◌∷◌, Result, ok, err, panics, length, get_elem?, set,
}
use stowmark.Base.Exec.{Ctx}
use stowmark.Base.Perms.{all_pass}
use stowmark.Snapshot.Model.{File, SourceRepository, ManifestRepository, ObjectRepository}
use stowmark.Snapshot.Hashing.{Calculator}
use stowmark.Snapshot.Create.{
  Settings, Shared, save_file_objects, saved_outcome, calculated, file_job, create_job,
}
use stowmark.Snapshot.Create.Present.{
  Keeping, save_file_objects-Grows, calculate-Grows, save_file_objects-ok,
}
use stowmark.Pool.{failed}
use stowmark.Storage.Hashes.{parts}

abbrev pub parts_at : Option File → List Bytes
parts_at none = []
parts_at (some f) = parts f

pub get_set :
    (fs : List File) (i : ℕ) (f : File) {g : File}
    → get_elem? fs i ≡ some g
    → get_elem? (set fs i f) i ≡ some f
get_set [] i f h = cc
get_set (x ∷ fs) zero f h = refl
get_set (x ∷ fs) (suc i) f h = get_set fs i f h

get_set_other :
    (fs : List File) (i j : ℕ) (f : File) → j ≢ i → get_elem? (set fs i f) j ≡ get_elem? fs j
get_set_other [] i j f n = refl
get_set_other (x ∷ fs) zero zero f n = absurd (n refl)
get_set_other (x ∷ fs) zero (suc j) f n = refl
get_set_other (x ∷ fs) (suc i) zero f n = refl
get_set_other (x ∷ fs) (suc i) (suc j) f n = get_set_other fs i j f (λ e. n (ap suc e))

length-set : (fs : List File) (i : ℕ) (f : File) → length (set fs i f) ≡ length fs
length-set [] i f = refl
length-set (x ∷ fs) zero f = refl
length-set (x ∷ fs) (suc i) f = ap suc (length-set fs i f)

module _ {W : Type 0} where
  outcome_world :
      (i : ℕ) (f : File) (r : Result ℕ) (sh : Shared W)
      → (saved_outcome i f r sh).1.world ≡ sh.world
  outcome_world i f (ok n) sh = refl
  outcome_world i f (err e) sh = refl
  outcome_world i f (panics p) sh = refl

  pub outcome_files :
      (i : ℕ) (f : File) (r : Result ℕ) (sh : Shared W)
      → (saved_outcome i f r sh).1.files ≡ sh.files
  outcome_files i f (ok n) sh = refl
  outcome_files i f (err e) sh = refl
  outcome_files i f (panics p) sh = refl

module _ {W Reader : Type 0} (present : W → Bytes → Bool) (objects : ObjectRepository W Reader)
    (source : SourceRepository W) (manifests : ManifestRepository W) (s : Settings)
    (law : Keeping present objects source manifests s) (calculator : Calculator) where
  -- The objects of the file at an index are there.
  abbrev pub IsSaved : Shared W → ℕ → Type 0
  IsSaved sh i = all_pass (present sh.world) (parts_at (get_elem? sh.files i)) ≡ true

  calculated_world :
      (c : Ctx) (i : ℕ) (r : Result File) (sh : Shared W) (h : Bytes)
      → present sh.world h ≡ true
      → present (calculated objects s source calculator c i r sh).1.world h ≡ true
  unfolding calculated
  calculated_world c i (err e) sh h p = p
  calculated_world c i (panics e) sh h p = p
  calculated_world c i (ok f) sh h p =
      subst (λ w. present w h ≡ true) (sym (outcome_world i f _ _))
        ((save_file_objects-Grows present objects source manifests s law c f).at sh.world h p)

  file_world :
      (c : Ctx) (i : ℕ) (o : Option File) (sh : Shared W) (h : Bytes)
      → present sh.world h ≡ true
      → present (file_job objects s source calculator c i o sh).1.world h ≡ true
  unfolding file_job
  file_world c i none sh h p = p
  file_world c i (some f) sh h p = calculated_world c i _ _ h (
      (calculate-Grows present objects source manifests s law calculator c f s.compression).at
        sh.world h p)

  -- A job takes no object away.
  pub job_world :
      (c : Ctx) (i : ℕ) (sh : Shared W) (h : Bytes)
      → present sh.world h ≡ true
      → present (create_job objects s source calculator c i sh).1.world h ≡ true
  unfolding create_job
  job_world c i sh h p = file_world c i (get_elem? sh.files i) sh h p

  calculated_files :
      (c : Ctx) (i : ℕ) (r : Result File) (sh : Shared W) (j : ℕ)
      → j ≢ i
      → get_elem? (calculated objects s source calculator c i r sh).1.files j ≡ get_elem? sh.files j
  unfolding calculated
  calculated_files c i (err e) sh j n = refl
  calculated_files c i (panics e) sh j n = refl
  calculated_files c i (ok f) sh j n =
      ap (λ fs. get_elem? fs j) (outcome_files i f _ _) ∙ get_set_other sh.files i j f n

  -- A job changes no file but that at its index.
  pub job_files :
      (c : Ctx) (i : ℕ) (sh : Shared W) (j : ℕ)
      → j ≢ i
      → get_elem? (create_job objects s source calculator c i sh).1.files j ≡ get_elem? sh.files j
  unfolding create_job file_job
  job_files c i sh j n = of_file (get_elem? sh.files i)
    where
      of_file :
          (o : Option File)
          → get_elem? (file_job objects s source calculator c i o sh).1.files j
            ≡ get_elem? sh.files j
      of_file none = refl
      of_file (some f) = calculated_files c i _ _ j n

  calculated_count :
      (c : Ctx) (i : ℕ) (r : Result File) (sh : Shared W)
      → length (calculated objects s source calculator c i r sh).1.files ≡ length sh.files
  unfolding calculated
  calculated_count c i (err e) sh = refl
  calculated_count c i (panics e) sh = refl
  calculated_count c i (ok f) sh = ap length (outcome_files i f _ _) ∙ length-set sh.files i f

  -- A job changes no number of files.
  pub job_count :
      (c : Ctx) (i : ℕ) (sh : Shared W)
      → length (create_job objects s source calculator c i sh).1.files ≡ length sh.files
  unfolding create_job file_job
  job_count c i sh = of_file (get_elem? sh.files i)
    where
      of_file :
          (o : Option File)
          → length (file_job objects s source calculator c i o sh).1.files ≡ length sh.files
      of_file none = refl
      of_file (some f) = calculated_count c i _ _

  outcome-IsSaved :
      (c : Ctx) (i : ℕ) (f : File) (r : Result ℕ) (sh : Shared W) (u : W)
      → save_file_objects objects s c f u ≡ (r, sh.world)
      → get_elem? sh.files i ≡ some f
      → failed (saved_outcome i f r sh).0 ≡ false
      → IsSaved (saved_outcome i f r sh).1 i
  outcome-IsSaved c i f (err e) sh u h at n = cc
  outcome-IsSaved c i f (panics e) sh u h at n = cc
  outcome-IsSaved c i f (ok k) sh u h at n =
      rw at (save_file_objects-ok present objects source manifests s law c f u h)

  calculated-IsSaved :
      (c : Ctx) (i : ℕ) (r : Result File) (sh : Shared W) {g : File}
      → get_elem? sh.files i ≡ some g
      → failed (calculated objects s source calculator c i r sh).0 ≡ false
      → IsSaved (calculated objects s source calculator c i r sh).1 i
  unfolding calculated
  calculated-IsSaved c i (err e) sh at n = cc
  calculated-IsSaved c i (panics e) sh at n = cc
  calculated-IsSaved c i (ok f) sh at n =
      outcome-IsSaved c i f _ _ sh.world refl (get_set sh.files i f at) n

  -- After a job that succeeds the objects of its file are there.
  pub job-IsSaved :
      (c : Ctx) (i : ℕ) (sh : Shared W)
      → failed (create_job objects s source calculator c i sh).0 ≡ false
      → IsSaved (create_job objects s source calculator c i sh).1 i
  unfolding create_job file_job
  job-IsSaved c i sh n = of_file (get_elem? sh.files i) refl n
    where
      of_file :
          (o : Option File)
          → get_elem? sh.files i ≡ o
          → failed (file_job objects s source calculator c i o sh).0 ≡ false
          → IsSaved (file_job objects s source calculator c i o sh).1 i
      of_file none at n = cc
      of_file (some f) at n = calculated-IsSaved c i _ _ at n
