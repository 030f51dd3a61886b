-- ===== src/Snapshot/Create/Made.antt =====
-- The files that the pool of create.go leaves: each is a calculation of the source's file at its index.
use mathlib.Core.Logic.Or
use mathlib.Core.List.{Mem, mem-cons, not-mem-nil}
use stowmark.Base.{
  ℕ, Bytes, ◌≡◌, ◌≢◌, ◌⊎◌, inl, inr, refl, sym, ap, ◌∙◌, subst, Bool, true, false, ◌||◌, ◌==◌,
  ==_iff, Bool-cases, Option, some, List, [], ◌∷◌, Result, ok, err, panics, get_elem?, arith,
}
use stowmark.Base.Exec.{Ctx}
use stowmark.Repository.Compression.{Compression}
use stowmark.Snapshot.Model.{File, SourceRepository, ManifestRepository, ObjectRepository}
use stowmark.Snapshot.Hashing.{Calculator, calculate}
use stowmark.Snapshot.Hashing.Laws.{SameFile, calculate-SameFile}
use stowmark.Snapshot.Create.{Settings, Shared, create_job, file_job, calculated}
use stowmark.Snapshot.Create.Present.{Keeping}
use stowmark.Snapshot.Create.Jobs.{get_set, outcome_files, job_files}
use stowmark.Pool.{failed}
use stowmark.Pool.Serial.{serial, jobs_of, serial_first_ok}

SameFile-refl : (f : File) → SameFile f f
SameFile-refl f = record { path = refl; size = refl }

SameFile-trans : {f g h : File} → SameFile f g → SameFile g h → SameFile f h
SameFile-trans a b = record { path = b.path ∙ a.path; size = b.size ∙ a.size }

-- There is a file, which a calculation made of one with the path and the size of `f`.
pub record IsMade {W : Type 0} (source : SourceRepository W) (calculator : Calculator)
    (comp : Option Compression) (f : File) (o : Option File) : Type 0 where
  pub made : File
  pub found : o ≡ some made
  pub same : SameFile f made
  pub from : File
  pub same_from : SameFile f from
  pub outcome : (c : Ctx) × (u : W) × ((calculate source calculator c from comp u).0 ≡ ok made)

-- Whether an index is among those to do.
abbrev pub due : ℕ → List ℕ → Bool
due j [] = false
due j (i ∷ is) = (j == i) || due j is

Bool_set : IsSet Bool
Bool_set = hlevel

pub due-Mem : (j : ℕ) (is : List ℕ) → Mem j is → due j is ≡ true
due-Mem j [] m = absurd (not-mem-nil m)
due-Mem j (i ∷ is) m =
    Or.elim (Bool_set (due j (i ∷ is)) true) (mem-cons.0 m) (λ p. rw ((==_iff j i).1 p) refl)
      (λ r. ground (arith, due-Mem j is r))

module _ {W Reader : Type 0} (present : W → Bytes → Bool) (objects : ObjectRepository W Reader)
    (source : SourceRepository W) (manifests : ManifestRepository W) (s : Settings)
    (law : Keeping present objects source manifests s) (calculator : Calculator) where
  abbrev job : Ctx → ℕ → Shared W → Result (Unit {0}) × Shared W
  job = create_job objects s source calculator

  abbrev Named : File → Shared W → ℕ → Type 0
  Named f sh j = (g : File) × (get_elem? sh.files j ≡ some g) × SameFile f g

  abbrev MadeAt : File → Shared W → ℕ → Type 0
  MadeAt f sh j = IsMade source calculator s.compression f (get_elem? sh.files j)

  of_result :
      (c : Ctx) (i : ℕ) (f g : File) (sh : Shared W) (r : Result File) (u : W)
      → get_elem? sh.files i ≡ some g
      → SameFile f g
      → calculate source calculator c g s.compression sh.world ≡ (r, u)
      → failed (calculated objects s source calculator c i r (record sh { world = u })).0 ≡ false
      → MadeAt f (calculated objects s source calculator c i r (record sh { world = u })).1 i
  unfolding calculated
  of_result c i f g sh (err e) u at k e0 n = cc
  of_result c i f g sh (panics e) u at k e0 n = cc
  of_result c i f g sh (ok h) u at k e0 n = record {
    made = h;
    found = ap (λ fs. get_elem? fs i) (outcome_files i h _ _) ∙ get_set sh.files i h at;
    same =
        SameFile-trans k (calculate-SameFile source calculator c g s.compression sh.world h u e0);
    from = g;
    same_from = k;
    outcome = (c, sh.world, ap (λ z. z.0) e0);
  }

  job-IsMade :
      (c : Ctx) (i : ℕ) (f : File) (sh : Shared W)
      → Named f sh i
      → failed (job c i sh).0 ≡ false
      → MadeAt f (job c i sh).1 i
  unfolding create_job file_job
  job-IsMade c i f sh (g, at, k) n =
      rw (at, create_job, file_job)
        (of_result c i f g sh _ _ at k refl (rw (at, create_job, file_job) at n))

  unmoved :
      (c : Ctx) (i j : ℕ) (sh : Shared W)
      → j ≢ i
      → get_elem? sh.files j ≡ get_elem? (job c i sh).1.files j
  unmoved c i j sh n = sym (job_files present objects source manifests s law calculator c i sh j n)

  named : (f : File) (sh : Shared W) (j : ℕ) → MadeAt f sh j → Named f sh j
  named f sh j m = (m.made, m.found, m.same)

  -- After jobs that all succeed, each file with a job is made.
  pub all_made :
      (order : List (Ctx × ℕ)) (st : Result (Unit {0})) (a b : Shared W)
      → serial job order (st, a) ≡ (ok tt, b)
      → (j : ℕ) (f : File) → Named f a j
      → MadeAt f a j ⊎ (due j (jobs_of job order) ≡ true)
      → MadeAt f b j
  all_made [] st a b e j f k (inl d) = subst (λ x. MadeAt f x j) (ap (λ z. z.1) e) d
  all_made [] st a b e j f k (inr d) = cc
  all_made ((c, i) ∷ order) st a b e j f k d = elim (Bool-cases (j == i)) [
    | inl q ↦
        let m =
          subst (λ n. MadeAt f (job c i a).1 n) (sym ((==_iff j i).0 q))
            (job-IsMade c i f a (subst (λ n. Named f a n) ((==_iff j i).0 q) k)
              (serial_first_ok job c i order st a b e)) in
        all_made order _ (job c i a).1 b e j f (named f (job c i a).1 j m) (inl m)
    | inr q ↦
        let ne : j ≢ i = λ p. differ q ((==_iff j i).1 p) in
        all_made order _ (job c i a).1 b e j f
          (subst (λ (o : Option File). (g : File) × (o ≡ some g) × SameFile f g)
            (unmoved c i j a ne) k)
          (other ne q d)
  ]
    where
      differ : {x : Bool} → x ≡ false → x ≡ true → ⊥
      differ p q = cc

      other :
          j ≢ i
          → (j == i) ≡ false
          → MadeAt f a j ⊎ (due j (jobs_of job ((c, i) ∷ order)) ≡ true)
          → MadeAt f (job c i a).1 j ⊎ (due j (jobs_of job order) ≡ true)
      other ne q (inl m) =
          inl (subst (IsMade source calculator s.compression f) (unmoved c i j a ne) m)
      other ne q (inr m) = inr (rw q at m)
