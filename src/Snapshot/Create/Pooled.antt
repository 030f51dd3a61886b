-- ===== src/Snapshot/Create/Pooled.antt =====
-- What the pool of create.go leaves where no job failed: all files, each made and saved.
use mathlib.Core.Logic.Or
use mathlib.Core.List.{Mem, mem-cons, mem-cons_self, mem-cons_of_mem, not-mem-nil}
use mathlib.Core.List.Perm
use stowmark.Base.{
  ℕ, zero, suc, ◌+◌, ◌<◌, Bytes, ◌≡◌, ◌≢◌, ◌⊎◌, refl, ◌∙◌, ap, sym, subst, Bool, true, false, some,
  List, [], ◌∷◌, Result, ok, length, get_elem?, arith, inl, inr, ◌&&◌, ◌==◌, ==_iff, Bool-cases,
}
use stowmark.Base.Exec.{Ctx}
use stowmark.Base.Perms.{all_pass}
use stowmark.Snapshot.Model.{File, SourceRepository, ManifestRepository, ObjectRepository}
use stowmark.Snapshot.Hashing.{Calculator}
use stowmark.Snapshot.Create.{Settings, Shared, create_job, save_all, indices}
use stowmark.Snapshot.Create.Present.{Keeping}
use stowmark.Snapshot.Create.Made.{IsMade, all_made, due-Mem}
use stowmark.Snapshot.Create.Jobs.{parts_at, IsSaved, job_world, job_files, job_count, job-IsSaved}
use stowmark.Snapshot.Verify.{worker_count}
use stowmark.Pool.{Move, start, run_pool}
use stowmark.Pool.Serial.{serial, jobs_of, serial_first_ok}
use stowmark.Pool.Settle.{run_pool-Completed}
use stowmark.Storage.Hashes.{parts}

Bool_set : IsSet Bool
Bool_set = hlevel

and_left : (a b : Bool) → (a && b) ≡ true → a ≡ true
and_left a b h = ground arith

and_right : (a b : Bool) → (a && b) ≡ true → b ≡ true
and_right a b h = ground arith

-- A test that passes goes on to pass where what it asks for does.
pub all_pass_mono :
    {A : Type 0} (p q : A → Bool) (xs : List A)
    → ((x : A) → p x ≡ true → q x ≡ true)
    → all_pass p xs ≡ true
    → all_pass q xs ≡ true
all_pass_mono p q [] f h = refl
all_pass_mono p q (x ∷ xs) f h =
    rw (f x (and_left (p x) (all_pass p xs) h))
      (all_pass_mono p q xs f (and_right (p x) (all_pass p xs) h))

indices-Mem : (fs : List File) (k i : ℕ) → i < length fs → Mem (k + i) (indices k fs)
indices-Mem [] k i h = absurd (omega (arith, h))
indices-Mem (f ∷ fs) k zero h =
    subst (λ n. Mem n (k ∷ indices (k + 1) fs)) (omega arith) mem-cons_self
indices-Mem (f ∷ fs) k (suc i) h = mem-cons_of_mem k (
    subst (λ n. Mem n (indices (k + 1) fs)) (omega arith)
      (indices-Mem fs (k + 1) i (omega (arith, h))))

zero_left : {i : ℕ} → 0 + i ≡ i
zero_left = omega arith

worker_count_pos : (d w n : ℕ) → 0 < worker_count d w n
worker_count_pos d w n = ground arith

-- What holds at every index holds of every file.
at_all :
    (p : List Bytes → Bool) (fs : List File)
    → ((i : ℕ) → i < length fs → p (parts_at (get_elem? fs i)) ≡ true)
    → all_pass (λ f. p (parts f)) fs ≡ true
at_all p [] h = refl
at_all p (f ∷ fs) h = rw (h 0 (omega arith)) (at_all p fs λ i l. h (suc i) (omega (arith, l)))

module _ {W Reader : Type 0} (present : W → Bytes → Bool) (objects : ObjectRepository W Reader)
    (source : SourceRepository W) (manifests : ManifestRepository W) (s : Settings)
    (law : Keeping present objects source manifests s) (calculator : Calculator) where
  abbrev SavedAt : Shared W → ℕ → Type 0
  SavedAt = IsSaved present objects source manifests s law calculator

  abbrev job : Ctx → ℕ → Shared W → Result (Unit {0}) × Shared W
  job = create_job objects s source calculator

  kept : (c : Ctx) (i : ℕ) (sh : Shared W) (j : ℕ) → j ≢ i → SavedAt sh j → SavedAt (job c i sh).1 j
  kept c i sh j n h =
      subst (λ o. all_pass (present (job c i sh).1.world) (parts_at o) ≡ true)
        (sym (job_files present objects source manifests s law calculator c i sh j n))
        (all_pass_mono (present sh.world) (present (job c i sh).1.world)
          (parts_at (get_elem? sh.files j))
          (job_world present objects source manifests s law calculator c i sh) h)

  -- Either the objects of the file are there, or its job is still to come.
  abbrev Due : List ℕ → Shared W → ℕ → Type 0
  Due is sh j = SavedAt sh j ⊎ Mem j is

  due_next :
      {P : Type 0} (c : Ctx) (i : ℕ) (is : List ℕ) (sh : Shared W) (j : ℕ)
      → IsProp P
      → SavedAt (job c i sh).1 i
      → Due (i ∷ is) sh j
      → (Due is (job c i sh).1 j → P)
      → P
  due_next {P} c i is sh j prop done d k = elim (Bool-cases (j == i)) [
    | inl e ↦ k (inl (subst (λ n. SavedAt (job c i sh).1 n) (sym ((==_iff j i).0 e)) done))
    | inr e ↦ other (λ p. differ e ((==_iff j i).1 p)) d
  ]
    where
      differ : {b : Bool} → b ≡ false → b ≡ true → ⊥
      differ p q = cc

      other : j ≢ i → Due (i ∷ is) sh j → P
      other ne (inl h) = k (inl (kept c i sh j ne h))
      other ne (inr m) = Or.elim prop (mem-cons.0 m) (λ p. absurd (ne p)) (λ r. k (inr r))

  -- After jobs that all succeed the objects of each of their files are there.
  all_saved :
      (order : List (Ctx × ℕ)) (st : Result (Unit {0})) (a b : Shared W)
      → serial job order (st, a) ≡ (ok tt, b)
      → (j : ℕ) → Due (jobs_of job order) a j
      → SavedAt b j
  all_saved [] st a b e j (inl d) = subst (λ x. SavedAt x j) (ap (λ z. z.1) e) d
  all_saved [] st a b e j (inr m) = absurd (not-mem-nil m)
  all_saved ((c, i) ∷ order) st a b e j d =
      due_next c i (jobs_of job order) a j (Bool_set _ _)
        (job-IsSaved present objects source manifests s law calculator c i a
          (serial_first_ok job c i order st a b e))
        d (all_saved order _ (job c i a).1 b e j)

  same_length :
      (order : List (Ctx × ℕ)) (st : Result (Unit {0})) (a b : Shared W)
      → serial job order (st, a) ≡ (ok tt, b)
      → length b.files ≡ length a.files
  same_length [] st a b e = ap (λ z. length z.1.files) (sym e)
  same_length ((c, i) ∷ order) st a b e =
      same_length order _ (job c i a).1 b e
      ∙ job_count present objects source manifests s law calculator c i a

  -- The files that the pool leaves, where no job failed and the context was not done.
  pub pool_saved :
      (default_workers workers : ℕ) (moves : List Move) (files : List File) (w : W)
      → let p = save_all objects s source calculator default_workers workers moves files w in
        p.status ≡ ok tt
        → p.interrupted ≡ false
        → all_pass (λ f. all_pass (present p.acc.world) (parts f)) p.acc.files ≡ true
  unfolding save_all
  pool_saved default_workers workers moves files w done calm =
      let begin : Shared W = record {
        world = w;
        files = files;
        total_size = 0;
        saved_files = [];
      } in
      let n = worker_count default_workers workers (length files) in
      let p = run_pool n job moves (start (indices 0 files) begin) in
      let c =
        run_pool-Completed n job (indices 0 files) begin moves
          (worker_count_pos default_workers workers (length files)) in
      let effect = c.effect ∙ ap (λ r. (r, p.acc)) done in
      let each_once = (c.complete done calm).0 in
      let same = same_length c.order (ok tt) begin p.acc effect in
      at_all (all_pass (present p.acc.world)) p.acc.files λ i l.
        all_saved c.order (ok tt) begin p.acc effect i (
          inr (
            (Perm.mem_iff each_once).1 (
              subst (λ k. Mem k (indices 0 files)) zero_left
                (indices-Mem files 0 i (omega (arith, l, same))))))

  get_elem?-lt : (fs : List File) (i : ℕ) {f : File} → get_elem? fs i ≡ some f → i < length fs
  get_elem?-lt [] i h = cc
  get_elem?-lt (x ∷ fs) zero h = omega arith
  get_elem?-lt (x ∷ fs) (suc i) h = omega (arith, get_elem?-lt fs i h)

  pub pool_count :
      (default_workers workers : ℕ) (moves : List Move) (files : List File) (w : W)
      → let p = save_all objects s source calculator default_workers workers moves files w in
        p.status ≡ ok tt → length p.acc.files ≡ length files
  unfolding save_all
  pool_count default_workers workers moves files w done =
      let begin : Shared W = record {
        world = w;
        files = files;
        total_size = 0;
        saved_files = [];
      } in
      let n = worker_count default_workers workers (length files) in
      let p = run_pool n job moves (start (indices 0 files) begin) in
      let c =
        run_pool-Completed n job (indices 0 files) begin moves
          (worker_count_pos default_workers workers (length files)) in
      same_length c.order (ok tt) begin p.acc (c.effect ∙ ap (λ r. (r, p.acc)) done)

  pub pool-IsMade :
      (default_workers workers : ℕ) (moves : List Move) (files : List File) (w : W)
      → let p = save_all objects s source calculator default_workers workers moves files w in
        p.status ≡ ok tt
        → p.interrupted ≡ false
        → (i : ℕ) (f : File) → get_elem? files i ≡ some f
        → IsMade source calculator s.compression f (get_elem? p.acc.files i)
  unfolding save_all
  pool-IsMade default_workers workers moves files w done calm i f at =
      let begin : Shared W = record {
        world = w;
        files = files;
        total_size = 0;
        saved_files = [];
      } in
      let n = worker_count default_workers workers (length files) in
      let p = run_pool n job moves (start (indices 0 files) begin) in
      let c =
        run_pool-Completed n job (indices 0 files) begin moves
          (worker_count_pos default_workers workers (length files)) in
      all_made present objects source manifests s law calculator c.order (ok tt) begin p.acc
        (c.effect ∙ ap (λ r. (r, p.acc)) done) i f (f, at, record { path = refl; size = refl })
        (inr (
          due-Mem i (jobs_of job c.order) (
            (Perm.mem_iff (c.complete done calm).0).1 (
              subst (λ k. Mem k (indices 0 files)) zero_left
                (indices-Mem files 0 i (get_elem?-lt files i at))))))
