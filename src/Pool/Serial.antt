-- ===== src/Pool/Serial.antt =====
-- Every interleaving of a pool has the effect of its jobs one after the other, in some order.
use mathlib.Core.List.{Perm, append_assoc, map-append}
use mathlib.Core.List.Perm
use stowmark.Base.{
  ℕ, zero, suc, Bool, true, false, ◌&&◌, ◌||◌, Option, none, some, List, [], ◌∷◌, ◌++◌, map, Result,
  ok, err, panics, ltb, length, get_elem?, erase_idx, ◌≡◌, refl, subst, sym, ◌∙◌, ap, ◌⊎◌, inl, inr,
  arith, All, All-append, some_eq, Bool-cases,
}
use stowmark.Base.Exec.{Ctx, background}
use stowmark.Pool.{
  Pool, start, Move, feed, close, stop, interrupt, finish, note, failed, seen, step, run, settle,
  run_pool, next_move, measure, offer, close_channel, stop_feeding, run_job,
}

get_elem-perm :
    {J : Type 0} (xs : List J) (i : ℕ) {j : J}
    → get_elem? xs i ≡ some j
    → Perm (j ∷ erase_idx xs i) xs
get_elem-perm [] i h = cc
get_elem-perm (x ∷ xs) zero {j} h = subst (λ y. Perm (y ∷ xs) (x ∷ xs)) (some_eq h) (Perm.refl _)
get_elem-perm (x ∷ xs) (suc i) {j} h =
    Perm.trans (Perm.swap x j (erase_idx xs i)) (Perm.cons x (get_elem-perm xs i h))

failed-note : (s r : Result (Unit {0})) → failed (note s r) ≡ (failed s || failed r)
failed-note (ok _) r = refl
failed-note (err e) (ok _) = refl
failed-note (err e) (err _) = refl
failed-note (err e) (panics p) = refl
failed-note (panics p) r = refl

or_false : (a b : Bool) → (a || b) ≡ false → a ≡ false
or_false a b h = ground arith

or_false_right : (a b : Bool) → (a || b) ≡ false → b ≡ false
or_false_right a b h = ground arith

seen_fresh : (c : Bool) (ctx : Ctx) → c ≡ false → seen c ctx ≡ background
seen_fresh c ctx h = rw h

module _ {J A : Type 0} (handle : Ctx → J → A → Result (Unit {0}) × A) where
  -- The jobs in order, each with what it sees of the context; the first error is kept.
  abbrev pub one : Ctx × J → Result (Unit {0}) × A → Result (Unit {0}) × A
  one (ctx, j) (st, a) = let (r, a') = handle ctx j a in (note st r, a')

  abbrev pub serial : List (Ctx × J) → Result (Unit {0}) × A → Result (Unit {0}) × A
  serial [] s = s
  serial (x ∷ xs) s = serial xs (one x s)

  serial-snoc :
      (xs : List (Ctx × J)) (x : Ctx × J) (s : Result (Unit {0}) × A)
      → serial (xs ++ x ∷ []) s ≡ one x (serial xs s)
  serial-snoc [] x s = refl
  serial-snoc (y ∷ xs) x s = serial-snoc xs x (one y s)

  -- A serial run that ends without an error had none at its start, and its first job had none.
  pub serial_ok :
      (xs : List (Ctx × J)) (st : Result (Unit {0})) (a b : A)
      → serial xs (st, a) ≡ (ok tt, b)
      → failed st ≡ false
  serial_ok [] st a b h = ground arith
  serial_ok ((ctx, j) ∷ xs) st a b h =
      or_false (failed st) (failed (handle ctx j a).0)
        (sym (failed-note st (handle ctx j a).0) ∙ serial_ok xs _ (handle ctx j a).1 b h)

  pub serial_first_ok :
      (ctx : Ctx) (j : J) (xs : List (Ctx × J)) (st : Result (Unit {0})) (a b : A)
      → serial ((ctx, j) ∷ xs) (st, a) ≡ (ok tt, b)
      → failed (handle ctx j a).0 ≡ false
  serial_first_ok ctx j xs st a b h =
      or_false_right (failed st) (failed (handle ctx j a).0)
        (sym (failed-note st (handle ctx j a).0) ∙ serial_ok xs _ (handle ctx j a).1 b h)

  abbrev pub jobs_of : List (Ctx × J) → List J
  jobs_of = map (λ (x : Ctx × J). x.1)

  -- `order` explains the pool `p`, started on `jobs` from `acc`.
  pub record Explains (jobs : List J) (acc : A) (p : Pool J A) (order : List (Ctx × J))
      : Type 0 where
    pub effect : serial order (ok tt, acc) ≡ (p.status, p.acc)
    pub all_jobs : Perm (jobs_of order ++ (p.busy ++ p.todo)) jobs
    pub cause : p.cancelled ≡ true → (failed p.status ≡ true) ⊎ (p.interrupted ≡ true)
    pub fresh : p.cancelled ≡ false → All (λ (x : Ctx × J). x.0 ≡ background) order
    pub exhausted : p.feeding ≡ false → (p.todo ≡ []) ⊎ (p.cancelled ≡ true)

  module _ (workers : ℕ) (jobs : List J) (acc : A) where
    offer-Explains :
        (todo : List J) (p : Pool J A) {order : List (Ctx × J)}
        → p.todo ≡ todo
        → p.feeding ≡ true
        → Explains jobs acc p order
        → Explains jobs acc (offer workers handle todo p) order
    unfolding offer
    offer-Explains [] p e f h = h
    offer-Explains (j ∷ js) p {order} e f h = record {
      effect = h.effect;
      all_jobs =
          rw (append_assoc p.busy (j ∷ []) js)
            (subst (λ (t : List J). Perm (jobs_of order ++ (p.busy ++ t)) jobs) e h.all_jobs);
      cause = h.cause;
      fresh = h.fresh;
      exhausted = λ g. cc;
    }

    close-Explains :
        (todo : List J) (p : Pool J A) {order : List (Ctx × J)}
        → p.todo ≡ todo
        → Explains jobs acc p order
        → Explains jobs acc (close_channel workers handle todo p) order
    unfolding close_channel
    close-Explains [] p e h = record {
      effect = h.effect;
      all_jobs = h.all_jobs;
      cause = h.cause;
      fresh = h.fresh;
      exhausted = λ g. inl e;
    }
    close-Explains (j ∷ js) p e h = h

    stop-Explains :
        (c : Bool) (p : Pool J A) {order : List (Ctx × J)}
        → p.cancelled ≡ c
        → Explains jobs acc p order
        → Explains jobs acc (stop_feeding workers handle c p) order
    unfolding stop_feeding
    stop-Explains true p e h = record {
      effect = h.effect;
      all_jobs = h.all_jobs;
      cause = h.cause;
      fresh = h.fresh;
      exhausted = λ _. inr e;
    }
    stop-Explains false p e h = h

    -- the jobs that are done, in progress and to do, when one in progress is done
    jobs_of_finished :
        (order : List (Ctx × J)) (busy todo : List J) (i : ℕ) (ctx : Ctx) {j : J}
        → get_elem? busy i ≡ some j
        → Perm
            (jobs_of (order ++ (ctx, j) ∷ []) ++ (erase_idx busy i ++ todo))
            (jobs_of order ++ (busy ++ todo))
    jobs_of_finished order busy todo i ctx {j} e =
        rw (map-append, append_assoc)
          (Perm.append_left (jobs_of order) (Perm.append_right todo (get_elem-perm busy i e)))

    run_job-Explains :
        (i : ℕ) (ctx : Ctx) (o : Option J) (p : Pool J A) {order : List (Ctx × J)}
        → get_elem? p.busy i ≡ o
        → Explains jobs acc p order
        → (order' : List (Ctx × J)) × Explains jobs acc (run_job workers handle i ctx o p) order'
    unfolding run_job
    run_job-Explains i ctx none p {order} e h = (order, h)
    run_job-Explains i ctx (some j) p {order} e h =
        let r : Result (Unit {0}) = (handle (seen p.cancelled ctx) j p.acc).0 in
        (
          order ++ (seen p.cancelled ctx, j) ∷ [],
          record {
            effect =
                serial-snoc order (seen p.cancelled ctx, j) (ok tt, acc)
                ∙ ap (one (seen p.cancelled ctx, j)) h.effect;
            all_jobs =
                Perm.trans (jobs_of_finished order p.busy p.todo i (seen p.cancelled ctx) e)
                  h.all_jobs;
            cause = λ c. ground (arith, failed-note p.status r, h.cause);
            fresh = λ c.
                let c' : p.cancelled ≡ false = or_false p.cancelled (failed r) c in
                All-append _ order _ (h.fresh c') (seen_fresh p.cancelled ctx c', tt);
            exhausted = λ f. ground (arith, h.exhausted f);
          },
        )

    abbrev Explained : Pool J A → Type 0
    Explained p = (order : List (Ctx × J)) × Explains jobs acc p order

    step-Explains :
        (m : Move) (p : Pool J A) (order : List (Ctx × J))
        → Explains jobs acc p order
        → Explained (step workers handle m p)
    unfolding step
    step-Explains feed p order h = elim (Bool-cases (p.feeding && ltb (length p.busy) workers)) [
      | inl e ↦ rw e (order, offer-Explains p.todo p refl (ground arith) h)
      | inr e ↦ rw e (order, h)
    ]
    step-Explains close p order h = (order, close-Explains p.todo p refl h)
    step-Explains stop p order h = (order, stop-Explains p.cancelled p refl h)
    step-Explains interrupt p order h = (
      order,
      record {
        effect = h.effect;
        all_jobs = h.all_jobs;
        cause = λ _. inr refl;
        fresh = λ c. cc;
        exhausted = λ _. inr refl;
      },
    )
    step-Explains (finish i ctx) p order h = run_job-Explains i ctx (get_elem? p.busy i) p refl h

    run-Explains :
        (ms : List Move) (p : Pool J A) → Explained p → Explained (run workers handle ms p)
    unfolding run
    run-Explains [] p x = x
    run-Explains (m ∷ ms) p (order, h) =
        run-Explains ms (step workers handle m p) (step-Explains m p order h)

    settle-Explains : (n : ℕ) (p : Pool J A) → Explained p → Explained (settle workers handle n p)
    unfolding settle
    settle-Explains zero p x = x
    settle-Explains (suc n) p (order, h) =
        settle-Explains n (step workers handle (next_move p) p)
          (step-Explains (next_move p) p order h)

    start-Explains : Explains jobs acc (start jobs acc) []
    start-Explains = record {
      effect = refl;
      all_jobs = Perm.refl jobs;
      cause = λ c. cc;
      fresh = λ _. tt;
      exhausted = λ f. cc;
    }

    -- Whatever the moves, the pool has done some of its jobs, each once, one after the other.
    pub run_pool-Explains :
        (ms : List Move)
        → (order : List (Ctx × J)) × Explains jobs acc
            (run_pool workers handle ms (start jobs acc))
            order
    unfolding run_pool
    run_pool-Explains ms =
        settle-Explains (measure (run workers handle ms (start jobs acc))) _
          (run-Explains ms (start jobs acc) ([], start-Explains))
