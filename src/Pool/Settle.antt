-- ===== src/Pool/Settle.antt =====
-- A pool does not deadlock, and its fuel is enough: it always reaches its end.
use mathlib.Core.List.{Perm, append-nil}
use stowmark.Base.{
  ℕ, zero, suc, ◌<◌, ◌≤◌, Bool, true, false, List, [], ◌∷◌, ◌++◌, Result, ok, ◌≡◌, refl, subst, ap₂,
  ◌⊎◌, inl, inr, arith, All, Bool-cases,
}
use stowmark.Base.Exec.{Ctx, background}
use stowmark.Pool.{
  Pool, start, Move, interrupt, stop, failed, step, run, settle, run_pool, next_move, measure,
  is_done,
}
use stowmark.Pool.Serial.{serial, jobs_of, run_pool-Explains}

module _ {J A : Type 0} (workers : ℕ) (handle : Ctx → J → A → Result (Unit {0}) × A) where
  nearer :
      (busy todo : List J) (cancelled feeding interrupted : Bool) (acc : A)
      (status : Result (Unit {0}))
      → 0 < workers
      → let p : Pool J A = record {
        todo = todo;
        busy = busy;
        acc = acc;
        status = status;
        cancelled = cancelled;
        feeding = feeding;
        interrupted = interrupted;
      } in
        is_done p ≡ false → measure (step workers handle (next_move p) p) < measure p
  unfolding step
  nearer (j ∷ js) todo c f i acc st w h = omega arith
  nearer [] todo c false i acc st w h = cc
  nearer [] todo true true i acc st w h = omega arith
  nearer [] [] false true i acc st w h = omega arith
  nearer [] (t ∷ ts) false true i acc st w h = ground arith

  -- Until a pool with a worker is done, some goroutine can move, and that brings the end nearer.
  pub next_move-lt :
      (p : Pool J A)
      → 0 < workers
      → is_done p ≡ false
      → measure (step workers handle (next_move p) p) < measure p
  next_move-lt p w h = nearer p.busy p.todo p.cancelled p.feeding p.interrupted p.acc p.status w h

  done_stays :
      (busy todo : List J) (cancelled feeding interrupted : Bool) (acc : A)
      (status : Result (Unit {0}))
      → let p : Pool J A = record {
        todo = todo;
        busy = busy;
        acc = acc;
        status = status;
        cancelled = cancelled;
        feeding = feeding;
        interrupted = interrupted;
      } in
        is_done p ≡ true → is_done (step workers handle (next_move p) p) ≡ true
  unfolding step
  done_stays (j ∷ js) todo c f i acc st h = cc
  done_stays [] todo c true i acc st h = cc
  done_stays [] todo true false i acc st h = refl
  done_stays [] [] false false i acc st h = refl
  done_stays [] (t ∷ ts) false false i acc st h = refl

  settle-is_done :
      (n : ℕ) (p : Pool J A)
      → 0 < workers
      → measure p ≤ n
      → is_done (settle workers handle n p) ≡ true
  unfolding settle
  settle-is_done zero p w h = elim (Bool-cases (is_done p)) [
    | inl e ↦ e
    | inr e ↦ absurd (omega (arith, next_move-lt p w e))
  ]
  settle-is_done (suc n) p w h = elim (Bool-cases (is_done p)) [
    | inl e ↦
        settled n (step workers handle (next_move p) p)
          (done_stays p.busy p.todo p.cancelled p.feeding p.interrupted p.acc p.status e)
    | inr e ↦ settle-is_done n _ w (omega (arith, next_move-lt p w e))
  ]
    where
      settled :
          (n : ℕ) (q : Pool J A) → is_done q ≡ true → is_done (settle workers handle n q) ≡ true
      settled zero q e = e
      settled (suc n) q e =
          settled n (step workers handle (next_move q) q)
            (done_stays q.busy q.todo q.cancelled q.feeding q.interrupted q.acc q.status e)

  -- Whatever the moves, a pool with a worker comes to its end.
  pub run_pool-is_done :
      (ms : List Move) (p : Pool J A) → 0 < workers → is_done (run_pool workers handle ms p) ≡ true
  unfolding run_pool
  run_pool-is_done ms p w =
      settle-is_done (measure (run workers handle ms p)) (run workers handle ms p) w (omega arith)

  -- A pool that was cancelled and has stopped stays as it is.
  settle_stopped :
      (n : ℕ) (todo : List J) (acc : A) (status : Result (Unit {0})) (interrupted : Bool)
      → let p : Pool J A = record {
        todo = todo;
        busy = [];
        acc = acc;
        status = status;
        cancelled = true;
        feeding = false;
        interrupted = interrupted;
      } in
        settle workers handle n p ≡ p
  unfolding settle step
  settle_stopped zero todo acc status i = refl
  settle_stopped (suc n) todo acc status i = settle_stopped n todo acc status i

  -- A pool whose caller's context is done before the first job is offered does no job, and ends
  -- without an error.
  pub run_pool_interrupted :
      (jobs : List J) (acc : A)
      → run_pool workers handle (interrupt ∷ stop ∷ []) (start jobs acc) ≡ record {
        todo = jobs;
        busy = [];
        acc = acc;
        status = ok tt;
        cancelled = true;
        feeding = false;
        interrupted = true;
      }
  unfolding run_pool
  run_pool_interrupted jobs acc =
      settle_stopped (measure (run workers handle (interrupt ∷ stop ∷ []) (start jobs acc))) jobs
        acc (ok tt) true

  -- What a pool has done at its end.
  pub record Completed (jobs : List J) (acc : A) (p : Pool J A) : Type 0 where
    pub order : List (Ctx × J)
    pub effect : serial handle order (ok tt, acc) ≡ (p.status, p.acc)
    -- with those that were not done, they are the jobs of the pool
    pub rest : List J
    pub all_jobs : Perm (jobs_of handle order ++ rest) jobs
    pub complete :
        p.status ≡ ok tt
        → p.interrupted ≡ false
        → Perm (jobs_of handle order) jobs × All (λ (x : Ctx × J). x.0 ≡ background) order

  done_parts : (p : Pool J A) → is_done p ≡ true → (p.busy ≡ []) × (p.feeding ≡ false)
  done_parts p h = ground arith

  not_cancelled :
      (c i : Bool) (s : Result (Unit {0}))
      → (c ≡ true → (failed s ≡ true) ⊎ (i ≡ true))
      → s ≡ ok tt
      → i ≡ false
      → c ≡ false
  not_cancelled false i s h e k = refl
  not_cancelled true i s h e k = ground (arith, h refl)

  none_left :
      (p : Pool J A) → (p.todo ≡ []) ⊎ (p.cancelled ≡ true) → p.cancelled ≡ false → p.todo ≡ []
  none_left p (inl e) c = e
  none_left p (inr e) c = cc

  -- Whatever the moves, the outcome of a pool with a worker is that of some of its jobs, each at most
  -- once, one after the other; and if there was no error and the caller's context was not done, they are all of its
  -- jobs, each once, and none of them saw the context done.
  pub run_pool-Completed :
      (jobs : List J) (acc : A) (ms : List Move)
      → 0 < workers
      → Completed jobs acc (run_pool workers handle ms (start jobs acc))
  run_pool-Completed jobs acc ms w =
      let p = run_pool workers handle ms (start jobs acc) in
      let (order, x) = run_pool-Explains handle workers jobs acc ms in
      let d = done_parts p (run_pool-is_done ms (start jobs acc) w) in
      record {
        order = order;
        effect = x.effect;
        rest = p.busy ++ p.todo;
        all_jobs = x.all_jobs;
        complete = λ s i.
            let c = not_cancelled p.cancelled p.interrupted p.status x.cause s i in
            let t = none_left p (x.exhausted d.1) c in
            (
              subst (λ l. Perm l jobs) (append-nil (jobs_of handle order))
                  (subst (λ l. Perm (jobs_of handle order ++ l) jobs) (ap₂ ◌++◌ d.0 t) x.all_jobs),
              x.fresh c,
            );
      }
