-- ===== src/Pool/Calm.antt =====
-- Runs in which the caller's context is never done.
use stowmark.Base.{
  ℕ, zero, suc, ◌≡◌, refl, Bool, true, false, Option, none, some, List, [], ◌∷◌, Result, get_elem?,
  arith,
}
use stowmark.Base.Exec.{Ctx}
use stowmark.Pool.{
  Pool, Move, feed, close, stop, interrupt, finish, start, offer, close_channel, stop_feeding,
  run_job, step, run, settle, run_pool, next_move, measure,
}

abbrev pub is_interrupt : Move → Bool
is_interrupt interrupt = true
is_interrupt _ = false

-- No move makes the caller's context done.
abbrev pub IsCalm : List Move → Type 0
IsCalm [] = Unit {0}
IsCalm (m ∷ ms) = (is_interrupt m ≡ false) × IsCalm ms

module _ {J A : Type 0} (workers : ℕ) (handle : Ctx → J → A → Result (Unit {0}) × A) where
  offer_calm : (t : List J) (p : Pool J A) → (offer workers handle t p).interrupted ≡ p.interrupted
  unfolding offer
  offer_calm [] p = refl
  offer_calm (j ∷ js) p = refl

  close_calm :
      (t : List J) (p : Pool J A) → (close_channel workers handle t p).interrupted ≡ p.interrupted
  unfolding close_channel
  close_calm [] p = refl
  close_calm (j ∷ js) p = refl

  stop_calm :
      (c : Bool) (p : Pool J A) → (stop_feeding workers handle c p).interrupted ≡ p.interrupted
  unfolding stop_feeding
  stop_calm true p = refl
  stop_calm false p = refl

  job_calm :
      (i : ℕ) (ctx : Ctx) (o : Option J) (p : Pool J A)
      → (run_job workers handle i ctx o p).interrupted ≡ p.interrupted
  unfolding run_job
  job_calm i ctx none p = refl
  job_calm i ctx (some j) p = refl

  step_calm :
      (m : Move) (p : Pool J A)
      → is_interrupt m ≡ false
      → (step workers handle m p).interrupted ≡ p.interrupted
  unfolding step
  step_calm feed p h = ground (arith, offer_calm p.todo p)
  step_calm close p h = close_calm p.todo p
  step_calm stop p h = stop_calm p.cancelled p
  step_calm interrupt p h = cc
  step_calm (finish i ctx) p h = job_calm i ctx (get_elem? p.busy i) p

  next_calm : (p : Pool J A) → is_interrupt (next_move p) ≡ false
  next_calm p = ground arith

  run_calm :
      (ms : List Move) (p : Pool J A)
      → IsCalm ms
      → (run workers handle ms p).interrupted ≡ p.interrupted
  unfolding run
  run_calm [] p h = refl
  run_calm (m ∷ ms) p h =
      ground (arith, run_calm ms (step workers handle m p) h.1, step_calm m p h.0)

  settle_calm : (n : ℕ) (p : Pool J A) → (settle workers handle n p).interrupted ≡ p.interrupted
  unfolding settle
  settle_calm zero p = refl
  settle_calm (suc n) p = ground (
    arith,
    settle_calm n (step workers handle (next_move p) p),
    step_calm (next_move p) p (next_calm p),
  )

  pub run_pool_calm :
      (ms : List Move) (jobs : List J) (acc : A)
      → IsCalm ms
      → (run_pool workers handle ms (start jobs acc)).interrupted ≡ false
  unfolding run_pool
  run_pool_calm ms jobs acc h = ground (
    arith,
    settle_calm (measure (run workers handle ms (start jobs acc)))
        (run workers handle ms (start jobs acc)),
    run_calm ms (start jobs acc) h,
  )
