-- ===== src/Pool.antt =====
-- The worker pool that verifier.go, create.go and rekey.go each write out: one goroutine offers the
-- jobs over an unbuffered channel, at most `workers` jobs are in progress, the first error cancels
-- the derived context, and the loop that offers jobs stops when that context is done. A move is one
-- step of some goroutine; a run is any sequence of moves.
pub mod Serial
pub mod Settle
pub mod Calm
use stowmark.Base.{
  ℕ, zero, suc, ◌+◌, ◌*◌, Bool, true, false, ◌&&◌, ◌||◌, Option, none, some, List, [], ◌∷◌, ◌++◌,
  Result, ok, err, panics, String, ltb, length, get_elem?, erase_idx, if◌then◌else◌,
}
use stowmark.Base.Exec.{Ctx, background}

pub record Pool (J A : Type 0) : Type 0 where
  -- jobs not offered yet, and jobs that a worker has taken
  pub todo : List J
  pub busy : List J
  pub acc : A
  -- `firstErr`; a panic of a worker ends the program
  pub status : Result (Unit {0})
  -- the derived context is done
  pub cancelled : Bool
  -- the loop that offers jobs is running
  pub feeding : Bool
  -- the context that the caller gave is done
  pub interrupted : Bool

abbrev pub start : {J A : Type 0} → List J → A → Pool J A
start jobs acc = record {
  todo = jobs;
  busy = [];
  acc = acc;
  status = ok tt;
  cancelled = false;
  feeding = true;
  interrupted = false;
}

pub data Move : Type 0 where
  -- `case jobs <- job`: a free worker takes the next job
  feed : Move
  -- the loop ends for want of jobs, and the channel is closed
  close : Move
  -- `case <-ctx.Done()`
  stop : Move
  -- the caller's context becomes done
  interrupt : Move
  -- the i-th job in progress runs; what its calls see of the context, if that is done
  finish : ℕ → Ctx → Move

-- `if firstErr == nil { firstErr = err }`
abbrev pub note : Result (Unit {0}) → Result (Unit {0}) → Result (Unit {0})
note (ok _) r = r
note (err e) (panics p) = panics p
note (err e) _ = err e
note (panics p) _ = panics p

abbrev pub failed : Result (Unit {0}) → Bool
failed (ok _) = false
failed _ = true

-- What a job sees of the derived context.
abbrev pub seen : Bool → Ctx → Ctx
seen true ctx = ctx
seen false ctx = background

abbrev pub measure : {J A : Type 0} → Pool J A → ℕ
measure p = length p.todo + length p.todo + length p.busy + (if p.feeding then 1 else 0)

-- A move that brings a pool nearer to its end.
abbrev pub next_move : {J A : Type 0} → Pool J A → Move
next_move p = elim p.busy [
  | j ∷ js ↦ finish 0 background
  | [] ↦ if p.cancelled then stop else elim p.todo [ [] ↦ close | j ∷ js ↦ feed ]
]

module _ {J A : Type 0} (workers : ℕ) (handle : Ctx → J → A → Result (Unit {0}) × A) where
  pub offer : List J → Pool J A → Pool J A
  offer [] p = p
  offer (j ∷ js) p = record p { todo = js; busy = p.busy ++ j ∷ [] }

  pub close_channel : List J → Pool J A → Pool J A
  close_channel [] p = record p { feeding = false }
  close_channel (j ∷ js) p = p

  pub stop_feeding : Bool → Pool J A → Pool J A
  stop_feeding true p = record p { feeding = false }
  stop_feeding false p = p

  pub run_job : ℕ → Ctx → Option J → Pool J A → Pool J A
  run_job i ctx none p = p
  run_job i ctx (some j) p =
      let (r, acc') = handle (seen p.cancelled ctx) j p.acc in
      record p {
        busy = erase_idx p.busy i;
        acc = acc';
        status = note p.status r;
        cancelled = p.cancelled || failed r;
      }

  -- A move that cannot be made changes nothing.
  unfoldable pub step : Move → Pool J A → Pool J A
  unfolding offer close_channel stop_feeding run_job
  step feed p = if p.feeding && ltb (length p.busy) workers then offer p.todo p else p
  step close p = close_channel p.todo p
  step stop p = stop_feeding p.cancelled p
  step interrupt p = record p { cancelled = true; interrupted = true }
  step (finish i ctx) p = run_job i ctx (get_elem? p.busy i) p

  unfoldable pub run : List Move → Pool J A → Pool J A
  unfolding step
  run [] p = p
  run (m ∷ ms) p = run ms (step m p)

  pub settle : ℕ → Pool J A → Pool J A
  settle zero p = p
  settle (suc n) p = settle n (step (next_move p) p)

  -- Some moves, and then whatever is left: `wg.Wait()` after the loop.
  unfoldable pub run_pool : List Move → Pool J A → Pool J A
  unfolding run settle
  run_pool moves p = let q = run moves p in settle (measure q) q

abbrev pub is_done : {J A : Type 0} → Pool J A → Bool
is_done p = elim p.busy [ [] ↦ elim p.feeding [ true ↦ false | false ↦ true ] | _ ↦ false ]
