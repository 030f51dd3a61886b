-- ===== src/Tests/Pools.antt =====
-- The worker pool at a pool of two workers that add numbers up.
use stowmark.Base.{ℕ, ◌+◌, ◌<◌, ◌≡◌, refl, true, List, [], ◌∷◌, Result, ok, arith}
use stowmark.Base.Exec.{Ctx, background}
use stowmark.Pool.{Pool, Move, start, feed, finish, step, run_pool, measure, next_move, is_done}
use stowmark.Pool.Settle.{Completed, run_pool-Completed, run_pool-is_done, next_move-lt}

abbrev add : Ctx → ℕ → ℕ → Result (Unit {0}) × ℕ
add ctx n total = (ok tt, total + n)

abbrev numbers : List ℕ
numbers = 1 ∷ 2 ∷ 3 ∷ []

-- Two jobs are taken, and the second is finished first.
abbrev some_moves : List Move
some_moves = feed ∷ feed ∷ finish 1 background ∷ []

run_pool-Completed_example : Completed 2 add numbers 0 (run_pool 2 add some_moves (start numbers 0))
run_pool-Completed_example = run_pool-Completed 2 add numbers 0 some_moves (omega arith)

run_pool-is_done_example : is_done (run_pool 2 add some_moves (start numbers 0)) ≡ true
run_pool-is_done_example = run_pool-is_done 2 add some_moves (start numbers 0) (omega arith)

abbrev begin : Pool ℕ ℕ
begin = start numbers 0

next_move-lt_example : measure (step 2 add (next_move begin) begin) < measure begin
next_move-lt_example = next_move-lt 2 add begin (omega arith) refl
