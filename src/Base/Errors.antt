-- ===== src/Base/Errors.antt =====
-- Go's `error` values, and the outcome of a call that returns one beside its value.
use Prim.Native.String.{String}
use mathlib.Core.Bool.{Bool, true, false, ◌||◌}
use stowmark.Base.Text.{Bytes}

-- What `errors.Is` and `errors.As` tell apart, wrapped as the code wraps it. The texts are the fixed
-- parts of the formats; arguments that a format puts in are left out.
pub data Err : Type 0 where
  -- `ctx.Err()` of a context that is done
  context_done : Err
  -- `fs.ErrNotExist`, `fs.ErrExist`
  not_exist : Err
  already_exist : Err
  -- `snapshot.NotFoundError` with its message, and `repository.NotFoundError`
  object_not_found : Bytes → Err
  repository_not_found : String → Err
  -- any other `errors.New` or `fmt.Errorf`, in the source or in a library
  failure : String → Err
  -- `fmt.Errorf("...: %w", err)`
  wrapped : String → Err → Err
  -- `errors.Join` of two errors
  joined : Err → Err → Err

-- `errors.Is(err, fs.ErrNotExist)`
abbrev pub is_not_exist : Err → Bool
is_not_exist not_exist = true
is_not_exist (wrapped _ e) = is_not_exist e
is_not_exist (joined a b) = is_not_exist a || is_not_exist b
is_not_exist _ = false

-- `panics` is a run-time panic: a nil dereference or a slice out of range.
pub data Result {ℓ} (A : Type ℓ) : Type ℓ where
  ok : A → Result A
  err : Err → Result A
  panics : String → Result A
