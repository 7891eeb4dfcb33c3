-- ===== src/Base/Result.antt =====
-- Go's `(T, error)`. An error is a chain of messages, as `fmt.Errorf("…: %w", err)` builds it.
use Prim.Native.String.{String}
use mathlib.Core.Bool.{Bool, true, false}

pub data Error : Type 0 where
  -- `ctx.Err()`
  cancelled : Error
  -- `sql.ErrNoRows`
  no_rows : Error
  -- `errors.New(message)`, and the errors of the libraries
  failure : String → Error
  -- `fmt.Errorf("message: %w", err)`
  wrap : String → Error → Error
  -- `fmt.Errorf("message %q: %w", argument, err)`
  wrap_at : String → String → Error → Error

-- `errors.Is(err, sql.ErrNoRows)`
unfoldable pub is_no_rows : Error → Bool
is_no_rows cancelled = false
is_no_rows no_rows = true
is_no_rows (failure m) = false
is_no_rows (wrap m e) = is_no_rows e
is_no_rows (wrap_at m a e) = is_no_rows e

pub data Result {ℓ} (A : Type ℓ) : Type ℓ where
  ok : A → Result A
  err : Error → Result A

infixl 10 ◌>>=◌
abbrev pub ◌>>=◌ {ℓ κ} : {A : Type ℓ} {B : Type κ} → Result A → (A → Result B) → Result B
ok a >>= f = f a
err e >>= f = err e

-- `if err != nil { return fmt.Errorf(…, err) }`
abbrev pub map_err {ℓ} : {A : Type ℓ} → (Error → Error) → Result A → Result A
map_err f (ok a) = ok a
map_err f (err e) = err (f e)
