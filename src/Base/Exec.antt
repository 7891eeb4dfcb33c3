-- ===== src/Base/Exec.antt =====
-- Code that changes a state and may return an error. What was written before an error stays written.
pub mod Keeps
pub mod Ensures
pub mod Succeeds
pub mod Yields
pub mod Fails
use proton_carddav_sync.Base.Result.{Error, Result, ok, err, map_err}

abbrev pub Exec {ℓ} : Type ℓ → Type ℓ → Type ℓ
Exec S A = S → Result A × S

module _ {ℓ} {S A : Type ℓ} where
  unfoldable pub pure : A → Exec S A
  pure a s = (ok a, s)

  unfoldable pub fail : Error → Exec S A
  fail e s = (err e, s)

  unfoldable pub lift : Result A → Exec S A
  lift r s = (r, s)

  -- `x, err := m`, where the caller goes on in both cases
  unfoldable pub attempt : Exec S A → Exec S (Result A)
  attempt m s = let (r, t) = m s in (ok r, t)

  -- the error of `m`, wrapped
  unfoldable pub within : (Error → Error) → Exec S A → Exec S A
  within f m s = let (r, t) = m s in (map_err f r, t)

module _ {ℓ} {S A B : Type ℓ} where
  abbrev pub continue : Result A → (A → Exec S B) → Exec S B
  continue (ok a) f s = f a s
  continue (err e) f s = (err e, s)

  infixl 10 ◌>>=◌ ◌>>◌
  -- opening this opens the other combinators too
  unfoldable pub ◌>>=◌ : Exec S A → (A → Exec S B) → Exec S B
  unfolding pure fail lift attempt within
  ◌>>=◌ m f s = let (r, t) = m s in continue r f t

  abbrev pub ◌>>◌ : Exec S A → Exec S B → Exec S B
  m >> n = m >>= λ _. n
