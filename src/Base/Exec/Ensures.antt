-- ===== src/Base/Exec/Ensures.antt =====
-- What holds of the value and the state where code returns no error.
use mathlib.Core.Path.{◌≡◌, refl}
use proton_carddav_sync.Base.Result.{Error, Result, ok, err, map_err}
use proton_carddav_sync.Base.Exec.{Exec, continue, ◌>>=◌}

pub map_err-inv {ℓ} :
    {A : Type ℓ} (f : Error → Error) (r : Result A) (a : A) → map_err f r ≡ ok a → r ≡ ok a
map_err-inv f (ok b) a h = h
map_err-inv f (err e) a h = cc h

pub record Ensures {ℓ} {S A : Type ℓ} (P : A → S → Type ℓ) (m : Result A × S) : Type ℓ where
  pub at : (a : A) → m.0 ≡ ok a → P a m.1

module _ {ℓ} {S A B : Type ℓ} where
  pub Ensures-continue :
      (P : B → S → Type ℓ) (r : Result A) (f : A → Exec S B) (s : S)
      → ((a : A) → r ≡ ok a → Ensures P (f a s))
      → Ensures P (continue r f s)
  Ensures-continue P (ok a) f s h = h a refl
  Ensures-continue P (err e) f s h = record { at = λ b returned. cc returned }

  -- The next step starts where the first one ended.
  pub Ensures-bind :
      (P : B → S → Type ℓ) (m : Exec S A) (f : A → Exec S B) (s : S)
      → ((a : A) → (m s).0 ≡ ok a → Ensures P (f a (m s).1))
      → Ensures P ((m >>= f) s)
  unfolding ◌>>=◌
  Ensures-bind P m f s h = Ensures-continue P (m s).0 f (m s).1 h
