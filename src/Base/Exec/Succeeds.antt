-- ===== src/Base/Exec/Succeeds.antt =====
-- Code that returns a value, and no error, from every state where an invariant holds, and keeps the
-- invariant.
use mathlib.Core.Path.{◌≡◌, refl}
use proton_carddav_sync.Base.Result.{Error, Result, ok, err}
use proton_carddav_sync.Base.Exec.{Exec, pure, attempt, within, continue, ◌>>=◌}
use proton_carddav_sync.Base.Exec.Keeps.{Keeps}

pub record Returns {ℓ} {S A : Type ℓ} (P : S → Type ℓ) (r : Result A × S) : Type ℓ where
  pub value : A
  pub returned : r.0 ≡ ok value
  pub kept : P r.1

pub record Succeeds {ℓ} {S A : Type ℓ} (P : S → Type ℓ) (m : Exec S A) : Type ℓ where
  pub at : (s : S) → P s → Returns P (m s)

module _ {ℓ} {S A : Type ℓ} {P : S → Type ℓ} where
  pub Succeeds-pure : (a : A) → Succeeds P (pure a)
  unfolding pure
  Succeeds-pure a = record { at = λ s h. record { value = a; returned = refl; kept = h } }

  -- An error that the caller looks at is no failure of the caller.
  pub Succeeds-attempt : (m : Exec S A) → Keeps P m → Succeeds P (attempt m)
  unfolding attempt
  Succeeds-attempt m k = record {
    at = λ s h. record { value = (m s).0; returned = refl; kept = k.at s h };
  }

  Returns-within :
      (f : Error → Error) (r : Result A) (s : S)
      → Returns P (r, s)
      → Returns P (within f (λ _. (r, s)) s)
  unfolding within
  Returns-within f (ok a) s h = record { value = a; returned = refl; kept = h.kept }
  Returns-within f (err e) s h = cc (h.returned)

  pub Succeeds-within : (f : Error → Error) (m : Exec S A) → Succeeds P m → Succeeds P (within f m)
  unfolding within
  Succeeds-within f m k = record { at = λ s h. let (r, t) = m s in Returns-within f r t (k.at s h) }

module _ {ℓ} {S A B : Type ℓ} {P : S → Type ℓ} where
  Returns-continue :
      (r : Result A) (f : A → Exec S B) (s : S)
      → ((a : A) → Succeeds P (f a))
      → Returns P (r, s)
      → Returns P (continue r f s)
  Returns-continue (ok a) f s k h = (k a).at s h.kept
  Returns-continue (err e) f s k h = cc (h.returned)

  pub Succeeds-bind :
      (m : Exec S A) (f : A → Exec S B)
      → Succeeds P m
      → ((a : A) → Succeeds P (f a))
      → Succeeds P (m >>= f)
  unfolding ◌>>=◌
  Succeeds-bind m f km kf = record {
    at = λ s h. let (r, t) = m s in Returns-continue r f t kf (km.at s h);
  }
