-- ===== src/Base/Exec/Fails.antt =====
-- Code that returns an error from one given state, and what then holds of the state.
use mathlib.Core.Path.{◌≡◌, refl}
use proton_carddav_sync.Base.Result.{Error, Result, ok, err, map_err}
use proton_carddav_sync.Base.Exec.{Exec, lift, within, continue, ◌>>=◌}

pub record Fails {ℓ} {S A : Type ℓ} (P : S → Type ℓ) (r : Result A × S) : Type ℓ where
  pub error : Error
  pub failed : r.0 ≡ err error
  pub kept : P r.1

module _ {ℓ} {S A : Type ℓ} {P : S → Type ℓ} where
  pub Fails-err : (e : Error) (s : S) → P s → Fails {A = A} P (err e, s)
  Fails-err e s h = record { error = e; failed = refl; kept = h }

  -- What never returns a value fails.
  pub Fails-lift : (r : Result A) (s : S) → P s → ((a : A) → ¬ (r ≡ ok a)) → Fails P (lift r s)
  unfolding lift
  Fails-lift (ok a) s h never = absurd (never a refl)
  Fails-lift (err e) s h never = Fails-err e s h

  wrapped : (f : Error → Error) (r : Result A) (s : S) → Fails P (r, s) → Fails P (map_err f r, s)
  wrapped f (ok a) s h = cc (h.failed)
  wrapped f (err e) s h = Fails-err (f e) s h.kept

  pub Fails-within :
      (f : Error → Error) (m : Exec S A) (s : S) → Fails P (m s) → Fails P (within f m s)
  unfolding within
  Fails-within f m s h = wrapped f (m s).0 (m s).1 h

module _ {ℓ} {S A B : Type ℓ} {P : S → Type ℓ} where
  continued :
      (r : Result A) (f : A → Exec S B) (s : S)
      → P s
      → ((a : A) → r ≡ ok a → Fails P (f a s))
      → Fails P (continue r f s)
  continued (ok a) f s h next = next a refl
  continued (err e) f s h next = Fails-err e s h

  -- The first step may fail; where it does not, the next one does.
  pub Fails-bind :
      (m : Exec S A) (f : A → Exec S B) (s : S)
      → P (m s).1
      → ((a : A) → (m s).0 ≡ ok a → Fails P (f a (m s).1))
      → Fails P ((m >>= f) s)
  unfolding ◌>>=◌
  Fails-bind m f s h next = continued (m s).0 f (m s).1 h next

  pub Fails-first :
      (m : Exec S A) (f : A → Exec S B) (s : S) → Fails P (m s) → Fails P ((m >>= f) s)
  Fails-first m f s h = Fails-bind m f s h.kept (λ a e. cc (h.failed, e))
