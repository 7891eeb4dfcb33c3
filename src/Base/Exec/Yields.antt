-- ===== src/Base/Exec/Yields.antt =====
-- Code that returns a value from one given state, and what then holds of that value and the state.
use mathlib.Core.Path.{◌≡◌, refl, subst}
use proton_carddav_sync.Base.Result.{Error, Result, ok, err, map_err}
use proton_carddav_sync.Base.Exec.{Exec, pure, lift, within, continue, ◌>>=◌}

pub record Yields {ℓ} {S A : Type ℓ} (Q : A → S → Type ℓ) (r : Result A × S) : Type ℓ where
  pub value : A
  pub returned : r.0 ≡ ok value
  pub holds : Q value r.1

module _ {ℓ} {S A : Type ℓ} {Q : A → S → Type ℓ} where
  pub Yields-pure : (a : A) (s : S) → Q a s → Yields Q (pure a s)
  unfolding pure
  Yields-pure a s h = record { value = a; returned = refl; holds = h }

  pub Yields-lift : (r : Result A) (a : A) (s : S) → r ≡ ok a → Q a s → Yields Q (lift r s)
  unfolding lift
  Yields-lift r a s e h = record { value = a; returned = e; holds = h }

  within_outcome :
      (f : Error → Error) (r : Result A) (s : S) → Yields Q (r, s) → Yields Q (map_err f r, s)
  within_outcome f (ok a) s y = y
  within_outcome f (err e) s y = cc (y.returned)

  pub Yields-within :
      (f : Error → Error) (m : Exec S A) (s : S) → Yields Q (m s) → Yields Q (within f m s)
  unfolding within
  Yields-within f m s y = within_outcome f (m s).0 (m s).1 y

pub Yields-map {ℓ} :
    {S A : Type ℓ} {R : A → S → Type ℓ} (Q : A → S → Type ℓ) (r : Result A × S)
    → Yields Q r
    → ((a : A) (s : S) → Q a s → R a s)
    → Yields R r
Yields-map Q r y weaken = record {
  value = y.value;
  returned = y.returned;
  holds = weaken y.value r.1 y.holds;
}

module _ {ℓ} {S A B : Type ℓ} {R : B → S → Type ℓ} where
  Yields-continue :
      (Q : A → S → Type ℓ) (r : Result A) (f : A → Exec S B) (s : S)
      → Yields Q (r, s)
      → ((a : A) → Q a s → Yields R (f a s))
      → Yields R (continue r f s)
  Yields-continue Q (ok a) f s y next =
      let same : y.value ≡ a = cc (y.returned) in next a (subst (λ v. Q v s) same y.holds)
  Yields-continue Q (err e) f s y next = cc (y.returned)

  -- The next step starts where the first one ended.
  pub Yields-bind :
      (Q : A → S → Type ℓ) (m : Exec S A) (f : A → Exec S B) (s : S)
      → Yields Q (m s)
      → ((a : A) → Q a (m s).1 → Yields R (f a (m s).1))
      → Yields R ((m >>= f) s)
  unfolding ◌>>=◌
  Yields-bind Q m f s y next = Yields-continue Q (m s).0 f (m s).1 y next
