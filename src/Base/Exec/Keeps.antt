-- ===== src/Base/Exec/Keeps.antt =====
-- Invariants of code that changes a state, whether it returns or fails: one rule for each way to
-- build such code.
use mathlib.Core.Path.{◌≡◌, refl, sym, subst}
use mathlib.Core.Bool.{Bool, true, false}
use proton_carddav_sync.Base.Tests.{if◌then◌else◌}
use proton_carddav_sync.Base.Result.{Error, Result, ok, err}
use proton_carddav_sync.Base.Exec.{Exec, pure, fail, lift, attempt, within, continue, ◌>>=◌, ◌>>◌}

pub record Keeps {ℓ} {S A : Type ℓ} (P : S → Type ℓ) (m : Exec S A) : Type ℓ where
  pub at : (before : S) → P before → P (m before).1

module _ {ℓ} {S A : Type ℓ} {P : S → Type ℓ} where
  -- Code that leaves every state as it is keeps everything.
  still : (m : Exec S A) → ((s : S) → (m s).1 ≡ s) → Keeps P m
  still m unchanged = record { at = λ s. subst P (sym (unchanged s)) }

  pub Keeps-lift : (outcome : Result A) → Keeps P (lift outcome)
  unfolding lift
  Keeps-lift outcome = still _ (λ s. refl)

  pub Keeps-pure : (value : A) → Keeps P (pure value)
  unfolding pure
  Keeps-pure value = still _ (λ s. refl)

  pub Keeps-fail : (e : Error) → Keeps P (fail {A = A} e)
  unfolding fail
  Keeps-fail e = still _ (λ s. refl)

  pub Keeps-attempt : (m : Exec S A) → Keeps P m → Keeps P (attempt m)
  unfolding attempt
  Keeps-attempt m k = record { at = λ s h. k.at s h }

  pub Keeps-within : (f : Error → Error) (m : Exec S A) → Keeps P m → Keeps P (within f m)
  unfolding within
  Keeps-within f m k = record { at = λ s h. k.at s h }

  pub Keeps-if : (b : Bool) (m n : Exec S A) → Keeps P m → Keeps P n → Keeps P (if b then m else n)
  Keeps-if true m n km kn = km
  Keeps-if false m n km kn = kn

module _ {ℓ} {S A B : Type ℓ} {P : S → Type ℓ} where
  Keeps-continue :
      (r : Result A) (f : A → Exec S B) (s : S)
      → ((a : A) → Keeps P (f a))
      → P s
      → P ((lift r >>= f) s).1
  unfolding ◌>>=◌
  Keeps-continue (ok a) f s k h = (k a).at s h
  Keeps-continue (err e) f s k h = h

  pub Keeps-bind :
      (first : Exec S A) (next : A → Exec S B)
      → Keeps P first
      → ((value : A) → Keeps P (next value))
      → Keeps P (first >>= next)
  unfolding ◌>>=◌
  Keeps-bind first next one others = record {
    at = λ before holds.
        Keeps-continue (first before).0 next (first before).1 others (one.at before holds);
  }

  Keeps-known_continue :
      (outcome : Result A) (next : A → Exec S B) (s : S)
      → ((value : A) → outcome ≡ ok value → Keeps P (next value))
      → P s
      → P (continue outcome next s).1
  Keeps-known_continue (ok value) next s others holds = (others value refl).at s holds
  Keeps-known_continue (err e) next s others holds = holds

  -- What follows may use how its argument came about.
  pub Keeps-bind_known :
      (first : Exec S A) (next : A → Exec S B)
      → Keeps P first
      → ((s : S) (value : A) → P s → (first s).0 ≡ ok value → Keeps P (next value))
      → Keeps P (first >>= next)
  unfolding ◌>>=◌
  Keeps-bind_known first next one others = record {
    at = λ s holds.
        Keeps-known_continue (first s).0 next (first s).1 (λ value. others s value holds)
          (one.at s holds);
  }

module _ {ℓ} {S A B : Type ℓ} (P : S → Type ℓ) where
  after_continue :
      (outcome : Result A) (next : A → Exec S B) (s : S)
      → P s
      → ((value : A) → outcome ≡ ok value → P (next value s).1)
      → P (continue outcome next s).1
  after_continue (ok value) next s holds others = others value refl
  after_continue (err e) next s holds others = holds

  -- What holds after one run, where the next step may use what the first one returned and left.
  pub after_bind :
      (first : Exec S A) (next : A → Exec S B) (s : S)
      → P (first s).1
      → ((value : A) → (first s).0 ≡ ok value → P (next value (first s).1).1)
      → P ((first >>= next) s).1
  unfolding ◌>>=◌
  after_bind first next s holds others = after_continue (first s).0 next (first s).1 holds others

module _ {ℓ} {S A B : Type ℓ} {P : S → Type ℓ} where
  pub Keeps-then : (m : Exec S A) (n : Exec S B) → Keeps P m → Keeps P n → Keeps P (m >> n)
  Keeps-then m n km kn = Keeps-bind m (λ _. n) km (λ _. kn)

pub ruleset keeps_rules = (
  Keeps-pure, Keeps-fail, Keeps-lift, Keeps-attempt, Keeps-within, Keeps-if, Keeps-then, Keeps-bind,
)
