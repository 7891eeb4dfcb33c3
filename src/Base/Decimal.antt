-- ===== src/Base/Decimal.antt =====
-- `%d`: the decimal print of a natural number.
use Prim.Native.Char.{code}
use Prim.Native.Nat.{ℕ, suc, zero, ◌+◌, ◌*◌, ◌-◌, ◌/◌, ◌%◌, ◌<◌, ◌≤◌}
use Prim.Native.String.{String}
use mathlib.Core.Bool.{true, false}
use mathlib.Core.Logic.{inl, inr}
use mathlib.Core.Path.{◌≡◌, refl, sym, ap, ◌∙◌}
use native.Mathlib.Omega.{arith}
use proton_carddav_sync.Base.Tests.{ltb, if◌then◌else◌, Bool-cases}

-- The character at a position, before a text.
abbrev with_char : ℕ → String → String → String
with_char n String.[] tail = tail
with_char zero (String.◌∷◌ c s) tail = String.◌∷◌ c tail
with_char (suc n) (String.◌∷◌ c s) tail = with_char n s tail

unfoldable pub with_digit : ℕ → String → String
with_digit d tail = with_char d "0123456789" tail

-- The digits before `tail`; a number has no more digits than the fuel `n + 1`.
unfoldable pub digits_before : ℕ → ℕ → String → String
digits_before zero n tail = tail
digits_before (suc fuel) n tail =
    let more = digits_before fuel (n / 10) (with_digit (n % 10) tail) in
    if ltb n 10 then with_digit (n % 10) tail else more

unfoldable pub decimal : ℕ → String
decimal n = digits_before (suc n) n ""

-- Reading digits back, after a number read so far.
unfoldable read_digits : ℕ → String → ℕ
read_digits v String.[] = v
read_digits v (String.◌∷◌ c s) = read_digits (v * 10 + (code c - 48)) s

read_digit :
    (v d : ℕ) (tail : String)
    → d < 10
    → read_digits v (with_digit d tail) ≡ read_digits (v * 10 + d) tail
unfolding read_digits with_digit
read_digit v zero tail h = refl
read_digit v (suc zero) tail h = refl
read_digit v (suc (suc zero)) tail h = refl
read_digit v (suc (suc (suc zero))) tail h = refl
read_digit v (suc (suc (suc (suc zero)))) tail h = refl
read_digit v (suc (suc (suc (suc (suc zero))))) tail h = refl
read_digit v (suc (suc (suc (suc (suc (suc zero)))))) tail h = refl
read_digit v (suc (suc (suc (suc (suc (suc (suc zero))))))) tail h = refl
read_digit v (suc (suc (suc (suc (suc (suc (suc (suc zero)))))))) tail h = refl
read_digit v (suc (suc (suc (suc (suc (suc (suc (suc (suc zero))))))))) tail h = refl
read_digit v (suc (suc (suc (suc (suc (suc (suc (suc (suc (suc d)))))))))) tail h =
    absurd (omega arith)

below_ten : (n : ℕ) → ltb n 10 ≡ true → n < 10
below_ten n h = ground arith

ten_up : (n : ℕ) → ltb n 10 ≡ false → 10 ≤ n
ten_up n h = ground arith

read-digits_before :
    (fuel n : ℕ) (tail : String)
    → n < fuel
    → read_digits 0 (digits_before fuel n tail) ≡ read_digits n tail
unfolding digits_before
read-digits_before zero n tail h = absurd (omega arith)
read-digits_before (suc fuel) n tail h = elim (Bool-cases (ltb n 10)) [
  | inl small ↦ rw small (
      read_digit 0 (n % 10) tail (omega arith)
      ∙ ap (λ v. read_digits v tail) (omega (arith, below_ten n small)))
  | inr large ↦ rw large (
      read-digits_before fuel (n / 10) (with_digit (n % 10) tail) (omega (arith, ten_up n large))
      ∙ read_digit (n / 10) (n % 10) tail (omega arith)
      ∙ ap (λ v. read_digits v tail) (omega arith))
]

-- Different numbers print differently.
pub decimal_inj : (a b : ℕ) → decimal a ≡ decimal b → a ≡ b
unfolding decimal read_digits
decimal_inj a b h =
    sym (read-digits_before (suc a) a "" (omega arith))
    ∙ ap (read_digits 0) h
    ∙ read-digits_before (suc b) b "" (omega arith)
