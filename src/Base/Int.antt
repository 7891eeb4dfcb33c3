-- ===== src/Base/Int.antt =====
-- Go's `int`, as the integers that it can hold, and `strconv.Atoi`.
use Prim.Native.Nat.{ℕ, zero, suc, ◌+◌, ◌*◌, ◌-◌}
use Prim.Native.String.{String}
use mathlib.Core.Bool.{Bool, ◌&&◌}
use mathlib.Core.List.{List, [], ◌∷◌}
use proton_carddav_sync.Base.Result.{Error, failure, Result, ok, err, ◌>>=◌}
use proton_carddav_sync.Base.Tests.{leb, if◌then◌else◌, ◌==◌, nat_eq}
use proton_carddav_sync.Base.Text.{codes}

-- `negsuc n` is -(n + 1).
pub data ℤ : Type 0 where
  pos : ℕ → ℤ
  negsuc : ℕ → ℤ

-- The number, and 0 where it is negative.
abbrev pub pos_part : ℤ → ℕ
pos_part (pos n) = n
pos_part (negsuc n) = 0

-- `-n`
abbrev pub negated : ℕ → ℤ
negated zero = pos 0
negated (suc n) = negsuc n

-- `n <= 0`
abbrev pub not_positive : ℤ → Bool
not_positive n = pos_part n == 0

abbrev pub max_int : ℕ
max_int = 9_223_372_036_854_775_807

abbrev syntax_error : Error
syntax_error = failure "invalid syntax"

abbrev range_error : Error
range_error = failure "value out of range"

unfoldable pub is_digit : ℕ → Bool
is_digit c = leb b'0' c && leb c b'9'

-- The digits after a number read so far.
unfoldable pub read_number : List ℕ → ℕ → Result ℕ
unfolding is_digit
read_number [] n = ok n
read_number (c ∷ s) n =
    let rest = read_number s (n * 10 + (c - b'0')) in if is_digit c then rest else err syntax_error

unfoldable pub unsigned : List ℕ → Result ℕ
unfolding read_number
unsigned [] = err syntax_error
unsigned (c ∷ s) = read_number (c ∷ s) 0

-- A sign of `-` allows one number more.
abbrev pub fit_pos : ℕ → Result ℤ
fit_pos n = if leb n max_int then ok (pos n) else err range_error

abbrev pub fit_neg : ℕ → Result ℤ
fit_neg n = if leb n (max_int + 1) then ok (negated n) else err range_error

unfoldable pub signed : List ℕ → Result ℤ
unfolding unsigned
signed [] = err syntax_error
signed (c ∷ s) =
    if c == b'-'
    then unsigned s >>= fit_neg
    else if c == b'+'
    then unsigned s >>= fit_pos
    else unsigned (c ∷ s) >>= fit_pos

-- `strconv.Atoi`
unfoldable pub atoi : String → Result ℤ
unfolding signed
atoi s = signed (codes s)
