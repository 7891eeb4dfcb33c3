-- ===== src/Time.antt =====
-- The part of Go's `time` that the program uses: `time.Parse` for the four layouts of a REV property,
-- and `Time.After`. An instant is the number of nanoseconds since a day and more before year 0.
use proton_carddav_sync.Base.{
  ℕ, zero, suc, ◌+◌, ◌-◌, ◌*◌, ◌/◌, ◌%◌, ◌^◌, Bool, true, false, ◌&&◌, ◌||◌, Option, none, some,
  List, [], ◌∷◌, length, ◌==◌, nat_eq, ltb, leb, if◌then◌else◌,
}

abbrev pub Instant : Type 0
Instant = ℕ

-- What is read so far, and the rest of the text.
abbrev Read : Type 0
Read = Option (ℕ × List ℕ)

infixl 10 ◌>>=◌
abbrev ◌>>=◌ : {A B : Type 0} → Option A → (A → Option B) → Option B
none >>= f = none
some x >>= f = f x

is_digit : ℕ → Bool
is_digit c = leb b'0' c && leb c b'9'

abbrev digit : ℕ → ℕ
digit c = c - b'0'

-- `getnum(value, true)`
two_digits : List ℕ → Read
unfolding is_digit
two_digits (a ∷ b ∷ s) = if is_digit a && is_digit b then some (digit a * 10 + digit b, s) else none
two_digits _ = none

-- `getnum(value, false)`
one_or_two_digits : List ℕ → Read
unfolding is_digit
one_or_two_digits [] = none
one_or_two_digits (a ∷ []) = if is_digit a then some (digit a, []) else none
one_or_two_digits (a ∷ b ∷ s) =
    if is_digit a
    then (if is_digit b then some (digit a * 10 + digit b, s) else some (digit a, b ∷ s))
    else none

four_digits : List ℕ → Read
unfolding two_digits
four_digits s = do (a, s) ← two_digits s; (b, s) ← two_digits s; some (a * 100 + b, s)

-- Fails unless the number lies between the bounds.
within : ℕ → ℕ → ℕ × List ℕ → Read
within lo hi (n, s) = if leb lo n && leb n hi then some (n, s) else none

literal : ℕ → List ℕ → Read
literal c [] = none
literal c (d ∷ s) = if c == d then some (0, s) else none

-- The digits of a fraction: the value of the first nine, and how many of these there are.
fraction : List ℕ → ℕ → ℕ → ℕ × List ℕ
unfolding is_digit
fraction [] ns left = (ns * 10 ^ left, [])
fraction (c ∷ s) ns left =
    let more = fraction s (if left == 0 then ns else ns * 10 + digit c) (left - 1) in
    if is_digit c then more else (ns * 10 ^ left, c ∷ s)

-- A fraction of a second may follow the seconds, though the layout has none.
nanoseconds : List ℕ → ℕ × List ℕ
unfolding fraction is_digit
nanoseconds (p ∷ c ∷ s) =
    if (p == b'.' || p == b',') && is_digit c then fraction (c ∷ s) 0 9 else (0, p ∷ c ∷ s)
nanoseconds s = (0, s)

is_leap : ℕ → Bool
is_leap y = y % 4 == 0 && (if y % 100 == 0 then y % 400 == 0 else true)

-- `daysIn(month, year)`
days_in : ℕ → ℕ → ℕ
unfolding is_leap
days_in m y =
    if m == 2
    then (if is_leap y then 29 else 28)
    else if m == 4 || m == 6 || m == 9 || m == 11
    then 30
    else 31

-- The days from the first of January of year 0 to that of year `y`.
days_before_year : ℕ → ℕ
days_before_year zero = 0
days_before_year (suc y) = 365 * suc y + 1 + y / 4 - y / 100 + y / 400

days_before_month : ℕ → ℕ → ℕ
unfolding days_in
days_before_month y zero = 0
days_before_month y (suc m) = days_before_month y m + (if m == 0 then 0 else days_in m y)

-- An offset of a zone is at most 24 hours and 60 minutes: 90000 seconds.
abbrev epoch_shift : ℕ
epoch_shift = 90000

-- Seconds since the shifted epoch.
seconds_at : ℕ → ℕ → ℕ → ℕ → ℕ → ℕ → ℕ
unfolding days_before_year days_before_month
seconds_at y m d h mi s =
    (days_before_year y + days_before_month y m + (d - 1)) * 86400
    + h * 3600
    + mi * 60
    + s
    + epoch_shift

-- The zero `time.Time`: the first of January of year 1.
unfoldable pub zero_time : Instant
unfolding seconds_at
zero_time = seconds_at 1 1 1 0 0 0 * 10 ^ 9

-- `t.After(u)`
abbrev pub after : Instant → Instant → Bool
after t u = ltb u t

-- What may stand between the parts of a date and of a time.
abbrev separator : Bool → ℕ → List ℕ → Read
separator true c s = literal c s
separator false c s = some (0, s)

record Date : Type 0 where
  year : ℕ
  month : ℕ
  day : ℕ

abbrev WithRest : Type 0
WithRest = Option (Date × List ℕ)

-- "2006-01-02", or "20060102" without dashes. The day is checked at the end.
parse_date : Bool → List ℕ → WithRest
unfolding four_digits two_digits within literal
parse_date dashes s = do
  (y, s) ← four_digits s
  (_, s) ← separator dashes b'-' s
  (m, s) ← two_digits s
  (m, s) ← within 1 12 (m, s)
  (_, s) ← separator dashes b'-' s
  (d, s) ← two_digits s
  some (record { year = y; month = m; day = d }, s)

-- "15:04:05", or "150405" without colons: nanoseconds since midnight.
parse_clock : Bool → List ℕ → Read
unfolding one_or_two_digits two_digits within literal nanoseconds
parse_clock colons s = do
  (h, s) ← one_or_two_digits s
  (h, s) ← within 0 23 (h, s)
  (_, s) ← separator colons b':' s
  (mi, s) ← two_digits s
  (mi, s) ← within 0 59 (mi, s)
  (_, s) ← separator colons b':' s
  (sec, s) ← two_digits s
  (sec, s) ← within 0 59 (sec, s)
  let ns = nanoseconds s
  some ((h * 3600 + mi * 60 + sec) * 10 ^ 9 + ns.0, ns.1)

-- A sign, then hours and minutes with a colon: the seconds to subtract, as an addend that the
-- shift of the epoch keeps from falling below 0.
abbrev signed_offset : ℕ → ℕ → ℕ → Option ℕ
signed_offset c off t =
    if c == b'+' then some (t - off) else if c == b'-' then some (t + off) else none

-- "Z07:00" at the end of the text, applied to a number of seconds since the shifted epoch.
parse_zone : ℕ → List ℕ → Option ℕ
unfolding two_digits within literal
parse_zone t [] = none
parse_zone t (c ∷ s) = if c == b'Z' then (if length s == 0 then some t else none) else do
  (h, s) ← two_digits s
  (_, s) ← literal b':' s
  (mi, s) ← two_digits s
  (h, _) ← within 0 24 (h, s)
  (mi, _) ← within 0 60 (mi, s)
  if length s == 0 then signed_offset c (h * 3600 + mi * 60) t else none

-- The day must be one of its month.
midnight : Date → Option ℕ
unfolding days_in seconds_at
midnight d =
    if leb 1 d.day && leb d.day (days_in d.month d.year)
    then some (seconds_at d.year d.month d.day 0 0 0)
    else none

pub data Layout : Type 0 where
  -- `time.RFC3339`
  rfc3339 : Layout
  -- "20060102T150405Z"
  basic_utc : Layout
  -- "20060102T150405"
  basic : Layout
  -- "20060102"
  basic_date : Layout

at_end : List ℕ → Option ℕ
at_end [] = some 0
at_end (c ∷ s) = none

-- `time.Parse(layout, value)`, `none` for an error
unfoldable pub parse : Layout → List ℕ → Option Instant
unfolding parse_date parse_clock parse_zone midnight literal at_end
parse rfc3339 s = do
  (d, s) ← parse_date true s
  (_, s) ← literal b'T' s
  (ns, s) ← parse_clock true s
  day ← midnight d
  t ← parse_zone (day + ns / 10 ^ 9) s
  some (t * 10 ^ 9 + ns % 10 ^ 9)
parse basic_utc s = do
  (d, s) ← parse_date false s
  (_, s) ← literal b'T' s
  (ns, s) ← parse_clock false s
  (_, s) ← literal b'Z' s
  _ ← at_end s
  day ← midnight d
  some (day * 10 ^ 9 + ns)
parse basic s = do
  (d, s) ← parse_date false s
  (_, s) ← literal b'T' s
  (ns, s) ← parse_clock false s
  _ ← at_end s
  day ← midnight d
  some (day * 10 ^ 9 + ns)
parse basic_date s = do
  (d, s) ← parse_date false s
  _ ← at_end s
  day ← midnight d
  some (day * 10 ^ 9)
