-- ===== src/Protonmail/Limiter.antt =====
-- internal/protonmail/client.go, rateLimiter: the pacing of the calls of the API. A time is its number of
-- nanoseconds.
pub mod Pacing
pub mod Rate
use proton_carddav_sync.Base.{
  ℕ, ◌+◌, ◌/◌, Bool, true, false, Option, none, some, List, [], ◌∷◌, ltb, leb, if◌then◌else◌,
}
use proton_carddav_sync.Base.Int.{ℤ, not_positive, pos_part}
use proton_carddav_sync.Base.Result.{cancelled, Result, ok, err}

-- `rateLimiter`; `next` is the zero time at first.
pub record Limiter : Type 0 where
  pub next : ℕ
  pub interval : ℕ

-- `time.Minute`
abbrev pub minute : ℕ
minute = 60_000_000_000

-- `newRateLimiter`
unfoldable pub new_rate_limiter : ℤ → Option Limiter
new_rate_limiter per_minute =
    if not_positive per_minute
    then none
    else some (record { next = 0; interval = minute / pos_part per_minute })

-- What a call of `wait` meets: the time when it takes its slot, the time when it looks how long to wait,
-- whether the context is done before the timer fires, and how late the timer fires.
pub record Call : Type 0 where
  pub taken : ℕ
  pub looked : ℕ
  pub done : Bool
  pub late : ℕ

-- The part of `wait` under the lock: the slot, and the limiter after it.
unfoldable pub reserve : ℕ → Limiter → ℕ × Limiter
reserve now l =
    let start = if ltb l.next now then now else l.next in
    (start, record l { next = start + l.interval })

-- The rest of `wait`: the time when it returns nil, or the error of the context.
unfoldable pub sleep : ℕ → Call → Result ℕ
sleep start c =
    if leb start c.looked
    then ok c.looked
    else if c.done
    then err cancelled
    else ok (start + c.late)

-- `wait`
unfoldable pub wait : Call → Option Limiter → Result ℕ × Option Limiter
unfolding reserve sleep
wait c none = (ok c.looked, none)
wait c (some l) = let (start, l') = reserve c.taken l in (sleep start c, some l')

-- The slots of the calls, in the order in which they take the lock, and when they return.
unfoldable pub slots : Limiter → List Call → List (ℕ × Result ℕ)
slots l [] = []
slots l (c ∷ calls) = let (start, l') = reserve c.taken l in (start, sleep start c) ∷ slots l' calls
