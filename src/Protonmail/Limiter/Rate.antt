-- ===== src/Protonmail/Limiter/Rate.antt =====
-- internal/protonmail/client.go, newRateLimiter: the calls of the API in a minute.
use native.Mathlib.Nat.{mod-lt, div-add-mod, mul-le-mul, mul-le-mul_right, le-div_iff_mul-le}
use proton_carddav_sync.Base.{
  ◌≡◌, sym, ap, subst, ℕ, ◌+◌, ◌*◌, ◌/◌, ◌%◌, ◌≤◌, ◌<◌, nat_eq, some, List, leb, All, Bool-cases,
  inl, inr, arith,
}
use proton_carddav_sync.Base.Int.{pos}
use proton_carddav_sync.Protonmail.Limiter.{Limiter, Call, minute, new_rate_limiter, slots}
use proton_carddav_sync.Protonmail.Limiter.Pacing.{
  AfterSlot, slots-AfterSlot, slots_within, slots_paced, IsPrompt, ahead_within, calls_within,
}

-- A rate up to which the rounding of the interval costs at most one call a minute.
abbrev pub max_rate : ℕ
max_rate = 240_000

rate-le_interval : (n : ℕ) → 0 < n → n ≤ max_rate → n ≤ minute / n
rate-le_interval n lower upper = (le-div_iff_mul-le lower).1 (omega (arith, mul-le-mul upper upper))

two_more : (n i : ℕ) → (n + 2) * i ≡ n * i + i + i
two_more n i = grind arith

few_slots : (n k i r : ℕ) → n ≤ i → r < n → k * i < n * i + r + i → k ≤ n + 1
few_slots n k i r le small lt = elim (Bool-cases (leb k (n + 1))) [
  | inl few ↦ ground arith
  | inr many ↦
      let more : n + 2 ≤ k = ground arith in
      absurd (omega (arith, mul-le-mul_right i more, two_more n i))
]

abbrev limiter_of : ℕ → Limiter
limiter_of n = record { next = 0; interval = minute / n }

made_as : (n : ℕ) (l : Limiter) → 0 < n → new_rate_limiter (pos n) ≡ some l → l ≡ limiter_of n
unfolding new_rate_limiter
made_as n l lower made = ground (arith, made)

parts : (n i : ℕ) → i ≡ minute / n → minute ≡ n * i + minute % n
parts n i e = rw e (sym (div-add-mod minute n))

-- Where the rate is n requests a minute, and n is between 1 and 240,000: however the calls come and
-- end, no call goes ahead before its slot, and at most n + 1 slots lie in any minute. Where no call is
-- held up for longer than d after it took its slot, or by its timer, at most n + 1 calls go ahead in any
-- minute less d.
pub slots_rated :
    (n t d : ℕ) (l : Limiter) (calls : List Call)
    → 0 < n
    → n ≤ max_rate
    → new_rate_limiter (pos n) ≡ some l
    → All (IsPrompt d) calls
    → All AfterSlot (slots l calls)
      × (slots_within t minute (slots l calls) ≤ n + 1)
      × (ahead_within (t + d) (t + minute) (slots l calls) ≤ n + 1)
slots_rated n t d l calls lower upper made prompt =
    let made_with : l.interval ≡ minute / n =
      ap (λ (m : Limiter). m.interval) (made_as n l lower made) in
    let le = rate-le_interval n lower upper in
    let paced = slots_paced t minute l calls (omega (arith, made_with)) in
    let few =
      few_slots n (slots_within t minute (slots l calls)) l.interval (minute % n)
        (omega (arith, made_with)) (mod-lt minute lower)
        (subst (λ m. slots_within t minute (slots l calls) * l.interval < m + l.interval)
          (parts n l.interval made_with) paced) in
    (slots-AfterSlot l calls, few, omega (arith, few, calls_within t d minute l calls prompt))
