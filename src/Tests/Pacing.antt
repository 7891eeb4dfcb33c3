-- ===== src/Tests/Pacing.antt =====
-- The slots of a limiter of sixty calls a minute.
use proton_carddav_sync.Base.{
  ℕ, ◌+◌, ◌*◌, ◌≤◌, nat_eq, refl, true, false, List, [], ◌∷◌, All, arith,
}
use proton_carddav_sync.Protonmail.Limiter.{Limiter, Call, minute, new_rate_limiter, slots}
use proton_carddav_sync.Protonmail.Limiter.Pacing.{AfterSlot, slots_within, ahead_within}
use proton_carddav_sync.Protonmail.Limiter.Rate.{slots_rated}

abbrev one_second : ℕ
one_second = 1_000_000_000

abbrev sixty : Limiter
sixty = record { next = 0; interval = one_second }

-- Three calls at once, the second of which is given up, and one much later.
abbrev calls : List Call
calls =
    record { taken = minute; looked = minute + 1; done = false; late = 0 }
    ∷ record { taken = minute + 1; looked = minute + 2; done = true; late = 0 }
    ∷ record { taken = minute + 2; looked = minute + 3; done = false; late = 5 }
    ∷ record { taken = 3 * minute; looked = 3 * minute; done = false; late = 0 }
    ∷ []

slots_rated_example :
    All AfterSlot (slots sixty calls)
    × (slots_within minute minute (slots sixty calls) ≤ 60 + 1)
    × (ahead_within (minute + 5) (minute + minute) (slots sixty calls) ≤ 60 + 1)
unfolding new_rate_limiter nat_eq
slots_rated_example = slots_rated 60 minute 5 sixty calls (omega arith) (omega arith) refl (
  (omega arith, omega arith),
  ((omega arith, omega arith), ((omega arith, omega arith), ((omega arith, omega arith), tt))),
)
