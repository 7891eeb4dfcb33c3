-- ===== src/Protonmail/Limiter/Pacing.antt =====
-- internal/protonmail/client.go, rateLimiter: its slots, and the calls that go ahead at them.
use proton_carddav_sync.Base.{
  ◌≡◌, refl, ℕ, ◌+◌, ◌*◌, ◌≤◌, ◌<◌, ◌&&◌, List, [], ◌∷◌, true, ltb, leb, arith, All, ◌⊎◌, inl, inr,
  Bool-cases, if◌then◌else◌,
}
use proton_carddav_sync.Base.Result.{Result, ok, err}
use proton_carddav_sync.Protonmail.Limiter.{Limiter, Call, reserve, sleep, slots}

-- How many slots lie in a stretch of time: from `t` on, for `w`.
unfoldable pub slots_within : (t w : ℕ) → List (ℕ × Result ℕ) → ℕ
slots_within t w [] = 0
slots_within t w ((start, _) ∷ rest) =
    (if leb t start && ltb start (t + w) then 1 else 0) + slots_within t w rest

-- Nothing goes ahead before its slot.
abbrev pub AfterSlot : ℕ × Result ℕ → Type 0
AfterSlot (start, ok time) = start ≤ time
AfterSlot (start, err e) = Unit

sleep-AfterSlot : (start : ℕ) (c : Call) → AfterSlot (start, sleep start c)
unfolding sleep
sleep-AfterSlot start c = ground arith

pub slots-AfterSlot : (l : Limiter) (calls : List Call) → All AfterSlot (slots l calls)
unfolding slots
slots-AfterSlot l [] = tt
slots-AfterSlot l (c ∷ calls) =
    let (start, l') = reserve c.taken l in (sleep-AfterSlot start c, slots-AfterSlot l' calls)

one_more : (n i : ℕ) → (1 + n) * i ≡ n * i + i
one_more n i = grind arith

-- Where slots are counted at all, the stretch has room for the intervals between them.
abbrev HasRoom : (t w interval next n : ℕ) → Type 0
HasRoom t w interval next n =
    (n ≡ 0) ⊎ ((n * interval < w + interval) × (n * interval + next < t + w + interval))

HasRoom-slot :
    (t w interval start next n : ℕ)
    → next ≤ start
    → HasRoom t w interval (start + interval) n
    → HasRoom t w interval next ((if leb t start && ltb start (t + w) then 1 else 0) + n)
HasRoom-slot t w i start next n le (inl none) =
    elim (Bool-cases (leb t start && ltb start (t + w))) [
      | inl inside ↦ rw (inside, none) (inr (ground arith))
      | inr outside ↦ rw (outside, none) (inl (omega arith))
    ]
HasRoom-slot t w i start next n le (inr (short, room)) =
    elim (Bool-cases (leb t start && ltb start (t + w))) [
      | inl inside ↦ rw inside (inr (ground (arith, one_more n i)))
      | inr outside ↦ rw outside (inr (ground arith))
    ]

slots-HasRoom :
    (t w : ℕ) (l : Limiter) (calls : List Call)
    → HasRoom t w l.interval l.next (slots_within t w (slots l calls))
unfolding slots_within slots reserve
slots-HasRoom t w l [] = inl refl
slots-HasRoom t w l (c ∷ calls) =
    let (start, l') = reserve c.taken l in
    HasRoom-slot t w l.interval start l.next _ (ground arith) (slots-HasRoom t w l' calls)

room-lt : (t w i next n : ℕ) → 0 < i → HasRoom t w i next n → n * i < w + i
room-lt t w i next n pos (inl none) = rw none (omega arith)
room-lt t w i next n pos (inr (short, room)) = short

-- The slots that lie in any stretch of time, less one, take no longer than the stretch.
pub slots_paced :
    (t w : ℕ) (l : Limiter) (calls : List Call)
    → 0 < l.interval
    → slots_within t w (slots l calls) * l.interval < w + l.interval
slots_paced t w l calls pos = room-lt t w l.interval l.next _ pos (slots-HasRoom t w l calls)

-- How many calls go ahead from a time on, and before another.
unfoldable pub ahead_within : (from to : ℕ) → List (ℕ × Result ℕ) → ℕ
ahead_within from to [] = 0
ahead_within from to ((_, ok time) ∷ rest) =
    (if leb from time && ltb time to then 1 else 0) + ahead_within from to rest
ahead_within from to ((_, err e) ∷ rest) = ahead_within from to rest

-- A call that is not held up for longer than `d`: neither between taking its slot and looking how long
-- to wait, nor by its timer.
abbrev pub IsPrompt : ℕ → Call → Type 0
IsPrompt d c = (c.looked ≤ c.taken + d) × (c.late ≤ d)

-- It goes ahead at its slot, or no later than `d` after it.
abbrev Follows : ℕ → ℕ × Result ℕ → Type 0
Follows d (start, ok time) = (start ≤ time) × (time ≤ start + d)
Follows d (start, err e) = Unit

sleep-Follows :
    (d start : ℕ) (c : Call) → c.taken ≤ start → IsPrompt d c → Follows d (start, sleep start c)
unfolding sleep
sleep-Follows d start c le (looked, late) = ground arith

slots-Follows :
    (d : ℕ) (l : Limiter) (calls : List Call)
    → All (IsPrompt d) calls
    → All (Follows d) (slots l calls)
unfolding slots reserve
slots-Follows d l [] h = tt
slots-Follows d l (c ∷ calls) (prompt, h) =
    let (start, l') = reserve c.taken l in
    (sleep-Follows d start c (ground arith) prompt, slots-Follows d l' calls h)

one_ahead :
    (t d w start time k m : ℕ)
    → start ≤ time
    → time ≤ start + d
    → k ≤ m
    → (if leb (t + d) time && ltb time (t + w) then 1 else 0) + k
      ≤ (if leb t start && ltb start (t + w) then 1 else 0) + m
one_ahead t d w start time k m h1 h2 h3 = elim (Bool-cases (leb (t + d) time && ltb time (t + w))) [
  | inl inside ↦
      let here : (leb t start && ltb start (t + w)) ≡ true = ground arith in
      rw (inside, here) (omega arith)
  | inr outside ↦ elim (Bool-cases (leb t start && ltb start (t + w))) [
    | inl here ↦ rw (outside, here) (omega arith)
    | inr there ↦ rw (outside, there) (omega arith)
  ]
]

-- Every call that goes ahead has a slot of its own.
ahead-le_slots :
    (t d w : ℕ) (rest : List (ℕ × Result ℕ))
    → All (Follows d) rest
    → ahead_within (t + d) (t + w) rest ≤ slots_within t w rest
unfolding ahead_within slots_within
ahead-le_slots t d w [] h = omega arith
ahead-le_slots t d w ((start, ok time) ∷ rest) ((le, near), h) =
    one_ahead t d w start time _ _ le near (ahead-le_slots t d w rest h)
ahead-le_slots t d w ((start, err e) ∷ rest) (_, h) = omega (arith, ahead-le_slots t d w rest h)

pub calls_within :
    (t d w : ℕ) (l : Limiter) (calls : List Call)
    → All (IsPrompt d) calls
    → ahead_within (t + d) (t + w) (slots l calls) ≤ slots_within t w (slots l calls)
calls_within t d w l calls prompt = ahead-le_slots t d w _ (slots-Follows d l calls prompt)
