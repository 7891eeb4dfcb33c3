-- ===== src/Cli/Daemon/Panics.antt =====
-- internal/cli/run.go and internal/config/config.go: the daemon with an interval of 0 or less.
use proton_carddav_sync.Base.{◌≡◌, refl, ℕ, ◌<◌, ◌⊎◌, inl, inr, Bool, true, nat_eq, arith}
use proton_carddav_sync.Base.Int.{ℤ, pos, negsuc}
use proton_carddav_sync.Cli.Connect.{Outside, Machine}
use proton_carddav_sync.Config.{Config, validate}
use proton_carddav_sync.Cli.Daemon.{
  duration, ticker_panics, Phase, starting, waiting, stopped, panicked, Daemon, started, ◌⟶*◌,
}
use proton_carddav_sync.Cli.Daemon.Invariant.{NoTicker, Fits, daemon_reached}
use proton_carddav_sync.Cli.Daemon.Stops.{max_seconds}

-- The interval is 0 or negative, and a duration can hold it.
abbrev pub NotPositive : ℤ → Type 0
NotPositive (pos n) = n ≡ 0
NotPositive (negsuc n) = n < max_seconds

interval-NoTicker : (i : ℤ) → NotPositive i → ticker_panics (duration i) ≡ true
unfolding duration ticker_panics nat_eq
interval-NoTicker (pos n) h = rw h refl
interval-NoTicker (negsuc n) h = ground arith

abbrev pub with_interval : ℤ → Config → Config
with_interval i cfg = record cfg { sync = record cfg.sync { interval_seconds = i } }

phase-panics :
    (o : Outside) (cfg : Config) (phase : Phase) (passes : ℕ) (signalled : Bool)
    → NoTicker o cfg
    → Fits o cfg phase passes signalled
    → (phase ≡ starting) ⊎ (phase ≡ panicked)
phase-panics o cfg starting passes s h f = inl refl
phase-panics o cfg waiting passes s h (_, given) = cc (h, given)
phase-panics o cfg stopped passes s h (_, given, _) = cc (h, given)
phase-panics o cfg panicked passes s h f = inr refl

-- The validation of a configuration does not read the interval; and where the interval is 0 or
-- negative, down to -9,223,372,036 seconds, so that its product still fits in 64 bits, the daemon is
-- never in its loop and never stops: it is before its first pass, or has panicked.
pub daemon_panics :
    (o : Outside) (cfg : Config) (i : ℤ) (m : Machine o) (d : Daemon o (with_interval i cfg))
    → NotPositive i
    → ◌⟶*◌ o (with_interval i cfg) (started o (with_interval i cfg) m) d
    → (validate (with_interval i cfg) ≡ validate cfg)
      × ((d.phase ≡ starting) ⊎ (d.phase ≡ panicked))
unfolding validate
daemon_panics o cfg i m d h run = (
  refl,
  phase-panics o (with_interval i cfg) d.phase d.passes d.signalled (interval-NoTicker i h)
      (daemon_reached o (with_interval i cfg) m d run).fits,
)
