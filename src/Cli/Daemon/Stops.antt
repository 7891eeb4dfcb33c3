-- ===== src/Cli/Daemon/Stops.antt =====
-- internal/cli/run.go: stopping the daemon.
use proton_carddav_sync.Base.{◌≡◌, refl, ℕ, ◌≤◌, ◌<◌, ◌⊎◌, inl, inr, true, false, some, arith}
use proton_carddav_sync.Base.Int.{pos}
use proton_carddav_sync.Cli.Connect.{Outside, Machine}
use proton_carddav_sync.Config.{Config}
use proton_carddav_sync.Cli.Daemon.{
  duration, ticker_panics, Phase, starting, waiting, stopped, panicked, Pass, first, done, Daemon,
  started, pass, new_ticker, moved, step, ◌⟶*◌,
}
use proton_carddav_sync.Cli.Daemon.Invariant.{HasTicker, Fits, daemon_reached}

-- The longest interval, in seconds, that a duration can hold.
abbrev pub max_seconds : ℕ
max_seconds = 9_223_372_036

pub interval-HasTicker :
    (n : ℕ) → 0 < n → n ≤ max_seconds → ticker_panics (duration (pos n)) ≡ false
unfolding duration ticker_panics
interval-HasTicker n lower upper = ground arith

module _ (o : Outside) (cfg : Config) where
  -- The daemon has stopped, or can stop at once, or can stop right after its first pass, whatever comes
  -- of that.
  abbrev pub StopsNow : Daemon o cfg → Type 0
  StopsNow d =
      (d.phase ≡ stopped)
      ⊎ (step o cfg done d ≡ some (record d { phase = stopped }))
      ⊎ ((p : Pass)
          → (e : Daemon o cfg) × (step o cfg (first p) d ≡ some e)
            × (step o cfg done e ≡ some (record e { phase = stopped })))

  done-waiting :
      (d : Daemon o cfg)
      → d.phase ≡ waiting
      → d.signalled ≡ true
      → step o cfg done d ≡ some (record d { phase = stopped })
  unfolding moved
  done-waiting d q s = rw (q, s) refl

  first-starting :
      (p : Pass) (d : Daemon o cfg)
      → HasTicker o cfg
      → d.phase ≡ starting
      → step o cfg (first p) d ≡ some (pass o cfg p d)
  unfolding moved new_ticker
  first-starting p d given q = rw (q, given) refl

  pass-done :
      (p : Pass) (d : Daemon o cfg)
      → d.signalled ≡ true
      → step o cfg done (pass o cfg p d) ≡ some (record (pass o cfg p d) { phase = stopped })
  unfolding pass
  pass-done p d s = done-waiting (pass o cfg p d) refl (rw s refl)

  phase-StopsNow :
      (phase : Phase) (d : Daemon o cfg)
      → d.phase ≡ phase
      → HasTicker o cfg
      → Fits o cfg phase d.passes d.signalled
      → d.signalled ≡ true
      → StopsNow d
  phase-StopsNow starting d q given f s =
      inr (inr (λ p. (pass o cfg p d, first-starting p d given q, pass-done p d s)))
  phase-StopsNow waiting d q given f s = inr (inl (done-waiting d q s))
  phase-StopsNow stopped d q given f s = inl q
  phase-StopsNow panicked d q given (one_pass, no_ticker) s = cc (given, no_ticker)

  -- Where the interval is a positive number of seconds that a duration can hold: once a signal has come,
  -- the daemon, wherever it is, has stopped, or can stop at once, or can stop right after the first
  -- pass, whatever comes of that pass.
  pub signalled_stops :
      (n : ℕ) (m : Machine o) (d : Daemon o cfg)
      → cfg.sync.interval_seconds ≡ pos n
      → 0 < n
      → n ≤ max_seconds
      → ◌⟶*◌ o cfg (started o cfg m) d
      → d.signalled ≡ true
      → StopsNow d
  signalled_stops n m d q lower upper run s =
      let given : HasTicker o cfg = rw q (interval-HasTicker n lower upper) in
      phase-StopsNow d.phase d refl given (daemon_reached o cfg m d run).fits s
