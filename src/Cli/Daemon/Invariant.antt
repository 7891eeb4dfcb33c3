-- ===== src/Cli/Daemon/Invariant.antt =====
-- internal/cli/run.go: an invariant of the daemon.
use mathlib.Core.Option.{some_inj}
use proton_carddav_sync.Base.{
  ◌≡◌, refl, subst, ℕ, suc, ◌≤◌, Bool, true, false, none, some, Bool-cases, arith, inl, inr,
  if◌then◌else◌,
}
use proton_carddav_sync.Base.Result.{Result, ok, err}
use proton_carddav_sync.Cli.Connect.{Outside, Machine}
use proton_carddav_sync.Config.{Config}
use proton_carddav_sync.Cli.Daemon.{
  Phase, starting, waiting, stopped, panicked, Pass, Event, signal, first, tick, done, others,
  Daemon, passed, outcome, pass, new_ticker, moved, ◌⟶*◌, here, next, started, duration,
  ticker_panics,
}

module _ (o : Outside) (cfg : Config) where
  abbrev pub NoTicker : Type 0
  NoTicker = ticker_panics (duration cfg.sync.interval_seconds) ≡ true

  abbrev pub HasTicker : Type 0
  HasTicker = ticker_panics (duration cfg.sync.interval_seconds) ≡ false

  -- What a phase says of the number of passes, of the context and of the ticker.
  abbrev pub Fits : Phase → (passes : ℕ) (signalled : Bool) → Type 0
  Fits starting passes signalled = passes ≡ 0
  Fits waiting passes signalled = (1 ≤ passes) × HasTicker
  Fits stopped passes signalled = (1 ≤ passes) × HasTicker × (signalled ≡ true)
  Fits panicked passes signalled = (passes ≡ 1) × NoTicker

  pub record IsValid (d : Daemon o cfg) : Type 0 where
    pub fits : Fits d.phase d.passes d.signalled
    pub failures_le : d.failures ≤ d.passes

  failed_le :
      (r : Result (Unit {0}) × Machine o) (b : Bool) (d : Daemon o cfg)
      → d.failures ≤ d.passes
      → (passed o cfg b r d).failures ≤ suc d.passes
  failed_le (ok a, m) b d le = omega arith
  failed_le (err e, m) true d le = omega arith
  failed_le (err e, m) false d le = omega arith

  pass_le :
      (p : Pass) (d : Daemon o cfg)
      → d.failures ≤ d.passes
      → (pass o cfg p d).failures ≤ suc d.passes
  unfolding pass
  pass_le p d le = failed_le (outcome o cfg p d) _ d le

  ticker_fits :
      (p : Pass) (d : Daemon o cfg)
      → d.passes ≡ 0
      → IsValid d
      → IsValid (new_ticker o cfg (pass o cfg p d))
  unfolding new_ticker pass
  ticker_fits p d zero_passes v =
      elim (Bool-cases (ticker_panics (duration cfg.sync.interval_seconds))) [
        | inl none_given ↦ rw none_given (record {
          fits = (omega (arith, zero_passes), none_given);
          failures_le = pass_le p d v.failures_le;
        })
        | inr given ↦
            rw given
              (record { fits = (omega arith, given); failures_le = pass_le p d v.failures_le })
      ]

  IsValid-at : (x e : Daemon o cfg) → some x ≡ some e → IsValid x → IsValid e
  IsValid-at x e h = subst IsValid (some_inj.0 h)

  Fits-at :
      (phase : Phase) (d : Daemon o cfg)
      → d.phase ≡ phase
      → IsValid d
      → Fits phase d.passes d.signalled
  Fits-at phase d q v = subst (λ x. Fits x d.passes d.signalled) q v.fits

  signal-Fits :
      (phase : Phase) (passes : ℕ) (b : Bool) → Fits phase passes b → Fits phase passes true
  signal-Fits starting passes b f = f
  signal-Fits waiting passes b f = f
  signal-Fits stopped passes b (some_passes, given, signalled) = (some_passes, given, refl)
  signal-Fits panicked passes b f = f

  signal-IsValid : (d : Daemon o cfg) → IsValid d → IsValid (record d { signalled = true })
  signal-IsValid d v = record {
    fits = signal-Fits d.phase d.passes d.signalled v.fits;
    failures_le = v.failures_le;
  }

  done-IsValid :
      (d e : Daemon o cfg) (signalled : Bool)
      → d.signalled ≡ signalled
      → (if signalled then some (record d { phase = stopped }) else none) ≡ some e
      → (1 ≤ d.passes) × HasTicker
      → IsValid d
      → IsValid e
  done-IsValid d e true q h (some_passes, given) v =
      IsValid-at _ e h (record { fits = (some_passes, given, q); failures_le = v.failures_le })
  done-IsValid d e false q h f v = cc h

  moved-IsValid :
      (event : Event o cfg) (phase : Phase) (d e : Daemon o cfg)
      → d.phase ≡ phase
      → moved o cfg event phase d ≡ some e
      → IsValid d
      → IsValid e
  unfolding moved pass
  moved-IsValid signal starting d e q h v = IsValid-at _ e h (signal-IsValid d v)
  moved-IsValid signal waiting d e q h v = IsValid-at _ e h (signal-IsValid d v)
  moved-IsValid (first p) starting d e q h v =
      IsValid-at _ e h (ticker_fits p d (Fits-at starting d q v) v)
  moved-IsValid (tick p) waiting d e q h v =
      let (_, given) = Fits-at waiting d q v in
      IsValid-at _ e h
        (record { fits = (omega arith, given); failures_le = pass_le p d v.failures_le })
  moved-IsValid done waiting d e q h v =
      done-IsValid d e d.signalled refl h (Fits-at waiting d q v) v
  moved-IsValid (others p c) phase d e q h v =
      IsValid-at _ e h (record { fits = v.fits; failures_le = v.failures_le })
  moved-IsValid _ _ d e q h v = cc h

  run-IsValid : (d e : Daemon o cfg) → ◌⟶*◌ o cfg d e → IsValid d → IsValid e
  run-IsValid d _ here v = v
  run-IsValid d f (next {e = e} event h run) v =
      run-IsValid e f run (moved-IsValid event d.phase d e refl h v)

  -- Whatever happens to the daemon, in whatever order: it stops only after a signal and after a pass;
  -- only a ticker that cannot be made makes it panic, and then right after its first pass; in its loop
  -- it has a ticker; and it logs at most one failure for each pass.
  pub daemon_reached :
      (m : Machine o) (d : Daemon o cfg) → ◌⟶*◌ o cfg (started o cfg m) d → IsValid d
  daemon_reached m d run = run-IsValid _ d run (record { fits = refl; failures_le = omega arith })
