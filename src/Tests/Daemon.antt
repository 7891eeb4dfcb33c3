-- ===== src/Tests/Daemon.antt =====
-- A daemon that syncs twice and is told to stop.
use proton_carddav_sync.Base.{◌≡◌, refl, ◌⊎◌, true, false, [], arith, nat_eq}
use proton_carddav_sync.Base.Int.{pos}
use proton_carddav_sync.Cli.Daemon.{
  starting, panicked, Pass, signal, first, Daemon, moved, duration, ticker_panics, started, pass,
  new_ticker, ◌⟶*◌, here, next,
}
use proton_carddav_sync.Cli.Daemon.Invariant.{IsValid, daemon_reached}
use proton_carddav_sync.Cli.Daemon.Panics.{with_interval, daemon_panics}
use proton_carddav_sync.Cli.Daemon.Stops.{StopsNow, signalled_stops}
use proton_carddav_sync.Config.{Config, validate}
use proton_carddav_sync.Tests.Machine.{small_outside, small_machine}
use proton_carddav_sync.Tests.Settings.{ann_config}

abbrev quiet : Pass
quiet = record { looks = []; late = false }

abbrev once : Daemon small_outside ann_config
once =
    new_ticker small_outside ann_config
      (pass small_outside ann_config quiet (started small_outside ann_config small_machine))

abbrev told : Daemon small_outside ann_config
told = record once { signalled = true }

abbrev zero_interval : Config
zero_interval = with_interval (pos 0) ann_config

abbrev stuck : Daemon small_outside zero_interval
stuck =
    new_ticker small_outside zero_interval
      (pass small_outside zero_interval quiet (started small_outside zero_interval small_machine))

told_reached : ◌⟶*◌ small_outside ann_config (started small_outside ann_config small_machine) told
unfolding moved new_ticker pass duration ticker_panics nat_eq
told_reached = next {e = once} (first quiet) refl (next {e = told} signal refl here)

stuck_reached :
    ◌⟶*◌ small_outside zero_interval (started small_outside zero_interval small_machine) stuck
unfolding moved
stuck_reached = next (first quiet) refl here

signalled_stops_example : StopsNow small_outside ann_config told
signalled_stops_example =
    signalled_stops small_outside ann_config 300 small_machine told refl (omega arith) (omega arith)
      told_reached refl

daemon_reached_example : IsValid small_outside ann_config told
daemon_reached_example = daemon_reached small_outside ann_config small_machine told told_reached

daemon_panics_example :
    (validate zero_interval ≡ validate ann_config)
    × ((stuck.phase ≡ starting) ⊎ (stuck.phase ≡ panicked))
daemon_panics_example =
    daemon_panics small_outside ann_config (pos 0) small_machine stuck refl stuck_reached
