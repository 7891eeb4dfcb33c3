-- ===== src/Cli/Daemon.antt =====
-- internal/cli/run.go, runDaemon: the loop of the command `run`, as a machine that takes one event at a
-- time.
pub mod Invariant
pub mod Stops
pub mod Panics
use proton_carddav_sync.Base.{
  ◌≡◌, ℕ, suc, ◌*◌, ◌-◌, ◌%◌, Bool, true, false, ◌&&◌, ◌||◌, not, Option, none, some, List, [], ◌∷◌,
  ◌==◌, nat_eq, leb, if◌then◌else◌,
}
use proton_carddav_sync.Base.Int.{ℤ, pos, negsuc}
use proton_carddav_sync.Base.Result.{Result, ok, err}
use proton_carddav_sync.Cli.Connect.{Outside, Machine}
use proton_carddav_sync.Cli.Commands.{run_sync_with_config}
use proton_carddav_sync.Config.{Config}

abbrev pub second : ℕ
second = 1_000_000_000

abbrev word : ℕ
word = 18446744073709551616

-- `time.Duration(seconds) * time.Second`: the 64 bits of the product, which may have overflowed.
unfoldable pub duration : ℤ → ℕ
duration (pos n) = n * second % word
duration (negsuc n) = (word - suc n * second % word) % word

-- `time.NewTicker` panics where the duration is not positive; a sign bit is the highest.
unfoldable pub ticker_panics : ℕ → Bool
ticker_panics d = d == 0 || leb 9223372036854775808 d

-- Where the daemon is: before the first pass, in the `select` of the loop, returned, or panicked.
pub data Phase : Type 0 where
  starting waiting stopped panicked : Phase

-- The looks at `ctx.Done()` in a pass, and whether a signal comes after the last one.
pub record Pass : Type 0 where
  pub looks : List Bool
  pub late : Bool

abbrev any_done : List Bool → Bool
any_done [] = false
any_done (b ∷ bs) = b || any_done bs

abbrev all_done : List Bool → List Bool
all_done [] = []
all_done (b ∷ bs) = true ∷ all_done bs

abbrev is_err : {A : Type 0} → Result A → Bool
is_err (ok a) = false
is_err (err e) = true

module _ (o : Outside) (cfg : Config) where
  -- What happens to the daemon: a signal, the first pass, a tick, the end of the context, and what
  -- others do to the two servers.
  pub data Event : Type 0 where
    signal : Event
    first : Pass → Event
    tick : Pass → Event
    done : Event
    others : o.api.State → o.dav.State → Event

  -- `signalled` is whether the context is done; `passes` counts the passes and `failures` the lines
  -- `sync failed` of the log.
  pub record Daemon : Type 0 where
    pub phase : Phase
    pub signalled : Bool
    pub passes : ℕ
    pub failures : ℕ
    pub machine : Machine o

  abbrev pub started : Machine o → Daemon
  started m = record { phase = starting; signalled = false; passes = 0; failures = 0; machine = m }

  -- After a pass: an error is logged where the context is not done, and the daemon goes on.
  abbrev pub passed : Bool → Result (Unit {0}) × Machine o → Daemon → Daemon
  passed signalled (r, m) d = record {
    phase = waiting;
    signalled = signalled;
    passes = suc d.passes;
    failures = if is_err r && not signalled then suc d.failures else d.failures;
    machine = m;
  }

  -- What the looks of a pass find; a context that is done stays done.
  abbrev looks_of : Pass → Daemon → List Bool
  looks_of p d = if d.signalled then all_done p.looks else p.looks

  -- The call of `runSyncWithConfig` in a pass.
  abbrev pub outcome : Pass → Daemon → Result (Unit {0}) × Machine o
  outcome p d = run_sync_with_config o cfg (record d.machine { cancels = looks_of p d })

  -- A pass.
  unfoldable pub pass : Pass → Daemon → Daemon
  pass p d = passed (d.signalled || any_done (looks_of p d) || p.late) (outcome p d) d

  -- `NewTicker` stands between the first pass and the loop.
  unfoldable pub new_ticker : Daemon → Daemon
  new_ticker d =
      if ticker_panics (duration cfg.sync.interval_seconds)
      then record d { phase = panicked }
      else d

  -- The daemon after an event, where the event can happen in this phase. Where both cases of the
  -- `select` are ready, either may be taken.
  unfoldable pub moved : Event → Phase → Daemon → Option Daemon
  moved signal starting d = some (record d { signalled = true })
  moved signal waiting d = some (record d { signalled = true })
  moved (first p) starting d = some (new_ticker (pass p d))
  moved (tick p) waiting d = some (pass p d)
  moved done waiting d = if d.signalled then some (record d { phase = stopped }) else none
  moved (others p c) _ d =
      some (record d { machine = record d.machine { proton = p; carddav = c } })
  moved _ _ d = none

  abbrev pub step : Event → Daemon → Option Daemon
  step event d = moved event d.phase d

  -- A run of the daemon.
  infix 40 ◌⟶*◌
  pub data ◌⟶*◌ : Daemon → Daemon → Type 0 where
    here : {d : Daemon} → d ⟶* d
    next : {d e f : Daemon} (event : Event) → step event d ≡ some e → e ⟶* f → d ⟶* f
