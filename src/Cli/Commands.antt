-- ===== src/Cli/Commands.antt =====
-- internal/cli/sync.go, runSync, and resync.go, runResync.
pub mod Cap
use proton_carddav_sync.Base.{String, Bool, true, false, ◌&&◌, not, List, [], ◌∷◌, if◌then◌else◌}
use proton_carddav_sync.Base.Result.{failure, wrap, Result, ok, err}
use proton_carddav_sync.Base.Exec.{Exec, fail, within}
use proton_carddav_sync.Cli.Connect.{Outside, Machine, with_syncer}
use proton_carddav_sync.Config.{Config}
use proton_carddav_sync.Syncer.Force.{force_contacts}
use proton_carddav_sync.Syncer.Sync.{sync}

abbrev no_uids : List String → Bool
no_uids [] = true
no_uids (x ∷ xs) = false

module _ (o : Outside) where
  -- `runSyncWithConfig`
  unfoldable pub run_sync_with_config : Config → Exec (Machine o) (Unit {0})
  run_sync_with_config cfg = with_syncer o cfg (λ s. within (wrap "sync") (sync s))

  -- What `config.Load` gave: an error of it is that of the command.
  abbrev pub with_config :
      Result Config → (Config → Exec (Machine o) (Unit {0})) → Exec (Machine o) (Unit {0})
  with_config (ok cfg) f = f cfg
  with_config (err e) f = fail (wrap "load config" e)

  -- `runSync`
  unfoldable pub run_sync : Result Config → Exec (Machine o) (Unit {0})
  unfolding run_sync_with_config
  run_sync loaded = with_config loaded run_sync_with_config

  -- `runResync`
  unfoldable pub run_resync :
      (uids : List String) (everything : Bool) → Result Config → Exec (Machine o) (Unit {0})
  run_resync uids everything loaded =
      if no_uids uids && not everything
      then fail (failure "specify at least one --uid <uid> (repeatable) or --all")
      else with_config loaded (λ cfg.
        with_syncer o cfg (λ s. within (wrap "resync") (force_contacts s uids everything)))
