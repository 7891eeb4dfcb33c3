-- ===== src/Syncer/Sync.antt =====
-- internal/syncer/syncer.go, Sync: the choice of the direction.
pub mod Cap
use proton_carddav_sync.Base.Result.{wrap}
use proton_carddav_sync.Base.Exec.{Exec, within}
use proton_carddav_sync.Syncer.{
  Syncer, Direction, direction_both, direction_to_carddav, direction_to_proton,
}
use proton_carddav_sync.Syncer.Index.{W}
use proton_carddav_sync.Syncer.OneWay.{sync_proton_to_carddav, sync_carddav_to_proton}
use proton_carddav_sync.Syncer.Reconcile.{reconcile}

module _ (s : Syncer) where
  unfoldable pub sync_towards : Direction → Exec (W s) (Unit {0})
  sync_towards direction_to_carddav = within (wrap "proton→carddav") (sync_proton_to_carddav s)
  sync_towards direction_to_proton = within (wrap "carddav→proton") (sync_carddav_to_proton s)
  sync_towards direction_both = within (wrap "reconcile") (reconcile s)

  -- `Sync`
  unfoldable pub sync : Exec (W s) (Unit {0})
  unfolding sync_towards
  sync = sync_towards s.dir
