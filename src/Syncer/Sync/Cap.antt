-- ===== src/Syncer/Sync/Cap.antt =====
-- internal/syncer/syncer.go, Sync: the cap on new Proton contacts, in every direction.
use proton_carddav_sync.Base.{ℕ, ◌+◌, ◌≤◌, ◌<◌, Option, arith}
use proton_carddav_sync.Base.Exec.{within}
use proton_carddav_sync.Protonmail.Cards.{Keyring}
use proton_carddav_sync.Protonmail.Client.{Api}
use proton_carddav_sync.Protonmail.Client.Count.{ApiCounts}
use proton_carddav_sync.Syncer.{
  Syncer, Direction, direction_both, direction_to_carddav, direction_to_proton,
}
use proton_carddav_sync.Syncer.Index.{W}
use proton_carddav_sync.Syncer.OneWay.Cap.{carddav_to_proton-Bounded}
use proton_carddav_sync.Syncer.OneWay.Sources.{sync_proton_to_carddav-Keeps}
use proton_carddav_sync.Syncer.Reconcile.Account.{over, client-IsCount}
use proton_carddav_sync.Syncer.Reconcile.Cap.{reconcile-Bounded}
use proton_carddav_sync.Syncer.Reconcile.Count.{IsCount}
use proton_carddav_sync.Syncer.Sync.{sync_towards, sync}

module _ (s : Syncer) (count : s.proton.State → ℕ) (counts : IsCount s count)
    (pos : 0 < s.max_new_proton) where
  sync_towards-le :
      (dir : Direction) (w : W s)
      → count (sync_towards s dir w).1.proton ≤ count w.proton + s.max_new_proton
  unfolding sync_towards within
  sync_towards-le direction_both w =
      (reconcile-Bounded s count counts (count w.proton) pos).at w (omega arith)
  sync_towards-le direction_to_proton w =
      (carddav_to_proton-Bounded s count counts (count w.proton) pos).at w (omega arith)
  sync_towards-le direction_to_carddav w = omega (
    arith,
    (sync_proton_to_carddav-Keeps s (λ p. count p ≤ count w.proton)
          (record { at = λ p h. omega (arith, counts.list p) })
          (λ id. record { at = λ p h. omega (arith, counts.fetch id p) })).at
        w (record { holds = omega arith }),
  )

-- Where a cap is set, one run of Sync leaves at most that many contacts more in the account than it
-- found, in every direction, whatever the cards, CardDAV, the database and the context are. This takes
-- that the calls of the API that read and update do not raise the number of contacts, that a request to
-- create raises it by the items that its answer accepts at most, and that an answer has no more items
-- than the request.
pub sync_cap :
    (s : Syncer) (api : Api) (session : Option Keyring) (count : api.State → ℕ)
    → ApiCounts api count
    → 0 < s.max_new_proton
    → (w : W (over s api session))
    → count (sync (over s api session) w).1.proton ≤ count w.proton + s.max_new_proton
unfolding sync
sync_cap s api session count counts pos w =
    sync_towards-le (over s api session) count (client-IsCount s api session count counts) pos s.dir
      w
