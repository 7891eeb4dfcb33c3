-- ===== src/Syncer/Force/Total.antt =====
-- internal/syncer/syncer.go, ForceContacts: a whole run, and the calls that fail on the way.
use proton_carddav_sync.Base.{◌≡◌, [], string_eq}
use proton_carddav_sync.Base.Result.{Result}
use proton_carddav_sync.Base.Exec.{Exec}
use proton_carddav_sync.Base.Exec.Keeps.{Keeps}
use proton_carddav_sync.Base.Exec.Succeeds.{Succeeds}
use proton_carddav_sync.Syncer.{Syncer, World}

-- The database works and the context is never done.
record Calm {P C : Type 0} (w : World P C) : Type 0 where
  sound : w.db.faults ≡ []
  going : w.cancels ≡ []
