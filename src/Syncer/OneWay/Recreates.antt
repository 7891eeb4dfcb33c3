-- ===== src/Syncer/OneWay/Recreates.antt =====
-- internal/syncer/syncer.go, syncProtonToCardDAV, over the client of internal/carddav/client.go.
pub mod Run
use proton_carddav_sync.Base.{◌≡◌, String, string_eq}
use proton_carddav_sync.Base.Result.{ok}
use proton_carddav_sync.Base.Exec.Keeps.{Keeps}
use proton_carddav_sync.Carddav.Client.{Dav, Client, client}
use proton_carddav_sync.Syncer.{Syncer}
use proton_carddav_sync.Vcard.{Card}

-- The calls of go-webdav where the server takes what is put, and a statement about the server that
-- putting an object at a path makes true, and putting no object makes false.
pub record Takes (dav : Dav) (Q : dav.State → Type 0) (path : String) : Type 0 where
  pub taken :
      (at : String) (card : Card) (d : dav.State) → (dav.put_address_object at card d).0 ≡ ok tt
  pub there : (card : Card) (d : dav.State) → Q (dav.put_address_object path card d).1
  pub still :
      (at : String) (card : Card) (d : dav.State) → Q d → Q (dav.put_address_object at card d).1

-- The syncer with the client of internal/carddav/client.go.
abbrev pub with_client : Syncer → Dav → Client → Syncer
with_client s dav c = record s { carddav = client s.lib.codec dav c }
