-- ===== src/Carddav/Interface.antt =====
-- internal/carddav/client.go, the interface that the syncer uses.
use proton_carddav_sync.Base.{String, List}
use proton_carddav_sync.Base.Exec.{Exec}
use proton_carddav_sync.Vcard.{Card}

-- What the program reads of a `carddav.AddressObject`.
pub record AddressObject : Type 0 where
  pub path : String
  pub etag : String
  pub card : Card

-- `ContactsClient`, over whatever state the server has. Every method may fail.
pub record ContactsClient : Type 1 where
  pub State : Type 0
  pub list_contacts : Exec State (List AddressObject)
  -- a UID and a vCard text
  pub put_contact : String → String → Exec State (Unit {0})
  -- a path
  pub delete_contact : String → Exec State (Unit {0})
