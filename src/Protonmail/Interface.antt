-- ===== src/Protonmail/Interface.antt =====
-- internal/protonmail/contacts.go, the interface that the syncer uses.
use proton_carddav_sync.Base.{String, List}
use proton_carddav_sync.Base.Exec.{Exec}

-- The metadata of `proton.Contact` that the program reads.
pub record Contact : Type 0 where
  pub id : String
  pub name : String
  pub uid : String

-- `ContactsClient`, over whatever state the account has. Every method may fail.
pub record ContactsClient : Type 1 where
  pub State : Type 0
  pub list_contacts : Exec State (List Contact)
  pub get_contact_vcard : String → Exec State String
  -- from a vCard text to the new contact's id
  pub create_contact : String → Exec State String
  -- an id and a vCard text
  pub update_contact : String → String → Exec State (Unit {0})
  pub delete_contact : String → Exec State (Unit {0})
