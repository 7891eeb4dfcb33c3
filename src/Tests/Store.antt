-- ===== src/Tests/Store.antt =====
-- The database at a concrete record.
use proton_carddav_sync.Base.{◌≡◌, refl, All, String, [], ◌∷◌, ◌==◌, string_eq, if◌then◌else◌}
use proton_carddav_sync.Base.Dict.{lookup}
use proton_carddav_sync.Base.Result.{no_rows, ok, err}
use proton_carddav_sync.Db.{Db, fails}
use proton_carddav_sync.Db.Contacts.{ContactRecord, upsert_contact, delete_contact}
use proton_carddav_sync.Db.Contacts.Laws.{
  stored, rounded, stored-upsert_contact, stored-delete_contact,
}
use proton_carddav_sync.Db.Schema.{Schema, migrate}
use proton_carddav_sync.Db.Schema.Created.{migrate_creates}
use proton_carddav_sync.Db.Schema.Growth.{Has}
use proton_carddav_sync.Db.Schema.Migration.{migrate_grows}
use proton_carddav_sync.Tests.Fixtures.{empty_db}

abbrev ann_record : ContactRecord
ann_record = record {
  updated_at = 1500000000;
  uid = "ann";
  etag = "1";
  vcard_hash = "h";
  proton_base = "p";
  carddav_base = "c";
}

stored-upsert_contact_example : stored (upsert_contact ann_record empty_db).1 "ann" ≡ (
    if fails empty_db.faults
    then stored empty_db "ann"
    else if "ann" == ann_record.uid
    then ok (rounded ann_record)
    else stored empty_db "ann")
stored-upsert_contact_example = stored-upsert_contact ann_record empty_db "ann"

abbrev ann : String
ann = "ann"

abbrev ann_stored : Db
ann_stored = (upsert_contact ann_record empty_db).1

stored-delete_contact_example : stored (delete_contact ann ann_stored).1 ann ≡ (
    if fails ann_stored.faults
    then stored ann_stored ann
    else if ann == ann
    then err no_rows
    else stored ann_stored ann)
stored-delete_contact_example = stored-delete_contact ann ann_stored ann

-- A database of the first version of the program.
abbrev old_schema : Schema
old_schema = record {
  tables = ("credentials", "id" ∷ "salt" ∷ "carddav_password_enc" ∷ []) ∷ [];
  faults = [];
}

migrate_grows_example :
    ((migrate old_schema).0 ≡ ok tt)
    × ((table column : String)
        → Has table column old_schema.tables
        → Has table column (migrate old_schema).1.tables)
    × All
        (λ c. Has "credentials" c (migrate old_schema).1.tables)
        ("proton_uid_enc" ∷ "proton_refresh_enc" ∷ "proton_keypass_enc" ∷ [])
    × All
        (λ c. Has "contacts" c (migrate old_schema).1.tables)
        ("proton_base" ∷ "carddav_base" ∷ [])
migrate_grows_example = migrate_grows old_schema refl

abbrev new_schema : Schema
new_schema = record { tables = []; faults = [] }

migrate_creates_example :
    All
      (λ c. Has "credentials" c (migrate new_schema).1.tables)
      ("id" ∷ "salt" ∷ "proton_uid_enc" ∷ "proton_refresh_enc" ∷ "proton_keypass_enc"
        ∷ "carddav_password_enc" ∷ [])
    × All
        (λ c. Has "contacts" c (migrate new_schema).1.tables)
        ("uid" ∷ "etag" ∷ "vcard_hash" ∷ "proton_base" ∷ "carddav_base" ∷ "updated_at" ∷ [])
unfolding lookup
migrate_creates_example = migrate_creates new_schema refl refl refl
