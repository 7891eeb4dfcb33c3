-- ===== src/Db/Contacts/Laws.antt =====
-- internal/db/contact_store.go: reading a record after each operation, with and without a fault.
use proton_carddav_sync.Base.{◌≡◌, ◌*◌, ◌/◌, ◌^◌, String, ◌==◌, string_eq, arith, if◌then◌else◌}
use proton_carddav_sync.Base.Dict.{lookup, lookup-insert, lookup-erase}
use proton_carddav_sync.Base.Result.{no_rows, Result, ok, err}
use proton_carddav_sync.Base.Exec.{within}
use proton_carddav_sync.Db.{Db, statement, fails}
use proton_carddav_sync.Db.Contacts.{
  ContactRecord, to_unix, of_unix, found_row, row_of, upsert_contact, delete_contact,
}

-- What a read of `uid` finds in the table.
abbrev pub stored : Db → String → Result ContactRecord
stored db uid = found_row uid (lookup uid db.contacts)

-- The record as it comes back: times lose what is below a second.
abbrev pub rounded : ContactRecord → ContactRecord
rounded r = record r { updated_at = r.updated_at / 10 ^ 9 * 10 ^ 9 }

-- After a write that went through, its key reads back as written, to the second, and every other
-- key as before; after one that failed every key does.
pub stored-upsert_contact :
    (r : ContactRecord) (db : Db) (uid : String)
    → stored (upsert_contact r db).1 uid ≡ (
        if fails db.faults
        then stored db uid
        else if uid == r.uid
        then ok (rounded r)
        else stored db uid)
unfolding upsert_contact statement within to_unix of_unix
stored-upsert_contact r db uid = ground (arith, lookup-insert uid r.uid (row_of r) db.contacts)

-- After a delete that went through, its key has no record and every other key reads as before; after
-- one that failed every key reads as before.
pub stored-delete_contact :
    (gone : String) (db : Db) (uid : String)
    → stored (delete_contact gone db).1 uid ≡ (
        if fails db.faults
        then stored db uid
        else if uid == gone
        then err no_rows
        else stored db uid)
unfolding delete_contact statement within
stored-delete_contact gone db uid = ground (arith, lookup-erase uid gone db.contacts)
