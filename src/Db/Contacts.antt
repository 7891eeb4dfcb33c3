-- ===== src/Db/Contacts.antt =====
-- internal/db/contact_store.go: the contact records.
pub mod Laws
use mathlib.Core.Option.{get_or}
use proton_carddav_sync.Base.{
  ℕ, ◌*◌, ◌/◌, ◌^◌, String, Option, none, some, List, [], ◌∷◌, string_eq, if◌then◌else◌,
}
use proton_carddav_sync.Base.Dict.{Dict, keys, lookup, insert, erase}
use proton_carddav_sync.Base.Sort.{sort}
use proton_carddav_sync.Base.Result.{Error, no_rows, wrap, wrap_at, is_no_rows, Result, ok, err}
use proton_carddav_sync.Base.Exec.{Exec, within, pure, attempt, fail, lift, ◌>>=◌, ◌>>◌}
use proton_carddav_sync.Time.{Instant}
use proton_carddav_sync.Db.{Row, Db, statement}

-- `ContactRecord`
pub record ContactRecord : Type 0 where
  pub updated_at : Instant
  pub uid : String
  pub etag : String
  pub vcard_hash : String
  pub proton_base : String
  pub carddav_base : String

-- `t.Unix()` and `time.Unix(s, 0)`
unfoldable pub to_unix : Instant → ℕ
to_unix t = t / 10 ^ 9

unfoldable pub of_unix : ℕ → Instant
of_unix s = s * 10 ^ 9

abbrev pub row_of : ContactRecord → Row
row_of r = record {
  etag = r.etag;
  vcard_hash = r.vcard_hash;
  proton_base = r.proton_base;
  carddav_base = r.carddav_base;
  updated_at = to_unix r.updated_at;
}

abbrev pub record_of : String → Row → ContactRecord
record_of uid row = record {
  updated_at = of_unix row.updated_at;
  uid = uid;
  etag = row.etag;
  vcard_hash = row.vcard_hash;
  proton_base = row.proton_base;
  carddav_base = row.carddav_base;
}

-- INSERT … ON CONFLICT(uid) DO UPDATE SET …
abbrev pub write_row : ContactRecord → Db → Result (Unit {0}) × Db
write_row r db = (ok tt, record db { contacts = insert r.uid (row_of r) db.contacts })

-- `UpsertContact`
unfoldable pub upsert_contact : ContactRecord → Exec Db (Unit {0})
upsert_contact r = within (wrap_at "upsert contact" r.uid) (statement (write_row r))

abbrev pub found_row : String → Option Row → Result ContactRecord
found_row uid none = err no_rows
found_row uid (some row) = ok (record_of uid row)

-- SELECT … WHERE uid = ?
abbrev pub read_row : String → Db → Result ContactRecord × Db
read_row uid db = (found_row uid (lookup uid db.contacts), db)

-- The error of a missing row is passed on bare, any other is wrapped.
abbrev pub get_error : String → Error → Error
get_error uid e = if is_no_rows e then no_rows else wrap_at "get contact" uid e

-- `GetContact`
unfoldable pub get_contact : String → Exec Db ContactRecord
get_contact uid = within (get_error uid) (statement (read_row uid))

-- The selected columns of one row; the bases are not among them.
abbrev pub scan : String → Row → ContactRecord
scan uid row = record {
  updated_at = of_unix row.updated_at;
  uid = uid;
  etag = row.etag;
  vcard_hash = row.vcard_hash;
  proton_base = "";
  carddav_base = "";
}

unfoldable pub scan_all : Dict String Row → List String → List ContactRecord
scan_all rows [] = []
scan_all rows (uid ∷ uids) = elim (lookup uid rows) [
  | none ↦ scan_all rows uids
  | some row ↦ scan uid row ∷ scan_all rows uids
]

-- SELECT … ORDER BY uid
abbrev pub read_all : Db → Result (List ContactRecord) × Db
read_all db = (ok (scan_all db.contacts (sort (keys db.contacts))), db)

-- `ListContacts`. The rows are read after the query, and that can fail too.
unfoldable pub list_contacts : Exec Db (List ContactRecord)
list_contacts = do
  records ← within (wrap "list contacts") (statement read_all)
  within (wrap "iterate contact rows") (statement (λ db. (ok records, db)))

-- DELETE FROM contacts WHERE uid = ?
abbrev pub delete_row : String → Db → Result (Unit {0}) × Db
delete_row uid db = (ok tt, record db { contacts = erase uid db.contacts })

-- `DeleteContact`
unfoldable pub delete_contact : String → Exec Db (Unit {0})
delete_contact uid = within (wrap_at "delete contact" uid) (statement (delete_row uid))
