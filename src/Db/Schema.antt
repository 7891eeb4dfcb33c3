-- ===== src/Db/Schema.antt =====
-- internal/db/db.go, migrate and ensureColumn: the tables and their columns.
pub mod Growth
pub mod Created
pub mod Migration
use mathlib.Core.Option.{get_or}
use proton_carddav_sync.Base.{
  String, Bool, true, false, Option, none, some, List, [], ◌∷◌, ◌++◌, ◌==◌, contains, string_eq,
  if◌then◌else◌,
}
use proton_carddav_sync.Base.Dict.{Dict, lookup, insert}
use proton_carddav_sync.Base.Result.{Error, failure, wrap, wrap_at, Result, ok, err}
use proton_carddav_sync.Base.Exec.{Exec, pure, within, ◌>>=◌, ◌>>◌}
use proton_carddav_sync.Db.{fails, later}

-- The tables of a database file with the names of their columns, and what the driver will do with the
-- next statements and reads, as in `Db`.
pub record Schema : Type 0 where
  pub tables : Dict String (List String)
  pub faults : List Bool

-- One statement, or one pass over the rows of a query: one that fails changes nothing.
unfoldable pub run : {A : Type 0} → (Schema → Result A × Schema) → Exec Schema A
run step db =
    let next = record db { faults = later db.faults } in
    if fails db.faults then (err (failure "database"), next) else step next

-- The columns of a table, none where there is no such table.
abbrev pub columns_of : String → Dict String (List String) → List String
columns_of table tables = get_or (lookup table tables) []

abbrev pub or_create :
    String
    → List String
    → Option (List String)
    → Dict String (List String)
    → Dict String (List String)
or_create table columns none tables = insert table columns tables
or_create table columns (some old) tables = tables

-- CREATE TABLE IF NOT EXISTS
unfoldable pub create_if_missing : String → List String → Exec Schema (Unit {0})
create_if_missing table columns = run (λ db.
    (ok tt, record db { tables = or_create table columns (lookup table db.tables) db.tables }))

abbrev pub altered : String → String → Option (List String) → Schema → Result (Unit {0}) × Schema
altered table column none db = (err (failure "no such table"), db)
altered table column (some old) db =
    if contains old column
    then (err (failure "duplicate column name"), db)
    else (ok tt, record db { tables = insert table (old ++ column ∷ []) db.tables })

-- ALTER TABLE … ADD COLUMN
unfoldable pub add_column : String → String → Exec Schema (Unit {0})
add_column table column = run (λ db. altered table column (lookup table db.tables) db)

-- PRAGMA table_info, and the loop over its rows. A pass over the rows that fails gives none of them.
unfoldable pub table_info : String → Exec Schema (List String)
table_info table = do
  within (wrap_at "inspect columns" table) (run (λ db. (ok tt, db)))
  within (wrap_at "iterate columns" table) (run (λ db. (ok (columns_of table db.tables), db)))

-- `ensureColumn`
unfoldable pub ensure_column : String → String → Exec Schema (Unit {0})
ensure_column table column = do
  columns ← table_info table
  if contains columns column
      then pure tt
      else within (wrap_at "add column" column) (add_column table column)

-- The loops of `migrate`
unfoldable pub ensure_columns : String → List String → Exec Schema (Unit {0})
ensure_columns table [] = pure tt
ensure_columns table (column ∷ columns) = do
  ensure_column table column
  ensure_columns table columns

abbrev pub credentials_columns : List String
credentials_columns =
    "id" ∷ "salt" ∷ "proton_uid_enc" ∷ "proton_refresh_enc" ∷ "proton_keypass_enc"
    ∷ "carddav_password_enc" ∷ []

abbrev pub contacts_columns : List String
contacts_columns =
    "uid" ∷ "etag" ∷ "vcard_hash" ∷ "proton_base" ∷ "carddav_base" ∷ "updated_at" ∷ []

abbrev pub later_credentials_columns : List String
later_credentials_columns = "proton_uid_enc" ∷ "proton_refresh_enc" ∷ "proton_keypass_enc" ∷ []

abbrev pub later_contacts_columns : List String
later_contacts_columns = "proton_base" ∷ "carddav_base" ∷ []

-- `migrate`
unfoldable pub migrate : Exec Schema (Unit {0})
migrate = do
  within (wrap "exec schema") (create_if_missing "credentials" credentials_columns)
  within (wrap "exec schema") (create_if_missing "contacts" contacts_columns)
  ensure_columns "credentials" later_credentials_columns
  ensure_columns "contacts" later_contacts_columns
