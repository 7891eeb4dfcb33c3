-- ===== src/Db.antt =====
-- internal/db: the local SQLite database, as the tables that its statements read and write.
pub mod Contacts
pub mod Secrets
pub mod Schema
pub mod Open
use proton_carddav_sync.Base.{ℕ, String, Bool, true, false, Option, List, [], ◌∷◌, if◌then◌else◌}
use proton_carddav_sync.Base.Dict.{Dict}
use proton_carddav_sync.Base.Result.{Error, failure, Result, ok, err}
use proton_carddav_sync.Base.Exec.{Exec}

-- The columns of `contacts` behind the key `uid`. `updated_at` counts seconds, from the epoch of the
-- module Time instead of 1970.
pub record Row : Type 0 where
  pub etag : String
  pub vcard_hash : String
  pub proton_base : String
  pub carddav_base : String
  pub updated_at : ℕ

-- `Credentials`: every field but the salt is encrypted. Bytes are numbers.
pub record Credentials : Type 0 where
  pub salt : List ℕ
  pub proton_uid_enc : List ℕ
  pub proton_refresh_enc : List ℕ
  pub proton_keypass_enc : List ℕ
  pub carddav_password_enc : List ℕ

-- The two tables, and what the driver will do with the next statements: a statement fails where the
-- next entry is true, and goes through where it is false or no entry is left.
pub record Db : Type 0 where
  pub contacts : Dict String Row
  -- the row with id 1; a constraint allows no other
  pub credentials : Option Credentials
  pub faults : List Bool

abbrev pub fails : List Bool → Bool
fails [] = false
fails (b ∷ bs) = b

abbrev pub later : List Bool → List Bool
later [] = []
later (b ∷ bs) = bs

-- One statement: a statement that fails changes no table.
unfoldable pub statement : {A : Type 0} → (Db → Result A × Db) → Exec Db A
statement run db =
    let next = record db { faults = later db.faults } in
    if fails db.faults then (err (failure "database"), next) else run next
