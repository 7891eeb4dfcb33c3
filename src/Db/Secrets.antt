-- ===== src/Db/Secrets.antt =====
-- internal/db/db.go: the stored credentials.
use proton_carddav_sync.Base.{ℕ, Option, none, some, List}
use proton_carddav_sync.Base.Result.{Error, failure, no_rows, wrap, Result, ok, err, is_no_rows}
use proton_carddav_sync.Base.Exec.{Exec, within}
use proton_carddav_sync.Base.{if◌then◌else◌}
use proton_carddav_sync.Db.{Credentials, Db, statement}

-- `ErrCredentialsNotFound`
abbrev pub credentials_not_found : Error
credentials_not_found = failure "credentials not found: run 'proton-carddav-sync init'"

-- `SaveCredentials`: INSERT … ON CONFLICT(id) DO UPDATE SET … of every column
unfoldable pub save_credentials : Credentials → Exec Db (Unit {0})
save_credentials creds =
    within (wrap "save credentials")
      (statement (λ db. (ok tt, record db { credentials = some creds })))

abbrev pub with_refresh : List ℕ → Option Credentials → Option Credentials
with_refresh enc none = none
with_refresh enc (some c) = some (record c { proton_refresh_enc = enc })

-- `UpdateProtonRefresh`: UPDATE … WHERE id = 1, which is no error where there is no row
unfoldable pub update_proton_refresh : List ℕ → Exec Db (Unit {0})
update_proton_refresh enc =
    within (wrap "update proton refresh token")
      (statement (λ db. (ok tt, record db { credentials = with_refresh enc db.credentials })))

abbrev pub found_credentials : Option Credentials → Result Credentials
found_credentials none = err no_rows
found_credentials (some c) = ok c

abbrev pub load_error : Error → Error
load_error e = if is_no_rows e then credentials_not_found else wrap "load credentials" e

-- `LoadCredentials`
unfoldable pub load_credentials : Exec Db Credentials
load_credentials = within load_error (statement (λ db. (found_credentials db.credentials, db)))
