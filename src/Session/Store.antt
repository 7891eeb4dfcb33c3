-- ===== src/Session/Store.antt =====
-- internal/syncer/crypto_shim.go, LoadDecryptedCredentials and EncryptRefreshToken, and what `init` and
-- the rotation of the refresh token write (internal/cli/init.go and sync.go).
use proton_carddav_sync.Base.Result.{wrap, Result, ok, err}
use proton_carddav_sync.Base.Exec.{Exec, pure, lift, attempt, within, ◌>>=◌, ◌>>◌}
use proton_carddav_sync.Crypto.{Bytes, Ciphers, encrypt}
use proton_carddav_sync.Db.{Db}
use proton_carddav_sync.Db.Secrets.{save_credentials, update_proton_refresh, load_credentials}
use proton_carddav_sync.Session.{Secrets, Random, Draws, seal_secrets, open_secrets}

module _ (c : Ciphers) where
  -- `init`, from the key on
  unfoldable pub store_secrets :
      (draws : Draws) (env session_uid refresh_token key_pass carddav_pass : Bytes)
      → Exec Db (Unit {0})
  store_secrets draws env session_uid refresh_token key_pass carddav_pass = do
    sealed ← lift (seal_secrets c draws env session_uid refresh_token key_pass carddav_pass)
    within (wrap "save credentials") (save_credentials sealed.1)

  -- `LoadDecryptedCredentials`
  unfoldable pub load_decrypted_credentials : Bytes → Exec Db Secrets
  load_decrypted_credentials env = do
    creds ← within (wrap "load credentials from db") load_credentials
    lift (open_secrets c env creds)

  -- `EncryptRefreshToken`
  unfoldable pub encrypt_refresh_token : Random → Secrets → Bytes → Result Bytes
  encrypt_refresh_token random secrets token = encrypt c random secrets.key token

  unfoldable pub persist : Result Bytes → Exec Db (Unit {0})
  persist (err e) = pure tt
  persist (ok enc) = do attempt (update_proton_refresh enc); pure tt

  -- `onRefresh`: a failure is logged.
  unfoldable pub on_refresh : Random → Secrets → Bytes → Exec Db (Unit {0})
  on_refresh random secrets token = persist (encrypt_refresh_token random secrets token)
