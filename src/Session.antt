-- ===== src/Session.antt =====
-- internal/syncer/crypto_shim.go, and the callers of it in internal/cli: how the secrets of a session
-- get into the database and out of it.
pub mod Store
pub mod RoundTrip
pub mod Rotation
use proton_carddav_sync.Base.{
  ℕ, String, Bool, true, false, Option, none, some, List, [], ◌∷◌, if◌then◌else◌,
}
use proton_carddav_sync.Base.Result.{Error, failure, wrap, Result, ok, err, ◌>>=◌, map_err}
use proton_carddav_sync.Crypto.{Bytes, Ciphers, derive_key, derive_key_with_salt, encrypt, decrypt}
use proton_carddav_sync.Db.{Credentials}

-- `Credentials` of the syncer: the session, the password of CardDAV, and the key.
pub record Secrets : Type 0 where
  pub session_uid : Bytes
  pub refresh_token : Bytes
  pub key_pass : Bytes
  pub carddav_pass : Bytes
  pub key : Bytes

abbrev pub Random : Type 0
Random = ℕ → Result Bytes

-- What the random reader gives at each of the draws of `init`, in their order.
pub record Draws : Type 0 where
  pub salt : Random
  pub uid : Random
  pub refresh : Random
  pub key_pass : Random
  pub carddav : Random

abbrev pub is_unset : Bytes → Bool
is_unset [] = true
is_unset (b ∷ bs) = false

module _ (c : Ciphers) where
  -- The part of `init` that derives the key and encrypts everything.
  unfoldable pub seal_secrets :
      (draws : Draws) (env session_uid refresh_token key_pass carddav_pass : Bytes)
      → Result (Bytes × Credentials)
  seal_secrets draws env session_uid refresh_token key_pass carddav_pass = do
    (key, salt) ← map_err (wrap "derive key") (derive_key c draws.salt env)
    uid_enc ← map_err (wrap "encrypt proton uid") (encrypt c draws.uid key session_uid)
    refresh_enc ←
        map_err (wrap "encrypt proton refresh token") (encrypt c draws.refresh key refresh_token)
    key_pass_enc ←
        map_err (wrap "encrypt proton key password") (encrypt c draws.key_pass key key_pass)
    carddav_enc ←
        map_err (wrap "encrypt carddav password") (encrypt c draws.carddav key carddav_pass)
    ok (
      key,
      record {
        salt = salt;
        proton_uid_enc = uid_enc;
        proton_refresh_enc = refresh_enc;
        proton_keypass_enc = key_pass_enc;
        carddav_password_enc = carddav_enc;
      },
    )

  -- `decryptField`
  unfoldable pub decrypt_field : Bytes → Bytes → String → Result Bytes
  decrypt_field key ciphertext label = map_err (wrap label) (decrypt c key ciphertext)

  -- The decryption of the fields by `LoadDecryptedCredentials`.
  unfoldable pub open_with : Credentials → Bytes → Result Secrets
  open_with creds key = do
    uid ← decrypt_field key creds.proton_uid_enc "decrypt proton uid (wrong PCS_ENCRYPTION_KEY?)"
    refresh ←
        decrypt_field key creds.proton_refresh_enc
          "decrypt proton refresh token (wrong PCS_ENCRYPTION_KEY?)"
    key_pass ←
        map_err (wrap "decrypt proton key password (wrong PCS_ENCRYPTION_KEY?)")
          (decrypt c key creds.proton_keypass_enc)
    carddav ←
        decrypt_field key creds.carddav_password_enc
          "decrypt carddav password (wrong PCS_ENCRYPTION_KEY?)"
    ok (record {
      session_uid = uid;
      refresh_token = refresh;
      key_pass = key_pass;
      carddav_pass = carddav;
      key = key;
    })

  -- `LoadDecryptedCredentials`, after the row is read
  unfoldable pub open_secrets : Bytes → Credentials → Result Secrets
  open_secrets env creds =
      if is_unset env
      then err (failure "PCS_ENCRYPTION_KEY environment variable not set")
      else open_with creds (derive_key_with_salt c env creds.salt)
