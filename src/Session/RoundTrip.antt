-- ===== src/Session/RoundTrip.antt =====
-- internal/cli/init.go and internal/syncer/crypto_shim.go: storing the secrets of a session, and
-- loading them.
use proton_carddav_sync.Base.{◌≡◌, refl, sym, ap, ◌∙◌, false, []}
use proton_carddav_sync.Base.Result.{wrap, is_no_rows, Result, ok, err, ◌>>=◌, map_err}
use proton_carddav_sync.Base.Exec.{within, lift}
use proton_carddav_sync.Base.Exec
use proton_carddav_sync.Crypto.{Bytes, Ciphers, salt_len, derive_key, derive_key_with_salt, encrypt}
use proton_carddav_sync.Crypto.Laws.{Opens, Reads, decrypt-encrypt}
use proton_carddav_sync.Db.{Credentials, Db, statement}
use proton_carddav_sync.Db.Secrets.{save_credentials, load_credentials}
use proton_carddav_sync.Session.{
  Secrets, Random, Draws, is_unset, seal_secrets, open_with, open_secrets, decrypt_field,
}
use proton_carddav_sync.Session.Store.{store_secrets, load_decrypted_credentials}

-- Every draw of `init` gives as many bytes as it asks for, if any.
pub record AllRead (draws : Draws) : Type 0 where
  pub uid : Reads draws.uid
  pub refresh : Reads draws.refresh
  pub key_pass : Reads draws.key_pass
  pub carddav : Reads draws.carddav

-- The part of `seal_secrets` after the key, on the results of its encryptions.
abbrev sealed : Bytes × Bytes → (r1 r2 r3 r4 : Result Bytes) → Result (Bytes × Credentials)
sealed (key, salt) r1 r2 r3 r4 = do
  uid_enc ← map_err (wrap "encrypt proton uid") r1
  refresh_enc ← map_err (wrap "encrypt proton refresh token") r2
  key_pass_enc ← map_err (wrap "encrypt proton key password") r3
  carddav_enc ← map_err (wrap "encrypt carddav password") r4
  ok (
    key,
    record {
      salt = salt;
      proton_uid_enc = uid_enc;
      proton_refresh_enc = refresh_enc;
      proton_keypass_enc = key_pass_enc;
      carddav_password_enc = carddav_enc;
    },
  )

-- Where that succeeded, every encryption did, and the row holds what they gave.
sealed_inv :
    (k : Bytes × Bytes) (r1 r2 r3 r4 : Result Bytes) (key : Bytes) (creds : Credentials)
    → sealed k r1 r2 r3 r4 ≡ ok (key, creds)
    → (k ≡ (key, creds.salt))
      × (r1 ≡ ok creds.proton_uid_enc)
      × (r2 ≡ ok creds.proton_refresh_enc)
      × (r3 ≡ ok creds.proton_keypass_enc)
      × (r4 ≡ ok creds.carddav_password_enc)
sealed_inv k (err e) r2 r3 r4 key creds h = cc h
sealed_inv k (ok a1) (err e) r3 r4 key creds h = cc h
sealed_inv k (ok a1) (ok a2) (err e) r4 key creds h = cc h
sealed_inv k (ok a1) (ok a2) (ok a3) (err e) key creds h = cc h
sealed_inv k (ok a1) (ok a2) (ok a3) (ok a4) key creds h = (cc h, cc h, cc h, cc h, cc h)

module _ (c : Ciphers) (opens : Opens c) where
  abbrev derived : Bytes → Bytes → Result (Bytes × Bytes)
  derived env salt = ok (derive_key_with_salt c env salt, salt)

  drawn_inv :
      (r : Result Bytes) (env key salt : Bytes)
      → (map_err (wrap "generate salt") r >>= derived env) ≡ ok (key, salt)
      → derive_key_with_salt c env salt ≡ key
  drawn_inv (ok s) env key salt h = cc h
  drawn_inv (err e) env key salt h = cc h

  derive_key_inv :
      (random : Random) (env key salt : Bytes)
      → derive_key c random env ≡ ok (key, salt)
      → derive_key_with_salt c env salt ≡ key
  unfolding derive_key
  derive_key_inv random env key salt h = drawn_inv (random salt_len) env key salt h

  module _ (draws : Draws) (reads : AllRead draws) where
    -- Where sealing succeeds, opening under the same key of the environment gives the secrets back.
    open_with-sealed :
        (s : Secrets) (creds : Credentials)
        → encrypt c draws.uid s.key s.session_uid ≡ ok creds.proton_uid_enc
        → encrypt c draws.refresh s.key s.refresh_token ≡ ok creds.proton_refresh_enc
        → encrypt c draws.key_pass s.key s.key_pass ≡ ok creds.proton_keypass_enc
        → encrypt c draws.carddav s.key s.carddav_pass ≡ ok creds.carddav_password_enc
        → open_with c creds s.key ≡ ok s
    unfolding open_with decrypt_field
    open_with-sealed s creds h1 h2 h3 h4 =
        rw
          (
            decrypt-encrypt c opens draws.uid reads.uid s.key s.session_uid creds.proton_uid_enc h1,
            decrypt-encrypt c opens draws.refresh reads.refresh s.key s.refresh_token
                creds.proton_refresh_enc h2,
            decrypt-encrypt c opens draws.key_pass reads.key_pass s.key s.key_pass
                creds.proton_keypass_enc h3,
            decrypt-encrypt c opens draws.carddav reads.carddav s.key s.carddav_pass
                creds.carddav_password_enc h4,
          )
          refl

    sealed_after :
        (d : Result (Bytes × Bytes)) (env uid refresh pass dav key : Bytes) (creds : Credentials)
        → d ≡ derive_key c draws.salt env
        → (map_err (wrap "derive key") d >>= λ k.
            sealed k
              (encrypt c draws.uid k.0 uid)
              (encrypt c draws.refresh k.0 refresh)
              (encrypt c draws.key_pass k.0 pass)
              (encrypt c draws.carddav k.0 dav))
          ≡ ok (key, creds)
        → open_with c creds (derive_key_with_salt c env creds.salt)
          ≡ ok (record {
            session_uid = uid;
            refresh_token = refresh;
            key_pass = pass;
            carddav_pass = dav;
            key = key;
          })
    sealed_after (err e) env uid refresh pass dav key creds q h = cc h
    sealed_after (ok (k, salt)) env uid refresh pass dav key creds q h =
        let (same, h1, h2, h3, h4) =
          sealed_inv (k, salt) (encrypt c draws.uid k uid) (encrypt c draws.refresh k refresh)
            (encrypt c draws.key_pass k pass) (encrypt c draws.carddav k dav) key creds h in
        let keys : k ≡ key = cc same in
        rw (derive_key_inv draws.salt env key creds.salt (sym q ∙ ap ok same)) (
          open_with-sealed
            (record {
              session_uid = uid;
              refresh_token = refresh;
              key_pass = pass;
              carddav_pass = dav;
              key = key;
            })
            creds (rw keys at h1) (rw keys at h2) (rw keys at h3) (rw keys at h4))

    opened :
        (env uid refresh pass dav key : Bytes) (creds : Credentials)
        → seal_secrets c draws env uid refresh pass dav ≡ ok (key, creds)
        → open_with c creds (derive_key_with_salt c env creds.salt)
          ≡ ok (record {
            session_uid = uid;
            refresh_token = refresh;
            key_pass = pass;
            carddav_pass = dav;
            key = key;
          })
    unfolding seal_secrets
    opened env uid refresh pass dav key creds h =
        sealed_after (derive_key c draws.salt env) env uid refresh pass dav key creds refl h

    -- What `init` stores, `LoadDecryptedCredentials` loads: where the key is set in the environment,
    -- every step of sealing succeeds, opening undoes sealing, the random reader gives as many bytes as
    -- it is asked for, and the database works, the loaded secrets are those that were stored.
    pub load-store_secrets :
        (env uid refresh pass dav key : Bytes) (creds : Credentials) (db : Db)
        → is_unset env ≡ false
        → seal_secrets c draws env uid refresh pass dav ≡ ok (key, creds)
        → db.faults ≡ []
        → (load_decrypted_credentials c env (store_secrets c draws env uid refresh pass dav db).1).0
          ≡ ok (record {
            session_uid = uid;
            refresh_token = refresh;
            key_pass = pass;
            carddav_pass = dav;
            key = key;
          })
    unfolding load_decrypted_credentials store_secrets Exec.◌>>=◌ load_credentials save_credentials
        statement open_secrets is_no_rows
    load-store_secrets env uid refresh pass dav key creds db set h sound =
        rw (h, sound, set, opened env uid refresh pass dav key creds h) refl
