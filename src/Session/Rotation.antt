-- ===== src/Session/Rotation.antt =====
-- internal/cli/sync.go, the handler of a rotated refresh token, and the next load.
use proton_carddav_sync.Base.{◌≡◌, refl, ap, false, Option, none, some, []}
use proton_carddav_sync.Base.Result.{wrap, is_no_rows, Result, ok, err, ◌>>=◌, map_err}
use proton_carddav_sync.Base.Exec
use proton_carddav_sync.Crypto.{Bytes, Ciphers, derive_key_with_salt, encrypt, decrypt}
use proton_carddav_sync.Crypto.Laws.{Opens, Reads, decrypt-encrypt}
use proton_carddav_sync.Db.{Credentials, Db, statement}
use proton_carddav_sync.Db.Secrets.{update_proton_refresh, load_credentials}
use proton_carddav_sync.Session.{Secrets, Random, is_unset, open_with, open_secrets, decrypt_field}
use proton_carddav_sync.Session.Store.{
  load_decrypted_credentials, encrypt_refresh_token, persist, on_refresh,
}

-- `open_with`, on the results of its decryptions.
abbrev fields : Bytes → (r1 r2 r3 r4 : Result Bytes) → Result Secrets
fields key r1 r2 r3 r4 = do
  uid ← map_err (wrap "decrypt proton uid (wrong PCS_ENCRYPTION_KEY?)") r1
  refresh ← map_err (wrap "decrypt proton refresh token (wrong PCS_ENCRYPTION_KEY?)") r2
  key_pass ← map_err (wrap "decrypt proton key password (wrong PCS_ENCRYPTION_KEY?)") r3
  carddav ← map_err (wrap "decrypt carddav password (wrong PCS_ENCRYPTION_KEY?)") r4
  ok (record {
    session_uid = uid;
    refresh_token = refresh;
    key_pass = key_pass;
    carddav_pass = carddav;
    key = key;
  })

abbrev with_token : Bytes → Secrets → Result Secrets
with_token token s = ok (record s { refresh_token = token })

-- Another token in place of the old one changes nothing else.
fields_rotated :
    (key : Bytes) (r1 r2 r3 r4 : Result Bytes) (s : Secrets) (token : Bytes)
    → fields key r1 r2 r3 r4 ≡ ok s
    → fields key r1 (ok token) r3 r4 ≡ ok (record s { refresh_token = token })
fields_rotated key (err e) r2 r3 r4 s token h = cc h
fields_rotated key (ok a) (err e) r3 r4 s token h = cc h
fields_rotated key (ok a) (ok b) (err e) r4 s token h = cc h
fields_rotated key (ok a) (ok b) (ok d) (err e) s token h = cc h
fields_rotated key (ok a) (ok b) (ok d) (ok e) s token h = ap (λ r. r >>= with_token token) h

fields_key :
    (key : Bytes) (r1 r2 r3 r4 : Result Bytes) (s : Secrets)
    → fields key r1 r2 r3 r4 ≡ ok s
    → key ≡ s.key
fields_key key (err e) r2 r3 r4 s h = cc h
fields_key key (ok a) (err e) r3 r4 s h = cc h
fields_key key (ok a) (ok b) (err e) r4 s h = cc h
fields_key key (ok a) (ok b) (ok d) (err e) s h = cc h
fields_key key (ok a) (ok b) (ok d) (ok e) s h = cc h

module _ (c : Ciphers) (opens : Opens c) (random : Random) (reads : Reads random) where
  open_with_rotated :
      (key token enc : Bytes) (creds : Credentials) (s : Secrets)
      → open_with c creds key ≡ ok s
      → encrypt c random s.key token ≡ ok enc
      → open_with c (record creds { proton_refresh_enc = enc }) key
        ≡ ok (record s { refresh_token = token })
  unfolding open_with decrypt_field
  open_with_rotated key token enc creds s h e =
      let same = fields_key key _ (decrypt c key creds.proton_refresh_enc) _ _ s h in
      rw (decrypt-encrypt c opens random reads key token enc (rw (← same) at e))
        (fields_rotated key _ (decrypt c key creds.proton_refresh_enc) _ _ s token h)

  loaded_rotated :
      (stored : Option Credentials) (env token enc : Bytes) (s : Secrets) (db : Db)
      → db.credentials ≡ stored
      → db.faults ≡ []
      → is_unset env ≡ false
      → (load_decrypted_credentials c env db).0 ≡ ok s
      → encrypt_refresh_token c random s token ≡ ok enc
      → (load_decrypted_credentials c env (on_refresh c random s token db).1).0
        ≡ ok (record s { refresh_token = token })
  unfolding load_decrypted_credentials Exec.◌>>=◌ load_credentials statement is_no_rows open_secrets
      on_refresh persist update_proton_refresh encrypt_refresh_token
  loaded_rotated none env token enc s db q sound set h e = cc (rw (sound, q) at h)
  loaded_rotated (some creds) env token enc s db q sound set h e =
      rw
        (
          e,
          sound,
          q,
          set,
          open_with_rotated (derive_key_with_salt c env creds.salt) token enc creds s
              (rw (sound, q, set) at h) e,
        )
        refl

  -- Where the daemon loaded its secrets, opening undoes sealing, the random reader gives as many bytes
  -- as it is asked for, the new token could be encrypted and the database works, the handler of a
  -- rotated token makes the next load return the new token, and all else as before.
  pub load-on_refresh :
      (env token enc : Bytes) (s : Secrets) (db : Db)
      → db.faults ≡ []
      → is_unset env ≡ false
      → (load_decrypted_credentials c env db).0 ≡ ok s
      → encrypt_refresh_token c random s token ≡ ok enc
      → (load_decrypted_credentials c env (on_refresh c random s token db).1).0
        ≡ ok (record s { refresh_token = token })
  load-on_refresh env token enc s db = loaded_rotated db.credentials env token enc s db refl
