-- ===== src/Cli/Init/Stored.antt =====
-- internal/cli/init.go: what `init` stores of the session.
use proton_carddav_sync.Base.{◌≡◌, refl, ap, true, false, some, []}
use proton_carddav_sync.Base.Result.{wrap, Result, ok, err}
use proton_carddav_sync.Base.Exec.{Exec, continue, pure, lift, attempt, within, ◌>>=◌, ◌>>◌}
use proton_carddav_sync.Base.Exec
use proton_carddav_sync.Base.Exec.Ensures.{Ensures}
use proton_carddav_sync.Cli.Connect.{Outside}
use proton_carddav_sync.Crypto.{Bytes}
use proton_carddav_sync.Crypto.Laws.{Opens}
use proton_carddav_sync.Db.{Db, Credentials, statement}
use proton_carddav_sync.Db.Secrets.{save_credentials}
use proton_carddav_sync.Protonmail.Cards.{Keyring}
use proton_carddav_sync.Protonmail.Login.{Session, Online, set_client, close}
use proton_carddav_sync.Protonmail.Login.Resume.{Unlocked, Granted}
use proton_carddav_sync.Session.{Secrets, Draws, is_unset, seal_secrets}
use proton_carddav_sync.Session.Store.{store_secrets, load_decrypted_credentials}
use proton_carddav_sync.Session.RoundTrip.{AllRead, load-store_secrets}
use proton_carddav_sync.Cli.Init.{on_rows}

module _ (o : Outside) where
  -- What the other commands need of the database: that it works, and holds secrets under a key.
  abbrev pub Holds : Bytes → Secrets → Db → Type 0
  Holds key creds db =
      ((load_decrypted_credentials o.ciphers key db).0 ≡ ok creds) × (db.faults ≡ [])

  module _ (opens : Opens o.ciphers) (draws : Draws) (reads : AllRead draws) where
    abbrev secrets_of : (key uid refresh pass dav k : Bytes) → Secrets
    secrets_of key uid refresh pass dav k = record {
      session_uid = uid;
      refresh_token = refresh;
      key_pass = pass;
      carddav_pass = dav;
      key = k;
    }

    stored-faults :
        (sealed : Result (Bytes × Credentials)) (db : Db)
        → db.faults ≡ []
        → ((lift sealed >>= λ s. within (wrap "save credentials") (save_credentials s.1))
            db).1.faults
          ≡ []
    unfolding save_credentials statement Exec.◌>>=◌
    stored-faults (ok s) db sound = rw sound refl
    stored-faults (err e) db sound = sound

    sealed-Holds :
        (sealed : Result (Bytes × Credentials)) (key uid refresh pass dav : Bytes) (db : Db)
        → seal_secrets o.ciphers draws key uid refresh pass dav ≡ sealed
        → is_unset key ≡ false
        → db.faults ≡ []
        → (store_secrets o.ciphers draws key uid refresh pass dav db).0 ≡ ok tt
        → (creds : Secrets) × (creds.session_uid ≡ uid)
          × (creds.refresh_token ≡ refresh)
          × (creds.key_pass ≡ pass)
          × Holds key creds (store_secrets o.ciphers draws key uid refresh pass dav db).1
    unfolding store_secrets Exec.◌>>=◌
    sealed-Holds (ok (k, row)) key uid refresh pass dav db h set sound stored = (
      secrets_of key uid refresh pass dav k,
      refl,
      refl,
      refl,
      (
        load-store_secrets o.ciphers opens draws reads key uid refresh pass dav k row db set h
            sound,
        stored-faults (seal_secrets o.ciphers draws key uid refresh pass dav) db sound,
      ),
    )
    sealed-Holds (err e) key uid refresh pass dav db h set sound stored = cc (rw h at stored)

    module _ (u : o.auth.User) (same_user : (s : o.api.State) → (o.auth.get_user s).0 ≡ ok u)
        (server : o.api.State) where
      -- The secrets under the key have the UID and the refresh token of a login, and open the key ring
      -- that the client was left with.
      abbrev pub Ready : Bytes → Online o.api.State Db → Type 0
      Ready key n =
          (creds : Secrets) × (kr : Keyring) × Holds key creds n.outside
          × (o.auth.unlock_keys u creds.key_pass ≡ ok kr)
          × (n.connection.keyring ≡ some kr)
          × Granted o.auth server creds.session_uid creds.refresh_token

      pub store-Ready :
          (key dav : Bytes) (session : Session) (n : Online o.api.State Db)
          → is_unset key ≡ false
          → n.outside.faults ≡ []
          → Unlocked o.auth u same_user true session.key_pass n
          → Granted o.auth server session.uid session.refresh_token
          → (store_secrets o.ciphers draws key session.uid session.refresh_token session.key_pass
              dav n.outside).0
            ≡ ok tt
          → Ready key
              (on_rows
                (store_secrets o.ciphers draws key session.uid session.refresh_token
                  session.key_pass dav)
                n).1
      unfolding on_rows
      store-Ready key dav session n set sound (kr, found, connected) granted stored =
          let (creds, same_uid, same_token, same, holds) =
            sealed-Holds _ key session.uid session.refresh_token session.key_pass dav n.outside refl
              set sound stored in
          (
            creds,
            kr,
            holds,
            cc (found, same),
            ap (λ c. c.keyring) connected,
            rw (same_uid, same_token) granted,
          )

      pub closed-Ready :
          (key : Bytes) (stored : Result (Unit {0})) (n : Online o.api.State Db)
          → (stored ≡ ok tt → Ready key n)
          → Ensures (λ _. Ready key) ((close o.auth >> lift stored) n)
      unfolding close set_client Exec.◌>>=◌
      closed-Ready key (ok tt) n ready = record { at = λ a returned. ready refl }
      closed-Ready key (err e) n ready = record { at = λ a returned. cc returned }
