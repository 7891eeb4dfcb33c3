-- ===== src/Cli/Connect/Locked.antt =====
-- internal/cli/sync.go, withSyncer, where the stored secrets do not open.
use proton_carddav_sync.Base.{◌≡◌, ◌≢◌, ◌∙◌, refl, sym, Option, some, arith}
use proton_carddav_sync.Base.Result.{Error, wrap, ok, is_no_rows}
use proton_carddav_sync.Base.Exec.{Exec, within}
use proton_carddav_sync.Base.Exec.Ensures.{map_err-inv}
use proton_carddav_sync.Base.Exec.Fails.{Fails, Fails-bind, Fails-first, Fails-lift, Fails-within}
use proton_carddav_sync.Cli.Connect.{Outside, Machine, open_session, with_syncer}
use proton_carddav_sync.Config.{Config}
use proton_carddav_sync.Crypto.{Bytes, Ciphers}
use proton_carddav_sync.Db.{Db, Credentials, statement}
use proton_carddav_sync.Db.Open.{open_rows}
use proton_carddav_sync.Db.Secrets.{load_credentials}
use proton_carddav_sync.Session.{Secrets, open_secrets}
use proton_carddav_sync.Session.Store.{load_decrypted_credentials}
use proton_carddav_sync.Syncer.{Syncer, World, on_db}
use proton_carddav_sync.Syncer.Index.{W}

-- What is stored does not open with the key: there is none, it was sealed with another key, or
-- PCS_ENCRYPTION_KEY is not set.
abbrev pub IsLocked : Ciphers → Bytes → Option Credentials → Type 0
IsLocked c key stored =
    (creds : Credentials) (secrets : Secrets)
    → stored ≡ some creds
    → open_secrets c key creds ≢ ok secrets

-- The tables are as they were.
record Intact (before db : Db) : Type 0 where
  contacts : db.contacts ≡ before.contacts
  credentials : db.credentials ≡ before.credentials

-- The two servers and the tables are as they were.
pub record Untouched {P C : Type 0} (before w : World P C) : Type 0 where
  pub proton : w.proton ≡ before.proton
  pub carddav : w.carddav ≡ before.carddav
  pub contacts : w.db.contacts ≡ before.db.contacts
  pub credentials : w.db.credentials ≡ before.db.credentials

load-Intact : (db : Db) → Intact db (load_credentials db).1
unfolding load_credentials statement within
load-Intact db = ground arith

loaded_stored :
    (db : Db) (creds : Credentials)
    → (load_credentials db).0 ≡ ok creds
    → db.credentials ≡ some creds
unfolding load_credentials statement within is_no_rows
loaded_stored db creds h = ground (arith, h)

load-Fails :
    (c : Ciphers) (key : Bytes) (db : Db)
    → IsLocked c key db.credentials
    → Fails (Intact db) (load_decrypted_credentials c key db)
unfolding load_decrypted_credentials within
load-Fails c key db locked = Fails-bind _ _ db (load-Intact db) (λ creds e.
    Fails-lift _ _ (load-Intact db)
      (λ secrets. locked creds secrets (loaded_stored db creds (map_err-inv _ _ creds e))))

open-Intact : (db : Db) → Intact db (open_rows db).1
unfolding open_rows statement
open-Intact db = ground arith

module _ (o : Outside) where
  -- An operation on the database, as the rest of the machine sees it.
  Untouched-on_db :
      {A : Type 0} (op : Exec Db A) (before w : Machine o)
      → Untouched before w
      → Intact w.db (op w.db).1
      → Untouched before (on_db op w).1
  unfolding on_db
  Untouched-on_db op before w h kept = record {
    proton = h.proton;
    carddav = h.carddav;
    contacts = kept.contacts ∙ h.contacts;
    credentials = kept.credentials ∙ h.credentials;
  }

  Untouched-within :
      {A : Type 0} (f : Error → Error) (m : Exec (Machine o) A) (before w : Machine o)
      → Untouched before (m w).1
      → Untouched before (within f m w).1
  unfolding within
  Untouched-within f m before w h = h

  Fails-on_db :
      {A : Type 0} (op : Exec Db A) (before w : Machine o)
      → Untouched before w
      → Fails (Intact w.db) (op w.db)
      → Fails (Untouched before) (on_db op w)
  unfolding on_db
  Fails-on_db op before w h f = record {
    error = f.error;
    failed = f.failed;
    kept = record {
      proton = h.proton;
      carddav = h.carddav;
      contacts = f.kept.contacts ∙ h.contacts;
      credentials = f.kept.credentials ∙ h.credentials;
    };
  }

  open_session-Fails :
      (w : Machine o)
      → IsLocked o.ciphers o.key w.db.credentials
      → Fails (Untouched w) (open_session o w)
  unfolding open_session
  open_session-Fails w locked =
      let opened : Untouched w (within (wrap "open database") (on_db open_rows) w).1 =
        Untouched-within _ (on_db open_rows) w w (
          Untouched-on_db open_rows w w
            (record { proton = refl; carddav = refl; contacts = refl; credentials = refl })
            (open-Intact w.db)) in
      Fails-bind _ _ w opened (λ _ _. Fails-first _ _ _ (
        Fails-within _ _ _ (
          Fails-on_db (load_decrypted_credentials o.ciphers o.key) w _ opened (
            load-Fails o.ciphers o.key _
              (λ creds secrets e. locked creds secrets (sym opened.credentials ∙ e))))))

-- Where no stored secrets open with the key (none are stored, they were sealed with another key, or
-- PCS_ENCRYPTION_KEY is not set), every command that runs over withSyncer, whatever it would do
-- then, returns an error and leaves both servers, the contact records and the stored credentials as
-- they were, whatever else the database and the context do.
pub with_syncer_locked :
    (o : Outside) (cfg : Config) (fn : (s : Syncer) → Exec (W s) (Unit {0})) (w : Machine o)
    → IsLocked o.ciphers o.key w.db.credentials
    → Fails (Untouched w) (with_syncer o cfg fn w)
unfolding with_syncer
with_syncer_locked o cfg fn w locked = Fails-first _ _ w (open_session-Fails o w locked)
