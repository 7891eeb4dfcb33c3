-- ===== src/Cli/Connect.antt =====
-- internal/cli/sync.go, withSyncer: the setup that the commands share.
pub mod Locked
use proton_carddav_sync.Base.{Option}
use proton_carddav_sync.Base.Int.{pos_part}
use proton_carddav_sync.Base.Result.{wrap, Result, ok, err}
use proton_carddav_sync.Base.Exec.{Exec, within, ◌>>=◌, ◌>>◌}
use proton_carddav_sync.Carddav.Client.{Dav, Client, new, client as carddav_client}
use proton_carddav_sync.Cli.{parse_sync_direction, parse_conflict_policy}
use proton_carddav_sync.Config.{Config}
use proton_carddav_sync.Crypto.{Bytes, Ciphers}
use proton_carddav_sync.Db.{Db}
use proton_carddav_sync.Db.Open.{open_rows}
use proton_carddav_sync.Library.{Library}
use proton_carddav_sync.Protonmail.Cards.{Keyring}
use proton_carddav_sync.Protonmail.Client.{Api, client as proton_client}
use proton_carddav_sync.Protonmail.Login.{
  AuthApi, Session, Online, new_connection, resume_session, session_of,
}
use proton_carddav_sync.Session.{Secrets, Random}
use proton_carddav_sync.Session.Store.{load_decrypted_credentials, on_refresh}
use proton_carddav_sync.Syncer.{Syncer, World, on_carddav, on_db}
use proton_carddav_sync.Syncer.Index.{W}

-- What a command takes from outside: the libraries, the two servers, the value of PCS_ENCRYPTION_KEY
-- and the random reader.
pub record Outside : Type 1 where
  pub lib : Library
  pub ciphers : Ciphers
  pub api : Api
  pub auth : AuthApi api.State
  pub dav : Dav
  pub key : Bytes
  pub random : Random

-- The session that the stored secrets hold.
abbrev pub stored_session : Secrets → Session
stored_session creds = record {
  uid = creds.session_uid;
  refresh_token = creds.refresh_token;
  key_pass = creds.key_pass;
}

module _ (o : Outside) where
  -- The servers, the database and the context.
  abbrev pub Machine : Type 0
  Machine = World o.api.State o.dav.State

  -- The callback of ResumeSession writes to the database.
  unfoldable pub refresh_handler : Secrets → Bytes → Exec (Online o.api.State Db) (Unit {0})
  refresh_handler creds token w =
      let (r, db) = on_refresh o.ciphers o.random creds token w.outside in
      (r, record w { outside = db })

  abbrev pub disconnected : Machine → Online o.api.State Db
  disconnected w = record { server = w.proton; connection = new_connection; outside = w.db }

  abbrev pub connected :
      Machine → Result (Unit {0}) × Online o.api.State Db → Result (Option Keyring) × Machine
  connected w (ok _, online) =
      (ok (session_of online.connection), record w { proton = online.server; db = online.outside })
  connected w (err e, online) = (
    err (wrap "resume proton session" e),
    record w { proton = online.server; db = online.outside },
  )

  -- `NewClient` and `ResumeSession`: the session of the client.
  unfoldable pub connect : Secrets → Exec Machine (Option Keyring)
  connect creds w =
      connected w
        (resume_session o.auth (stored_session creds) (refresh_handler creds) (disconnected w))

  -- `syncer.New`
  abbrev pub built_syncer : Config → Option Keyring → Client → Syncer
  built_syncer cfg session book = record {
    lib = o.lib;
    proton = proton_client o.lib.codec o.api session;
    carddav = carddav_client o.lib.codec o.dav book;
    dir = parse_sync_direction cfg.sync.direction;
    policy = parse_conflict_policy cfg.sync.conflict;
    max_new_proton = pos_part cfg.sync.max_new_proton_contacts_per_run;
  }

  -- The part of `withSyncer` that opens the database and resumes the session.
  unfoldable pub open_session : Exec Machine (Option Keyring)
  open_session = do
    within (wrap "open database") (on_db open_rows)
    creds ← within (wrap "load credentials") (on_db (load_decrypted_credentials o.ciphers o.key))
    connect creds

  -- `withSyncer`; closing what it opened changes nothing that a later run reads.
  unfoldable pub with_syncer :
      (cfg : Config) → ((s : Syncer) → Exec (W s) (Unit {0})) → Exec Machine (Unit {0})
  with_syncer cfg fn = do
    session ← open_session
    book ← within (wrap "create carddav client") (on_carddav (new o.lib.codec o.dav))
    fn (built_syncer cfg session book)
