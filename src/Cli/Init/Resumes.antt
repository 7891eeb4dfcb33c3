-- ===== src/Cli/Init/Resumes.antt =====
-- internal/cli/init.go and sync.go: a command that comes after `init`.
use proton_carddav_sync.Base.{
  ◌≡◌, ◌≢◌, refl, sym, ap, subst, ◌∙◌, true, false, none, some, [], String, Bool-cases, inl, inr,
}
use proton_carddav_sync.Base.Result.{wrap, Result, ok, err}
use proton_carddav_sync.Base.Exec
use proton_carddav_sync.Base.Exec.{Exec, pure, lift, attempt, within, ◌>>=◌, ◌>>◌}
use proton_carddav_sync.Base.Exec.Ensures.{Ensures, Ensures-bind, map_err-inv}
use proton_carddav_sync.Cli.Connect.{
  Outside, Machine, connected, stored_session, refresh_handler, connect, open_session,
}
use proton_carddav_sync.Cli.Prompt.{prompt_line}
use proton_carddav_sync.Config.{Config}
use proton_carddav_sync.Config.File.{Viper, Environment}
use proton_carddav_sync.Crypto.{Bytes}
use proton_carddav_sync.Crypto.Laws.{Opens, Reads}
use proton_carddav_sync.Crypto.RandomKey.{new_random_key-cons}
use proton_carddav_sync.Db.{Db, statement}
use proton_carddav_sync.Syncer.{on_db}
use proton_carddav_sync.Db.Open.{open_rows}
use proton_carddav_sync.Protonmail.Cards.{Keyring}
use proton_carddav_sync.Protonmail.Login.{Auth, Session, Online, new_connection}
use proton_carddav_sync.Protonmail.Login.Outside.{login-Keeps}
use proton_carddav_sync.Protonmail.Login.Resume.{
  Granted, login-Granted, login-Unlocked, Leaves, resume-Unlocked,
}
use proton_carddav_sync.Session.{Secrets, Random, is_unset}
use proton_carddav_sync.Session.Store.{
  store_secrets, load_decrypted_credentials, persist, on_refresh,
}
use proton_carddav_sync.Session.RoundTrip.{AllRead}
use proton_carddav_sync.Cli.Init.{
  Answers, Setup, master_key, on_rows, on_online, on_terminal, login_and_store, run_init,
}
use proton_carddav_sync.Cli.Init.Stored.{Holds, Ready, store-Ready, closed-Ready}

module _ (o : Outside) (v : Viper) (env : Environment) (answers : Answers) (opens : Opens o.ciphers)
    (reads : AllRead answers.draws) (u : o.auth.User)
    (same_user : (s : o.api.State) → (o.auth.get_user s).0 ≡ ok u) where
  abbrev IsReady : o.api.State → Bytes → Online o.api.State Db → Type 0
  IsReady = Ready o opens answers.draws reads u same_user

  stored_fine :
      (key : Bytes) (session : Session) (dav : Bytes) (n : Online o.api.State Db)
      (stored : Result (Unit {0}))
      → (attempt
          (on_rows (
            store_secrets o.ciphers answers.draws key session.uid session.refresh_token
              session.key_pass dav))
          n).0
        ≡ ok stored
      → stored ≡ ok tt
      → (store_secrets o.ciphers answers.draws key session.uid session.refresh_token
          session.key_pass dav n.outside).0
        ≡ ok tt
  unfolding attempt on_rows
  stored_fine key session dav n stored gave fine = cc (gave, fine)

  login_and_store-Ready :
      (key : Bytes) (cfg : Config) (pass dav : Bytes) (n : Online o.api.State Db)
      → is_unset key ≡ false
      → n.outside.faults ≡ []
      → Ensures (λ _. IsReady n.server key) (login_and_store o v env answers key cfg pass dav n)
  unfolding login_and_store attempt within
  login_and_store-Ready key cfg pass dav n set sound = Ensures-bind _ _ _ n (λ session logged.
      Ensures-bind _ _ _ _ (λ stored gave.
        closed-Ready o opens answers.draws reads u same_user n.server key stored _ (λ fine.
          store-Ready o opens answers.draws reads u same_user n.server key dav session _ set
            ((login-Keeps (λ db. db.faults ≡ []) o.auth cfg.proton.username pass
                (some (prompt_line "" answers.totp).0)).at
              n sound)
            ((login-Unlocked o.auth u same_user cfg.proton.username pass
                (some (prompt_line "" answers.totp).0) n).at
              session (map_err-inv (wrap "proton login") _ session logged))
            ((login-Granted o.auth cfg.proton.username pass (some (prompt_line "" answers.totp).0)
                n).at
              session (map_err-inv (wrap "proton login") _ session logged))
            (stored_fine key session dav _ stored gave fine))))

  opened-faults :
      (n : Online o.api.State Db)
      → n.outside.faults ≡ []
      → (on_rows open_rows n).1.outside.faults ≡ []
  unfolding on_rows open_rows statement
  opened-faults n sound = rw sound refl

  master_key_set :
      (key : Bytes)
      → Reads answers.new_key
      → master_key o.key answers.new_key ≡ ok key
      → is_unset key ≡ false
  unfolding master_key
  master_key_set key drawn h = elim (Bool-cases (is_unset o.key)) [
    | inl unset ↦
        let (b, bs, e) = new_random_key-cons answers.new_key key drawn (rw unset at h) in rw e refl
    | inr set ↦ cc (set, rw set at h)
  ]

  IsReady-after :
      (server : o.api.State) (key : Bytes) (s : Setup o v env answers)
      → IsReady server key s.online
      → Ensures (λ k (t : Setup o v env answers). IsReady server k t.online) (pure key s)
  unfolding pure
  IsReady-after server key s ready = record {
    at = λ k e. subst (λ x. IsReady server x s.online) (cc e) ready;
  }

  run_init-Ready :
      (cfg_file : String) (s : Setup o v env answers)
      → Reads answers.new_key
      → s.online.outside.faults ≡ []
      → Ensures
          (λ k (t : Setup o v env answers). IsReady s.online.server k t.online)
          (run_init o v env answers cfg_file s)
  unfolding run_init on_terminal on_online lift within on_rows
  run_init-Ready cfg_file s drawn sound =
      let P = λ (k : Bytes) (t : Setup o v env answers). IsReady s.online.server k t.online in
      Ensures-bind P _ _ s (λ key found. Ensures-bind P _ _ _ (λ cfg _. Ensures-bind P _ _ _ (λ _ _.
        Ensures-bind P _ _ _ (λ pass _. Ensures-bind P _ _ _ (λ dav _.
          Ensures-bind P _ _ _ (λ _ stored. IsReady-after s.online.server key _ (
            (login_and_store-Ready key cfg pass dav (on_rows open_rows s.online).1
                (master_key_set key drawn found) (opened-faults s.online sound)).at
              tt stored)))))))

  -- The commands that run later, with their own key and random reader.
  abbrev pub later : Bytes → Random → Outside
  later key random = record o { key = key; random = random }

  persist-fine : (enc : Result Bytes) (db : Db) → (persist o.ciphers enc db).0 ≡ ok tt
  unfolding persist Exec.◌>>=◌
  persist-fine (ok bytes) db = refl
  persist-fine (err e) db = refl

  handler-Leaves :
      (key : Bytes) (random : Random) (creds : Secrets)
      → Leaves o.auth u same_user (refresh_handler (later key random) creds)
  unfolding refresh_handler on_refresh
  handler-Leaves key random creds = record {
    fine = λ token n. persist-fine _ n.outside;
    connection = λ token n. refl;
  }

  open_rows_lem : (db : Db) → db.faults ≡ [] → open_rows db ≡ (ok tt, db)
  unfolding open_rows statement
  open_rows_lem db sound =
      ap (λ fs. statement {A = Unit {0}} (λ d. (ok tt, d)) (record db { faults = fs })) sound
      ∙ ap (λ fs. (ok tt, record db { faults = fs })) (sym sound)

  connected-ok :
      (key : Bytes) (random : Random) (w : Machine o)
      (r : Result (Unit {0}) × Online o.api.State Db) (kr : Keyring)
      → r.0 ≡ ok tt
      → r.1.connection ≡ record { client = true; keyring = some kr }
      → (connected (later key random) w r).0 ≡ ok (some kr)
  connected-ok key random w (ok _, n) kr h c = rw c refl
  connected-ok key random w (err e, n) kr h c = cc h

  connect-Ready :
      (key : Bytes) (random : Random) (creds : Secrets) (kr : Keyring) (auth : Auth) (w : Machine o)
      → (o.auth.new_client_with_refresh creds.session_uid creds.refresh_token w.proton).0 ≡ ok auth
      → o.auth.unlock_keys u creds.key_pass ≡ ok kr
      → (connect (later key random) creds w).0 ≡ ok (some kr)
  unfolding connect
  connect-Ready key random creds kr auth w accepted found =
      let (resumed, connection) =
        resume-Unlocked o.auth u same_user (stored_session creds)
          (refresh_handler (later key random) creds) auth kr
          (record { server = w.proton; connection = new_connection; outside = w.db })
          (handler-Leaves key random creds) accepted found in
      connected-ok key random w _ kr resumed connection

  loaded_then :
      (key : Bytes) (random : Random) (creds : Secrets) (kr : Keyring) (auth : Auth) (w : Machine o)
      → Holds o key creds w.db
      → (o.auth.new_client_with_refresh creds.session_uid creds.refresh_token w.proton).0 ≡ ok auth
      → o.auth.unlock_keys u creds.key_pass ≡ ok kr
      → (open_session (later key random) w).0 ≡ ok (some kr)
  unfolding open_session on_db within Exec.◌>>=◌
  loaded_then key random creds kr auth w (loads, sound) accepted found =
      rw (open_rows_lem w.db sound, loads) (connect-Ready key random creds kr auth _ accepted found)

  -- After `init` returned no error, the other commands resume the session that it logged in. Where they
  -- have its key in the environment and find the database as `init` left it, the secrets that they load
  -- have the UID and the refresh token with which the server answered the login, and the session that
  -- they open has the key ring that the login unlocked. This takes that the database met no fault, that
  -- opening undoes sealing, that the random reader gives as many bytes as it is asked for, that the user
  -- and its keys stay the same, and that the server takes the UID and the refresh token of its answer to
  -- a login.
  pub open_session-run_init :
      (cfg_file : String) (s : Setup o v env answers) (key : Bytes) (random : Random)
      (w : Machine o)
      → Reads answers.new_key
      → s.online.outside.faults ≡ []
      → (run_init o v env answers cfg_file s).0 ≡ ok key
      → w.db ≡ (run_init o v env answers cfg_file s).1.online.outside
      → ((username : String) (password : Bytes) (auth : Auth)
          → (o.auth.new_client_with_login username password s.online.server).0 ≡ ok auth
          → (again : Auth) × ((o.auth.new_client_with_refresh auth.uid auth.refresh_token
                w.proton).0
              ≡ ok again))
      → ((open_session (later key random) w).0
          ≡ ok (run_init o v env answers cfg_file s).1.online.connection.keyring)
        × ((run_init o v env answers cfg_file s).1.online.connection.keyring ≢ none)
        × ((creds : Secrets) × ((load_decrypted_credentials o.ciphers key w.db).0 ≡ ok creds)
            × Granted o.auth s.online.server creds.session_uid creds.refresh_token)
  open_session-run_init cfg_file s key random w drawn sound done same accepts =
      let (creds, kr, holds, found, opened, granted) =
        (run_init-Ready cfg_file s drawn sound).at key done in
      let (username, password, auth, login, same_uid, same_token) = granted in
      let here : Holds o key creds w.db = rw same holds in
      let (again, accepted) = accepts username password auth login in
      let taken : (o.auth.new_client_with_refresh creds.session_uid creds.refresh_token w.proton).0
          ≡ ok again =
        rw (same_uid, same_token) accepted in
      (
        loaded_then key random creds kr again w here taken found ∙ ap ok (sym opened),
        rw opened (λ e. cc e),
        (creds, here.0, granted),
      )
