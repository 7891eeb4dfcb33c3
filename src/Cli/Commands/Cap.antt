-- ===== src/Cli/Commands/Cap.antt =====
-- The cap on new Proton contacts, for a run of the command `sync`.
use proton_carddav_sync.Base.{ℕ, ◌+◌, ◌≤◌, ◌<◌, Option, arith}
use proton_carddav_sync.Base.Int.{pos_part}
use proton_carddav_sync.Base.Result.{Result, ok, err, wrap}
use proton_carddav_sync.Base.Exec.{Exec, within}
use proton_carddav_sync.Base.Exec.Keeps.{
  Keeps, keeps_rules, Keeps-bind, Keeps-then, Keeps-within, Keeps-lift, after_bind,
}
use proton_carddav_sync.Cli.Commands.{run_sync_with_config}
use proton_carddav_sync.Cli.Connect.{
  Outside, Machine, stored_session, refresh_handler, connect, connected, disconnected, open_session,
  with_syncer, built_syncer,
}
use proton_carddav_sync.Config.{Config}
use proton_carddav_sync.Crypto.{Bytes}
use proton_carddav_sync.Db.{Db}
use proton_carddav_sync.Protonmail.Cards.{Keyring}
use proton_carddav_sync.Protonmail.Client.Count.{ApiCounts}
use proton_carddav_sync.Carddav.Client.{Client, new}
use proton_carddav_sync.Protonmail.Login.{Online, call, set_client, set_keyring, resume_session}
use proton_carddav_sync.Session.{Secrets}
use proton_carddav_sync.Syncer.{on_carddav}
use proton_carddav_sync.Syncer.Frame.{ProtonHas, proton_frame}
use proton_carddav_sync.Syncer.Sync.{sync}
use proton_carddav_sync.Syncer.Sync.Cap.{sync_cap}

-- Resuming a session does not add contacts.
pub record AuthCounts (o : Outside) (count : o.api.State → ℕ) : Type 0 where
  pub refresh :
      (uid token : Bytes) (p : o.api.State)
      → count (o.auth.new_client_with_refresh uid token p).1 ≤ count p
  pub user : (p : o.api.State) → count (o.auth.get_user p).1 ≤ count p

module _ (o : Outside) (count : o.api.State → ℕ) (n : ℕ) where
  record ServerHas (online : Online o.api.State Db) : Type 0 where
    le : count online.server ≤ n

  call-ServerHas :
      {A : Type 0} (op : Exec o.api.State A)
      → ((p : o.api.State) → count (op p).1 ≤ count p)
      → Keeps ServerHas (call op)
  unfolding call
  call-ServerHas op le = record { at = λ w h. record { le = omega (arith, h.le, le w.server) } }

  resume-ServerHas :
      (creds : Secrets)
      → AuthCounts o count
      → Keeps ServerHas (resume_session o.auth (stored_session creds) (refresh_handler o creds))
  unfolding resume_session set_client set_keyring refresh_handler
  resume-ServerHas creds counts =
      Keeps-bind _ _ (Keeps-within _ _ (call-ServerHas _ (counts.refresh _ _))) (λ auth.
        Keeps-then _ _ (record { at = λ w h. record { le = h.le } })
          (Keeps-then _ _ (record { at = λ w h. record { le = h.le } })
            (Keeps-bind _ _ (Keeps-within _ _ (call-ServerHas _ counts.user)) (λ user.
              Keeps-bind _ _ (Keeps-lift _) (λ kr. record { at = λ w h. record { le = h.le } })))))

  AtMost : Machine o → Type 0
  AtMost = ProtonHas (λ p. count p ≤ n)

  connected-AtMost :
      (w : Machine o) (r : Result (Unit {0}) × Online o.api.State Db)
      → count r.1.server ≤ n
      → AtMost (connected o w r).1
  unfolding AtMost
  connected-AtMost w (ok _, online) le = record { holds = le }
  connected-AtMost w (err e, online) le = record { holds = le }

  connect-AtMost : (creds : Secrets) → AuthCounts o count → Keeps AtMost (connect o creds)
  unfolding connect AtMost
  connect-AtMost creds counts = record {
    at = λ w h.
        connected-AtMost w _
          ((resume-ServerHas creds counts).at (disconnected o w) (record { le = h.holds })).le;
  }

  open_session-AtMost : AuthCounts o count → Keeps AtMost (open_session o)
  unfolding open_session AtMost
  open_session-AtMost counts =
      Keeps-then _ _ (search (keeps_rules, proton_frame))
        (Keeps-bind _ _ (search (keeps_rules, proton_frame)) (λ creds. connect-AtMost creds counts))

wider :
    (o : Outside) (count : o.api.State → ℕ) (n more : ℕ) (w : Machine o)
    → AtMost o count n w
    → AtMost o count (n + more) w
unfolding AtMost
wider o count n more w h = record { holds = omega (arith, h.holds) }

new-AtMost :
    (o : Outside) (count : o.api.State → ℕ) (n : ℕ)
    → Keeps
        (AtMost o count n)
        (within (wrap "create carddav client") (on_carddav (new o.lib.codec o.dav)))
unfolding AtMost
new-AtMost o count n = search (keeps_rules, proton_frame)

run-le :
    (o : Outside) (cfg : Config) (session : Option Keyring) (book : Client)
    (count : o.api.State → ℕ) (n : ℕ) (w : Machine o)
    → ApiCounts o.api count
    → 0 < pos_part cfg.sync.max_new_proton_contacts_per_run
    → AtMost o count n w
    → AtMost o count
        (n + pos_part cfg.sync.max_new_proton_contacts_per_run)
        (within (wrap "sync") (sync (built_syncer o cfg session book)) w).1
unfolding AtMost within
run-le o cfg session book count n w counts pos h = record {
  holds =
      omega (
        arith,
        h.holds,
        sync_cap (built_syncer o cfg session book) o.api session count counts pos w,
      );
}

-- Where the configuration sets a cap, a run of the command `sync`, or a pass of the daemon, leaves at
-- most that many contacts more in the account than it found, however the database, CardDAV, the login
-- and the context behave. This takes that the calls of the API that read, update and resume a session do
-- not raise the number of contacts, that a request to create raises it by the items that its answer
-- accepts at most, and that an answer has no more items than the request.
pub run_sync_cap :
    (o : Outside) (cfg : Config) (count : o.api.State → ℕ)
    → ApiCounts o.api count
    → AuthCounts o count
    → 0 < pos_part cfg.sync.max_new_proton_contacts_per_run
    → (w : Machine o)
    → count (run_sync_with_config o cfg w).1.proton
      ≤ count w.proton + pos_part cfg.sync.max_new_proton_contacts_per_run
unfolding run_sync_with_config with_syncer AtMost
run_sync_cap o cfg count counts auth pos w =
    let cap = pos_part cfg.sync.max_new_proton_contacts_per_run in
    let opened =
      (open_session-AtMost o count (count w.proton) auth).at w (record { holds = omega arith }) in
    let booked = (new-AtMost o count (count w.proton)).at _ opened in
    (after_bind (AtMost o count (count w.proton + cap)) _ _ w (wider o count _ cap _ opened)
      (λ session _.
        after_bind (AtMost o count (count w.proton + cap)) _ _ _ (wider o count _ cap _ booked)
          (λ book _. run-le o cfg session book count _ _ counts pos booked))).holds
