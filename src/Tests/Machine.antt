-- ===== src/Tests/Machine.antt =====
-- A small Proton account with a login, and the machine around it.
use proton_carddav_sync.Base.{length, ◌+◌, ◌≤◌, arith, ℕ, String, none, some, ◌≡◌, [], ◌∷◌, nat_eq}
use proton_carddav_sync.Base.Result.{failure, Result, ok, err}
use proton_carddav_sync.Base.Exec.Fails.{Fails}
use proton_carddav_sync.Syncer.Sync.{sync}
use proton_carddav_sync.Db.{Credentials}
use proton_carddav_sync.Session.{open_secrets, open_with, decrypt_field}
use proton_carddav_sync.Crypto.{derive_key_with_salt, decrypt}
use proton_carddav_sync.Cli.Connect.Locked.{IsLocked, Untouched, with_syncer_locked}
use proton_carddav_sync.Cli.Connect.{Outside, Machine, with_syncer}
use proton_carddav_sync.Cli.Commands.{run_sync_with_config}
use proton_carddav_sync.Cli.Commands.Cap.{AuthCounts, run_sync_cap}
use proton_carddav_sync.Config.{Config}
use proton_carddav_sync.Base.Int.{pos}
use proton_carddav_sync.Tests.Settings.{ann_config}
use proton_carddav_sync.Crypto.{Bytes}
use proton_carddav_sync.Protonmail.Cards.{Keyring}
use proton_carddav_sync.Protonmail.Login.{Auth, AuthApi}
use proton_carddav_sync.Tests.Account.{length-ApiCounts, Stored, small_api, small_ring}
use proton_carddav_sync.Tests.AddressBook.{small_dav, shelf}
use proton_carddav_sync.Tests.Fixtures.{small_syncer, empty_db}
use proton_carddav_sync.Tests.Secrets.{small_ciphers, small_random}

abbrev pub signed_in : Auth
signed_in = record { uid = 1 ∷ []; refresh_token = 2 ∷ []; two_fa = 1 }

abbrev opened_by : Bytes → Result Keyring
opened_by [] = err (failure "no password")
opened_by (b ∷ bs) = ok small_ring

-- The key password of an account is its password; a login wants a code, and every refresh token is
-- taken.
abbrev pub small_auth : AuthApi Stored
small_auth = record {
  User = String;
  Salts = ℕ;
  new_client_with_login = λ name password a. (ok signed_in, a);
  new_client_with_refresh = λ uid token a. (ok signed_in, a);
  api_code = λ e. none;
  auth_2fa = λ code a. (ok tt, a);
  get_user = λ a. (ok "ann", a);
  get_salts = λ a. (ok 0, a);
  salt_for_key = λ salts password user. ok password;
  unlock_keys = λ user key_pass. opened_by key_pass;
  auth_delete = λ a. (ok tt, a);
}

abbrev pub small_outside : Outside
small_outside = record {
  lib = small_syncer.lib;
  ciphers = small_ciphers;
  api = small_api;
  auth = small_auth;
  dav = small_dav;
  key = [];
  random = small_random;
}

abbrev pub small_machine : Machine small_outside
small_machine = record { proton = []; carddav = shelf; db = empty_db; cancels = [] }

abbrev capped_config : Config
capped_config = record ann_config {
  sync = record ann_config.sync { max_new_proton_contacts_per_run = pos 1 };
}

small_auth-AuthCounts : AuthCounts small_outside length
small_auth-AuthCounts = record { refresh = λ uid token a. omega arith; user = λ a. omega arith }

run_sync_cap_example :
    length (run_sync_with_config small_outside capped_config small_machine).1.proton
    ≤ length small_machine.proton + 1
run_sync_cap_example =
    run_sync_cap small_outside capped_config length length-ApiCounts small_auth-AuthCounts
      (omega arith) small_machine

-- Secrets that are no ciphertexts.
abbrev broken_credentials : Credentials
broken_credentials = record {
  salt = [];
  proton_uid_enc = [];
  proton_refresh_enc = [];
  proton_keypass_enc = [];
  carddav_password_enc = [];
}

abbrev locked_outside : Outside
locked_outside = record small_outside { key = 7 ∷ [] }

abbrev locked_machine : Machine locked_outside
locked_machine = record small_machine {
  db = record empty_db { credentials = some broken_credentials };
}

machine-IsLocked : IsLocked locked_outside.ciphers locked_outside.key locked_machine.db.credentials
unfolding open_secrets open_with decrypt_field decrypt derive_key_with_salt nat_eq
machine-IsLocked creds secrets e h =
    let known : creds ≡ broken_credentials = cc e in cc (rw known at h)

with_syncer_locked_example :
    Fails (Untouched locked_machine) (with_syncer locked_outside capped_config sync locked_machine)
with_syncer_locked_example =
    with_syncer_locked locked_outside capped_config sync locked_machine machine-IsLocked
