-- ===== src/Tests/Init.antt =====
-- An `init` that makes a key, and a command that comes after it.
use proton_carddav_sync.Base.{◌≡◌, ◌≢◌, refl, false, none, [], ◌∷◌, nat_eq}
use proton_carddav_sync.Base.Exec
use proton_carddav_sync.Base.Result.{ok}
use proton_carddav_sync.Cli.Connect.{Machine, open_session}
use proton_carddav_sync.Cli.Init.{
  Answers, Setup, run_init, master_key, on_terminal, load_or_create_config, on_files, on_online,
  on_rows, login_and_store,
}
use proton_carddav_sync.Cli.Init.Resumes.{later, open_session-run_init}
use proton_carddav_sync.Config.{validate}
use proton_carddav_sync.Config.File.{Viper, loaded, load, load_read}
use proton_carddav_sync.Cli.Prompt.{prompt_line, answer_or}
use proton_carddav_sync.Crypto.{Bytes, derive_key, derive_key_with_salt, encrypt}
use proton_carddav_sync.Db.{statement}
use proton_carddav_sync.Db.Open.{open_rows}
use proton_carddav_sync.Db.Secrets.{save_credentials}
use proton_carddav_sync.Session.{Secrets, seal_secrets}
use proton_carddav_sync.Protonmail.Login.Resume.{Granted}
use proton_carddav_sync.Session.Store.{store_secrets, load_decrypted_credentials}
use proton_carddav_sync.Base.Text.{is_blank}
use proton_carddav_sync.Crypto.RandomKey.{encode_base64, new_random_key}
use proton_carddav_sync.Protonmail.Login.{
  new_connection, login_with_password, call, set_client, second_factor, unlock, set_keyring, close,
}
use proton_carddav_sync.Tests.Fixtures.{empty_db}
use proton_carddav_sync.Tests.Machine.{small_outside, small_machine, small_auth, signed_in}
use proton_carddav_sync.Tests.Secrets.{
  zeros, small_ciphers, small_ciphers-Opens, small_random, small_random-Reads, small_draws,
  small_draws-AllRead,
}
use proton_carddav_sync.Tests.Settings.{home_env, ann_config}

-- The file is there, and never changes.
abbrev fixed_viper : Viper
fixed_viper = record {
  Store = Unit {0};
  Files = Unit {0};
  new = tt;
  set_default = λ k x s. tt;
  set = λ k x s. tt;
  set_config_file = λ path s. tt;
  search_for = λ name type paths s. tt;
  read_in_config = λ s f. loaded tt;
  unmarshal = λ s. ok ann_config;
  write_config_as = λ path s f. (ok tt, tt);
  mkdir_all = λ path f. (ok tt, tt);
}

abbrev ann_answers : Answers
ann_answers = record {
  proton_pass = ok (3 ∷ []);
  carddav_pass = ok (4 ∷ []);
  totp = record { lines = "123456" ∷ []; last = ""; broken = false };
  new_key = small_random;
  draws = small_draws;
}

abbrev ann_setup : Setup small_outside fixed_viper home_env ann_answers
ann_setup = record {
  terminal = record { files = tt; stdin = record { lines = []; last = ""; broken = false } };
  online = record { server = []; connection = new_connection; outside = empty_db };
}

abbrev ann_key : Bytes
ann_key = encode_base64 (zeros 32)

init_gives : (run_init small_outside fixed_viper home_env ann_answers "" ann_setup).0 ≡ ok ann_key
unfolding run_init Exec.◌>>=◌ master_key new_random_key on_terminal load_or_create_config on_files
    load load_read validate is_blank nat_eq on_online on_rows open_rows statement login_and_store
    login_with_password call set_client second_factor unlock set_keyring prompt_line answer_or
    store_secrets seal_secrets derive_key derive_key_with_salt encrypt save_credentials close
init_gives = refl

abbrev after_init : Machine small_outside
after_init = record small_machine {
  db = (run_init small_outside fixed_viper home_env ann_answers "" ann_setup).1.online.outside;
}

open_session-run_init_example :
    ((open_session
        (later small_outside fixed_viper home_env ann_answers small_ciphers-Opens
          small_draws-AllRead "ann"
          (λ s. refl)
          ann_key
          small_random)
        after_init).0
      ≡ ok
          (run_init small_outside fixed_viper home_env ann_answers ""
            ann_setup).1.online.connection.keyring)
    × ((run_init small_outside fixed_viper home_env ann_answers ""
          ann_setup).1.online.connection.keyring
        ≢ none)
    × ((creds : Secrets) × ((load_decrypted_credentials small_ciphers ann_key after_init.db).0
          ≡ ok creds)
        × Granted small_auth [] creds.session_uid creds.refresh_token)
open_session-run_init_example =
    open_session-run_init small_outside fixed_viper home_env ann_answers small_ciphers-Opens
      small_draws-AllRead "ann" (λ s. refl) "" ann_setup ann_key small_random after_init
      small_random-Reads refl init_gives refl (λ username password auth login. (signed_in, refl))
