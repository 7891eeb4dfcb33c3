-- ===== src/Cli/Init.antt =====
-- internal/cli/init.go: the command `init`.
pub mod Stored
pub mod Resumes
use proton_carddav_sync.Base.{
  ◌==◌, string_eq, String, Bool, true, false, Option, none, some, List, [], ◌∷◌, if◌then◌else◌,
}
use proton_carddav_sync.Base.Result.{
  Error, cancelled, no_rows, failure, wrap, wrap_at, Result, ok, err,
}
use proton_carddav_sync.Base.Exec.{Exec, pure, fail, lift, attempt, within, ◌>>=◌, ◌>>◌}
use proton_carddav_sync.Cli.Connect.{Outside}
use proton_carddav_sync.Cli.Prompt.{Stdin, prompt_line, gather_config}
use proton_carddav_sync.Config.{Config}
use proton_carddav_sync.Config.File.{Viper, Environment, load, save}
use proton_carddav_sync.Config.Paths.{resolve_path}
use proton_carddav_sync.Crypto.{Bytes}
use proton_carddav_sync.Crypto.RandomKey.{new_random_key}
use proton_carddav_sync.Db.{Db}
use proton_carddav_sync.Db.Open.{open_rows}
use proton_carddav_sync.Protonmail.Login.{Session, Online, login_with_password, close}
use proton_carddav_sync.Session.{Random, Draws, is_unset}
use proton_carddav_sync.Session.Store.{store_secrets}

-- `errors.Is(err, config.ErrConfigNotFound)`
unfoldable pub is_config_not_found : Error → Bool
is_config_not_found cancelled = false
is_config_not_found no_rows = false
is_config_not_found (failure m) = m == "config file not found"
is_config_not_found (wrap m e) = is_config_not_found e
is_config_not_found (wrap_at m a e) = is_config_not_found e

module _ (v : Viper) (env : Environment) where
  -- The configuration files and the standard input.
  pub record Terminal : Type 0 where
    pub files : v.Files
    pub stdin : Stdin

  unfoldable pub on_files : {A : Type 0} → Exec v.Files A → Exec Terminal A
  on_files op t = let (r, f) = op t.files in (r, record t { files = f })

  unfoldable pub on_stdin : {A : Type 0} → Exec Stdin A → Exec Terminal A
  on_stdin op t = let (r, i) = op t.stdin in (r, record t { stdin = i })

  -- The rest of `loadOrCreateConfig`, after the first load.
  unfoldable pub create_config : String → Exec Terminal Config
  create_config cfg_file = do
    gathered ← on_stdin gather_config
    on_files (save v env gathered (resolve_path env.home cfg_file))
    within (wrap "reload config") (on_files (load v env cfg_file))

  abbrev pub or_new_config : String → Result Config → Exec Terminal Config
  or_new_config cfg_file (ok cfg) = pure cfg
  or_new_config cfg_file (err e) =
      if is_config_not_found e then create_config cfg_file else fail (wrap "load config" e)

  -- `loadOrCreateConfig`
  unfoldable pub load_or_create_config : String → Exec Terminal Config
  load_or_create_config cfg_file = do
    loaded ← attempt (on_files (load v env cfg_file))
    or_new_config cfg_file loaded

-- What `init` takes from its user and from the random reader: what `promptSecret` gives for the two
-- passwords, what a new reader of the standard input has for the TOTP code, and the draws.
pub record Answers : Type 0 where
  pub proton_pass : Result Bytes
  pub carddav_pass : Result Bytes
  pub totp : Stdin
  pub new_key : Random
  pub draws : Draws

-- The key of the environment, or a new one.
unfoldable pub master_key : Bytes → Random → Result Bytes
master_key key random = if is_unset key then new_random_key random else ok key

unfoldable pub on_rows : {S A : Type 0} → Exec Db A → Exec (Online S Db) A
on_rows op n = let (r, db) = op n.outside in (r, record n { outside = db })

module _ (o : Outside) (v : Viper) (env : Environment) (answers : Answers) where
  -- The terminal; and the server, the client and the database.
  pub record Setup : Type 0 where
    pub terminal : Terminal v env
    pub online : Online o.api.State Db

  unfoldable pub on_terminal : {A : Type 0} → Exec (Terminal v env) A → Exec Setup A
  on_terminal op s = let (r, t) = op s.terminal in (r, record s { terminal = t })

  unfoldable pub on_online : {A : Type 0} → Exec (Online o.api.State Db) A → Exec Setup A
  on_online op s = let (r, n) = op s.online in (r, record s { online = n })

  -- From the login on: the secrets of the session get into the database.
  unfoldable pub login_and_store :
      (key : Bytes)
      → Config
      → (proton_pass carddav_pass : Bytes) → Exec (Online o.api.State Db) (Unit {0})
  login_and_store key cfg proton_pass carddav_pass = do
    session ← within (wrap "proton login") (
        login_with_password o.auth cfg.proton.username proton_pass
          (some (prompt_line "" answers.totp).0))
    stored ← attempt (
        on_rows (
          store_secrets o.ciphers answers.draws key session.uid session.refresh_token
            session.key_pass carddav_pass))
    close o.auth
    lift stored

  -- `runInit`; `o.key` is the key of the environment. It returns the key that the secrets are sealed
  -- with, which it prints where it is a new one.
  unfoldable pub run_init : (cfg_file : String) → Exec Setup Bytes
  run_init cfg_file = do
    key ← lift (master_key o.key answers.new_key)
    cfg ← on_terminal (load_or_create_config v env cfg_file)
    on_online (within (wrap "open database") (on_rows open_rows))
    proton_pass ← lift answers.proton_pass
    carddav_pass ← lift answers.carddav_pass
    on_online (login_and_store key cfg proton_pass carddav_pass)
    pure key
