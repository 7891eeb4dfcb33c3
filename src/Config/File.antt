-- ===== src/Config/File.antt =====
-- internal/config/config.go, Load and Save. The configuration library, github.com/spf13/viper, and the
-- file system are parameters.
use proton_carddav_sync.Base.{String, ◌<>◌, Option, List, [], ◌∷◌, ◌==◌, string_eq, if◌then◌else◌}
use proton_carddav_sync.Base.FilePath.{dir}
use proton_carddav_sync.Base.Result.{Error, failure, wrap, wrap_at, Result, map_err}
use proton_carddav_sync.Base.Exec.{Exec, pure, fail, lift, within, ◌>>=◌, ◌>>◌}
use proton_carddav_sync.Config.{Config, Value, text, defaults, settings_of, validate}
use proton_carddav_sync.Config.Paths.{expand_home}

-- What `ReadInConfig` finds.
pub data Reading (Store : Type 0) : Type 0 where
  loaded : Store → Reading Store
  -- `ConfigFileNotFoundError`, or an error that is `os.ErrNotExist`
  missing : Reading Store
  -- the file that was used, and the error
  unreadable : String → Error → Reading Store

-- A `viper.Viper` and the files, with the calls of them.
pub record Viper : Type 1 where
  pub Store : Type 0
  pub Files : Type 0
  pub new : Store
  pub set_default : String → Value → Store → Store
  pub set : String → Value → Store → Store
  pub set_config_file : String → Store → Store
  -- `SetConfigName`, `SetConfigType` and `AddConfigPath` for each path
  pub search_for : (name type : String) (paths : List String) → Store → Store
  pub read_in_config : Store → Files → Reading Store
  pub unmarshal : Store → Result Config
  pub write_config_as : String → Store → Exec Files (Unit {0})
  -- `os.MkdirAll`
  pub mkdir_all : String → Exec Files (Unit {0})

-- `ErrConfigNotFound`
abbrev pub config_not_found : Error
config_not_found = failure "config file not found"

-- `os.Getenv("PCS_PROTON_APP_VERSION")`, and what `os.UserHomeDir` gives.
pub record Environment : Type 0 where
  pub home : Option String
  pub app_version : String

unfoldable pub set_all_defaults : (v : Viper) → List (String × Value) → v.Store → v.Store
set_all_defaults v [] s = s
set_all_defaults v ((k, x) ∷ kvs) s = set_all_defaults v kvs (v.set_default k x s)

unfoldable pub set_all : (v : Viper) → List (String × Value) → v.Store → v.Store
set_all v [] s = s
set_all v ((k, x) ∷ kvs) s = set_all v kvs (v.set k x s)

module _ (v : Viper) (env : Environment) where
  -- `setDefaults`
  abbrev pub set_defaults : v.Store → v.Store
  set_defaults = set_all_defaults v defaults

  -- Where `Load` looks.
  unfoldable pub locate : String → v.Store → v.Store
  locate cfg_file s =
      if cfg_file == ""
      then v.search_for "config" "yaml" ("$HOME/.config/proton-carddav-sync" ∷ "." ∷ []) s
      else v.set_config_file (expand_home env.home cfg_file) s

  abbrev pub looked_in : String → String
  looked_in cfg_file =
      if cfg_file == ""
      then "$HOME/.config/proton-carddav-sync/config.yaml or ./config.yaml"
      else cfg_file

  -- The override by the environment.
  unfoldable pub override : v.Store → v.Store
  override s =
      if env.app_version == "" then s else v.set "proton.app_version" (text env.app_version) s

  abbrev pub with_path : Config → Config
  with_path cfg = record cfg { database_path = expand_home env.home cfg.database_path }

  -- `Load`, once the file is read
  unfoldable pub load_read : v.Store → Exec v.Files Config
  load_read s = do
    cfg ← lift (map_err (wrap "unmarshal config") (v.unmarshal (override s)))
    _ ← lift (map_err (wrap "invalid config") (validate cfg))
    within (wrap_at "create database directory" (dir (with_path cfg).database_path))
        (v.mkdir_all (dir (with_path cfg).database_path))
    pure (with_path cfg)

  abbrev pub after_reading : String → Reading v.Store → Exec v.Files Config
  after_reading cfg_file missing = fail (
      wrap
        ("no config file found at "
          <> looked_in cfg_file
          <> " — run 'proton-carddav-sync init' to create it (or pass --config <path>)")
        config_not_found)
  after_reading cfg_file (unreadable used e) = fail (wrap_at "read config" used e)
  after_reading cfg_file (loaded s) = load_read s

  -- `Load`
  unfoldable pub load : String → Exec v.Files Config
  load cfg_file files =
      after_reading cfg_file (v.read_in_config (locate cfg_file (set_defaults v.new)) files) files

  -- `Save`
  unfoldable pub save : Config → String → Exec v.Files (Unit {0})
  save cfg path = do
    within (wrap "create config directory") (v.mkdir_all (dir (expand_home env.home path)))
    within (wrap_at "write config" (expand_home env.home path))
        (v.write_config_as (expand_home env.home path) (set_all v (settings_of cfg) v.new))
