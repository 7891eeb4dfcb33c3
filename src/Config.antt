-- ===== src/Config.antt =====
-- internal/config/config.go: the settings, their defaults and their validation.
pub mod Paths
pub mod File
pub mod Settings
pub mod RoundTrip
use proton_carddav_sync.Base.{
  String, Bool, true, false, List, [], ◌∷◌, ◌==◌, string_eq, if◌then◌else◌,
}
use proton_carddav_sync.Base.Int.{ℤ, pos}
use proton_carddav_sync.Base.Result.{Error, failure, Result, ok, err}
use proton_carddav_sync.Base.Text.{is_blank}

pub record ProtonConfig : Type 0 where
  pub username : String
  pub app_version : String

pub record CarddavConfig : Type 0 where
  pub url : String
  pub username : String

pub record SyncConfig : Type 0 where
  pub direction : String
  pub conflict : String
  pub interval_seconds : ℤ
  pub proton_max_requests_per_minute : ℤ
  pub max_new_proton_contacts_per_run : ℤ

pub record LogConfig : Type 0 where
  pub level : String
  pub format : String

-- `Config`; its `Database` has the one field `Path`.
pub record Config : Type 0 where
  pub proton : ProtonConfig
  pub carddav : CarddavConfig
  pub database_path : String
  pub log : LogConfig
  pub sync : SyncConfig

abbrev pub default_proton_app_version : String
default_proton_app_version = "Other"

abbrev pub default_proton_max_requests_per_minute : ℤ
default_proton_max_requests_per_minute = pos 60

abbrev pub default_max_new_proton_contacts_per_run : ℤ
default_max_new_proton_contacts_per_run = pos 0

abbrev pub missing_proton_username : Error
missing_proton_username = failure "proton username is required"

abbrev pub missing_carddav_url : Error
missing_carddav_url = failure "carddav server URL is required"

abbrev pub missing_carddav_username : Error
missing_carddav_username = failure "carddav username is required"

-- A value of a setting.
pub data Value : Type 0 where
  text : String → Value
  number : ℤ → Value

-- What `setDefaults` sets.
abbrev pub defaults : List (String × Value)
defaults =
    ("proton.app_version", text default_proton_app_version)
    ∷ ("sync.interval_seconds", number (pos 300))
    ∷ ("sync.direction", text "both")
    ∷ ("sync.conflict", text "prefer-newer")
    ∷ ("sync.proton_max_requests_per_minute", number default_proton_max_requests_per_minute)
    ∷ ("sync.max_new_proton_contacts_per_run", number default_max_new_proton_contacts_per_run)
    ∷ ("database.path", text "~/.local/share/proton-carddav-sync/sync.db")
    ∷ ("log.level", text "info")
    ∷ ("log.format", text "text")
    ∷ []

-- What `Save` sets, which is every setting.
abbrev pub settings_of : Config → List (String × Value)
settings_of cfg =
    ("proton.username", text cfg.proton.username)
    ∷ ("proton.app_version", text cfg.proton.app_version)
    ∷ ("carddav.url", text cfg.carddav.url)
    ∷ ("carddav.username", text cfg.carddav.username)
    ∷ ("sync.direction", text cfg.sync.direction)
    ∷ ("sync.conflict", text cfg.sync.conflict)
    ∷ ("sync.interval_seconds", number cfg.sync.interval_seconds)
    ∷ ("sync.proton_max_requests_per_minute", number cfg.sync.proton_max_requests_per_minute)
    ∷ ("sync.max_new_proton_contacts_per_run", number cfg.sync.max_new_proton_contacts_per_run)
    ∷ ("database.path", text cfg.database_path)
    ∷ ("log.level", text cfg.log.level)
    ∷ ("log.format", text cfg.log.format)
    ∷ []

-- `validate`
unfoldable pub validate : Config → Result (Unit {0})
validate cfg =
    if is_blank cfg.proton.username
    then err missing_proton_username
    else if is_blank cfg.carddav.url
    then err missing_carddav_url
    else if is_blank cfg.carddav.username
    then err missing_carddav_username
    else ok tt
