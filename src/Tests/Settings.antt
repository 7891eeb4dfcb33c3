-- ===== src/Tests/Settings.antt =====
-- A small configuration library, and a configuration that is saved and loaded with it.
use mathlib.Core.Option.{or_else}
use proton_carddav_sync.Base.{String, Option, none, some, [], ◌++◌, string_eq}
use proton_carddav_sync.Base.Dict.{Dict, lookup, insert}
use proton_carddav_sync.Base.Exec
use proton_carddav_sync.Base.Int.{ℤ, pos}
use proton_carddav_sync.Base.Result.{ok}
use proton_carddav_sync.Config.{Config, Value, text, number}
use proton_carddav_sync.Config.File.{Viper, Environment, Reading, loaded, missing}
use proton_carddav_sync.Config.Paths.{default_config_path}

abbrev pub Settings : Type 0
Settings = Dict String Value

abbrev pub Disk : Type 0
Disk = Dict String Settings

pub record Store : Type 0 where
  pub default_values : Settings
  pub own : Settings
  pub file : String

abbrev setting_of : Store → String → Option Value
setting_of s k = or_else (lookup k s.own) (lookup k s.default_values)

abbrev text_of : Option Value → String
text_of none = ""
text_of (some (text s)) = s
text_of (some (number n)) = ""

abbrev number_of : Option Value → ℤ
number_of none = pos 0
number_of (some (text s)) = pos 0
number_of (some (number n)) = n

abbrev filled : (String → Option Value) → Config
filled f = record {
  proton = record {
    username = text_of (f "proton.username");
    app_version = text_of (f "proton.app_version");
  };
  carddav = record { url = text_of (f "carddav.url"); username = text_of (f "carddav.username") };
  database_path = text_of (f "database.path");
  log = record { level = text_of (f "log.level"); format = text_of (f "log.format") };
  sync = record {
    direction = text_of (f "sync.direction");
    conflict = text_of (f "sync.conflict");
    interval_seconds = number_of (f "sync.interval_seconds");
    proton_max_requests_per_minute = number_of (f "sync.proton_max_requests_per_minute");
    max_new_proton_contacts_per_run = number_of (f "sync.max_new_proton_contacts_per_run");
  };
}

abbrev read_at : Store → Option Settings → Reading Store
read_at s none = missing
read_at s (some kvs) = loaded (record s { own = kvs })

-- `AllSettings`
abbrev pub all_settings : Store → Settings
all_settings s = s.own ++ s.default_values

abbrev pub home_file : String
home_file = default_config_path (some "/home/ann")

abbrev pub empty_store : Store
empty_store = record { default_values = []; own = []; file = "" }

abbrev pub small_viper : Viper
small_viper = record {
  Store = Store;
  Files = Disk;
  new = empty_store;
  set_default = λ k x s. record s { default_values = insert k x s.default_values };
  set = λ k x s. record s { own = insert k x s.own };
  set_config_file = λ path s. record s { file = path };
  search_for = λ name type paths s. record s { file = home_file };
  read_in_config = λ s d. read_at s (lookup s.file d);
  unmarshal = λ s. ok (filled (setting_of s));
  write_config_as = λ path s d. (ok tt, insert path (all_settings s) d);
  mkdir_all = λ path d. (ok tt, d);
}

abbrev pub home_env : Environment
home_env = record { home = some "/home/ann"; app_version = "" }

abbrev pub ann_config : Config
ann_config = record {
  proton = record { username = "ann@proton.me"; app_version = "Other" };
  carddav = record { url = "https://dav"; username = "ann" };
  database_path = "~/sync.db";
  log = record { level = "info"; format = "text" };
  sync = record {
    direction = "both";
    conflict = "prefer-newer";
    interval_seconds = pos 300;
    proton_max_requests_per_minute = pos 60;
    max_new_proton_contacts_per_run = pos 0;
  };
}
