-- ===== src/Config/Settings.antt =====
-- What viper, the configuration library of internal/config/config.go, does by its documentation, and
-- what the settings then are.
use mathlib.Core.Option.{or_else}
use proton_carddav_sync.Base.{
  ◌≡◌, refl, ap, String, Option, some, List, [], ◌∷◌, ◌==◌, string_eq, Bool-cases, inl, inr, arith,
  if◌then◌else◌,
}
use proton_carddav_sync.Base.Dict.{lookup, NodupKeys, lookup-nil, lookup-cons}
use proton_carddav_sync.Base.Result.{ok}
use proton_carddav_sync.Config.{Config, Value, text, settings_of}
use proton_carddav_sync.Config.File.{
  Viper, Environment, loaded, set_all_defaults, set_all, override,
}
use proton_carddav_sync.Config.Paths.{expand_home, default_config_path}

-- Every key has its value.
abbrev pub Holds : (String → Option Value) → List (String × Value) → Type 0
Holds setting [] = Unit
Holds setting ((k, x) ∷ kvs) = (setting k ≡ some x) × Holds setting kvs

-- The documented behaviour of viper: `Set` overrides, `Unmarshal` fills a struct from the settings, and
-- what `WriteConfigAs` wrote is what a store that has only defaults reads from that file, also where it
-- searches for it in the home directory.
pub record Documented (v : Viper) (env : Environment) : Type 0 where
  pub setting : v.Store → String → Option Value
  pub setting-set :
      (j k : String) (x : Value) (s : v.Store)
      → setting (v.set k x s) j ≡ (if j == k then some x else setting s j)
  pub unmarshals :
      (s : v.Store) (cfg : Config) → Holds (setting s) (settings_of cfg) → v.unmarshal s ≡ ok cfg
  pub reads :
      (path : String) (kvs : List (String × Value)) (s : v.Store) (f : v.Files)
      → (v.write_config_as path s f).0 ≡ ok tt
      → (u : v.Store) × (v.read_in_config
            (v.set_config_file path (set_all_defaults v kvs v.new))
            (v.write_config_as path s f).1
          ≡ loaded u)
        × ((k : String) (x : Value) → setting s k ≡ some x → setting u k ≡ some x)
  pub finds :
      (home : String) (kvs : List (String × Value)) (s : v.Store) (f : v.Files)
      → env.home ≡ some home
      → (v.write_config_as (default_config_path (some home)) s f).0 ≡ ok tt
      → (u : v.Store) × (v.read_in_config
            (v.search_for "config" "yaml"
              ("$HOME/.config/proton-carddav-sync" ∷ "." ∷ [])
              (set_all_defaults v kvs v.new))
            (v.write_config_as (default_config_path (some home)) s f).1
          ≡ loaded u)
        × ((k : String) (x : Value) → setting s k ≡ some x → setting u k ≡ some x)

-- The settings as they are loaded.
abbrev pub reloaded : Environment → Config → Config
reloaded env cfg = record cfg {
  proton = record {
    username = cfg.proton.username;
    app_version = if env.app_version == "" then cfg.proton.app_version else env.app_version;
  };
  database_path = expand_home env.home cfg.database_path;
}

Holds-lookup :
    (kvs : List (String × Value))
    → NodupKeys kvs
    → (f : String → Option Value)
    → ((j : String) (x : Value) → lookup j kvs ≡ some x → f j ≡ some x)
    → Holds f kvs
Holds-lookup [] u f h = tt
Holds-lookup ((k, x) ∷ kvs) (fresh, u) f h = (
  h k x (rw lookup-cons (ground arith)),
  Holds-lookup kvs u f (λ j y found.
      h j y
        (rw lookup-cons (ground (arith, found, fresh, λ (e : j ≡ k). ap (λ i. lookup i kvs) e)))),
)

module _ (v : Viper) (env : Environment) (docs : Documented v env) where
  setting-set_all :
      (kvs : List (String × Value)) (s : v.Store) (j : String)
      → NodupKeys kvs
      → docs.setting (set_all v kvs s) j ≡ or_else (lookup j kvs) (docs.setting s j)
  unfolding set_all or_else
  setting-set_all [] s j u = rw lookup-nil refl
  setting-set_all ((k, x) ∷ kvs) s j (fresh, u) =
      rw (setting-set_all kvs (v.set k x s) j u, lookup-cons, docs.setting-set)
        (ground (arith, fresh, λ (e : j ≡ k). ap (λ i. lookup i kvs) e))

  abbrev replaced : String → Value → List (String × Value) → List (String × Value)
  replaced k x [] = []
  replaced k x ((j, y) ∷ kvs) = (j, if j == k then x else y) ∷ replaced k x kvs

  Holds-set :
      (k : String) (x : Value) (s : v.Store) (kvs : List (String × Value))
      → Holds (docs.setting s) kvs
      → Holds (docs.setting (v.set k x s)) (replaced k x kvs)
  Holds-set k x s [] h = tt
  Holds-set k x s ((j, y) ∷ kvs) (h, hs) =
      (rw docs.setting-set (ground (arith, h)), Holds-set k x s kvs hs)

  NodupKeys-settings_of : (cfg : Config) → NodupKeys (settings_of cfg)
  unfolding lookup string_eq
  NodupKeys-settings_of cfg = (
    refl,
    (refl, (refl, (refl, (refl, (refl, (refl, (refl, (refl, (refl, (refl, (refl, tt))))))))))),
  )

  pub saved :
      (cfg : Config) (u : v.Store)
      → ((k : String) (x : Value)
          → docs.setting (set_all v (settings_of cfg) v.new) k ≡ some x
          → docs.setting u k ≡ some x)
      → Holds (docs.setting u) (settings_of cfg)
  unfolding or_else
  saved cfg u h =
      Holds-lookup (settings_of cfg) (NodupKeys-settings_of cfg) (docs.setting u) (λ j x found.
        h j x
          (rw (setting-set_all (settings_of cfg) v.new j (NodupKeys-settings_of cfg), found) refl))

  abbrev pub overridden : Config → Config
  overridden cfg = record cfg {
    proton = record {
      username = cfg.proton.username;
      app_version = if env.app_version == "" then cfg.proton.app_version else env.app_version;
    };
  }

  abbrev versioned : Config → String → Config
  versioned cfg version = record cfg {
    proton = record { username = cfg.proton.username; app_version = version };
  }

  Holds-versioned :
      (cfg : Config) (version : String) (u : v.Store)
      → Holds (docs.setting u) (settings_of cfg)
      → Holds
          (docs.setting (v.set "proton.app_version" (text version) u))
          (settings_of (versioned cfg version))
  unfolding string_eq
  Holds-versioned cfg version u h =
      Holds-set "proton.app_version" (text version) u (settings_of cfg) h

  pub unmarshal-override :
      (cfg : Config) (u : v.Store)
      → Holds (docs.setting u) (settings_of cfg)
      → v.unmarshal (override v env u) ≡ ok (overridden cfg)
  unfolding override
  unmarshal-override cfg u h = elim (Bool-cases (env.app_version == "")) [
    | inl unset ↦ rw (unset) (docs.unmarshals u cfg h)
    | inr is_set ↦ rw is_set (
        docs.unmarshals _ (versioned cfg env.app_version) (Holds-versioned cfg env.app_version u h))
  ]
