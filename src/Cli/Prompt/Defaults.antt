-- ===== src/Cli/Prompt/Defaults.antt =====
-- internal/cli/prompt.go: the defaults of the questions, and those of the configuration.
use proton_carddav_sync.Base.{
  ◌≡◌, refl, String, Bool, some, List, ◌∷◌, string_eq, nat_eq, All, arith,
}
use proton_carddav_sync.Base.Dict.{lookup}
use proton_carddav_sync.Base.Exec
use proton_carddav_sync.Base.Int.{pos, atoi, is_digit}
use proton_carddav_sync.Base.Result.{ok}
use proton_carddav_sync.Base.Text.{trim_text}
use proton_carddav_sync.Config.{
  Config, Value, default_proton_app_version, default_proton_max_requests_per_minute,
  default_max_new_proton_contacts_per_run, defaults, settings_of,
}
use proton_carddav_sync.Cli.Prompt.{answer_or, prompt_line, gather_config}

-- The configuration agrees with every default.
abbrev pub IsDefault : Config → Type 0
IsDefault cfg =
    All (λ (entry : String × Value). lookup entry.0 (settings_of cfg) ≡ some entry.1) defaults

-- A text that is blank.
abbrev pub Blank : String → Type 0
Blank line = trim_text line ≡ ""

interval_default : atoi "300" ≡ ok (pos 300)
unfolding atoi is_digit nat_eq
interval_default = refl

answer-Blank : (def line : String) → Blank line → answer_or def line ≡ def
unfolding answer_or
answer-Blank def line h = ground (arith, h)

answer_given : (line : String) → answer_or "" line ≡ trim_text line
unfolding answer_or
answer_given line = ground arith

-- The configuration of someone who leaves the rest to the defaults.
abbrev plain_config : (username url dav_user : String) → Config
plain_config username url dav_user = record {
  proton = record { username = username; app_version = default_proton_app_version };
  carddav = record { url = url; username = dav_user };
  database_path = "~/.local/share/proton-carddav-sync/sync.db";
  log = record { level = "info"; format = "text" };
  sync = record {
    direction = "both";
    conflict = "prefer-newer";
    interval_seconds = pos 300;
    proton_max_requests_per_minute = default_proton_max_requests_per_minute;
    max_new_proton_contacts_per_run = default_max_new_proton_contacts_per_run;
  };
}

plain_config-IsDefault :
    (username url dav_user : String) → IsDefault (plain_config username url dav_user)
unfolding lookup string_eq
plain_config-IsDefault username url dav_user =
    (refl, (refl, (refl, (refl, (refl, (refl, (refl, (refl, (refl, tt)))))))))

-- Where every question but those for the two user names and the URL is answered by a blank line, the
-- configuration that is gathered agrees with every default that Load sets, and has the three answers,
-- trimmed.
pub gather_defaults :
    (username version url dav_user direction conflict interval path level format : String)
    (lines : List String) (last : String) (broken : Bool)
    → Blank version
    → Blank direction
    → Blank conflict
    → Blank interval
    → Blank path
    → Blank level
    → Blank format
    → (cfg : Config) × ((gather_config (record {
      lines =
          username ∷ version ∷ url ∷ dav_user ∷ direction ∷ conflict ∷ interval ∷ path ∷ level
          ∷ format ∷ lines;
      last = last;
      broken = broken;
    })).0
        ≡ ok cfg)
      × IsDefault cfg
      × (cfg.proton.username ≡ trim_text username)
      × (cfg.carddav.url ≡ trim_text url)
      × (cfg.carddav.username ≡ trim_text dav_user)
unfolding gather_config prompt_line Exec.◌>>=◌
gather_defaults username version url dav_user direction conflict interval path level format lines
      last broken h1 h2 h3 h4 h5 h6 h7 =
    (
      plain_config (trim_text username) (trim_text url) (trim_text dav_user),
      rw
          (
            answer_given username,
            answer-Blank default_proton_app_version version h1,
            answer_given url,
            answer_given dav_user,
            answer-Blank "both" direction h2,
            answer-Blank "prefer-newer" conflict h3,
            answer-Blank "300" interval h4,
            interval_default,
            answer-Blank "~/.local/share/proton-carddav-sync/sync.db" path h5,
            answer-Blank "info" level h6,
            answer-Blank "text" format h7,
          )
          refl,
      plain_config-IsDefault _ _ _,
      refl,
      refl,
      refl,
    )
