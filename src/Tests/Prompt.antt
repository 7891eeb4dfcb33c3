-- ===== src/Tests/Prompt.antt =====
-- Someone who answers three questions and leaves the rest blank.
use proton_carddav_sync.Base.{◌≡◌, refl, false, [], ◌∷◌, nat_eq}
use proton_carddav_sync.Base.Result.{ok}
use proton_carddav_sync.Base.Text.{trim_text}
use proton_carddav_sync.Cli.Prompt.{gather_config}
use proton_carddav_sync.Cli.Prompt.Defaults.{IsDefault, gather_defaults}
use proton_carddav_sync.Config.{Config}

gather_defaults_example :
    (cfg : Config) × ((gather_config (record {
      lines = "ann@proton.me" ∷ "" ∷ " https://dav" ∷ "ann" ∷ "" ∷ "  " ∷ "" ∷ "" ∷ "" ∷ "" ∷ [];
      last = "";
      broken = false;
    })).0
      ≡ ok cfg)
    × IsDefault cfg
    × (cfg.proton.username ≡ trim_text "ann@proton.me")
    × (cfg.carddav.url ≡ trim_text " https://dav")
    × (cfg.carddav.username ≡ trim_text "ann")
unfolding trim_text nat_eq
gather_defaults_example =
    gather_defaults "ann@proton.me" "" " https://dav" "ann" "" "  " "" "" "" "" [] "" false refl
      refl refl refl refl refl refl
