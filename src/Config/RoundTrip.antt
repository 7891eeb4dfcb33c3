-- ===== src/Config/RoundTrip.antt =====
-- internal/config/config.go: what Load gives after Save, as when `init` has asked for the settings and
-- reloads them.
use proton_carddav_sync.Base.{string_eq}
use proton_carddav_sync.Base.Result.{Result}
use proton_carddav_sync.Base.Exec
use proton_carddav_sync.Config.{Config}
