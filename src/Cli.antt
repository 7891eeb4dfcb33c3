-- ===== src/Cli.antt =====
-- internal/cli: the commands, on top of the other parts.
pub mod Prompt
pub mod Connect
pub mod Commands
pub mod Init
pub mod Daemon
use proton_carddav_sync.Base.{String, ◌==◌, string_eq, if◌then◌else◌}
use proton_carddav_sync.Syncer.{
  Direction, direction_both, direction_to_carddav, direction_to_proton,
}
use proton_carddav_sync.VcardSync.Strings.{Policy, prefer_newer, prefer_proton, prefer_carddav}

-- `parseSyncDirection`
unfoldable pub parse_sync_direction : String → Direction
parse_sync_direction s =
    if s == "proton-to-carddav"
    then direction_to_carddav
    else if s == "carddav-to-proton"
    then direction_to_proton
    else direction_both

-- `parseConflictPolicy`
unfoldable pub parse_conflict_policy : String → Policy
parse_conflict_policy s =
    if s == "prefer-proton"
    then prefer_proton
    else if s == "prefer-carddav"
    then prefer_carddav
    else prefer_newer
