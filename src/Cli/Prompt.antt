-- ===== src/Cli/Prompt.antt =====
-- internal/cli/prompt.go: the questions that `init` asks where there is no configuration.
pub mod Defaults
use proton_carddav_sync.Base.{
  String, Bool, true, false, ◌||◌, List, [], ◌∷◌, ◌==◌, string_eq, if◌then◌else◌,
}
use proton_carddav_sync.Base.Exec.{Exec, lift, pure, ◌>>=◌}
use proton_carddav_sync.Base.Int.{ℤ, atoi}
use proton_carddav_sync.Base.Result.{Error, failure, wrap, wrap_at, Result, ok, err, map_err}
use proton_carddav_sync.Base.Text.{trim_text}
use proton_carddav_sync.Config.{
  Config, default_proton_app_version, default_proton_max_requests_per_minute,
  default_max_new_proton_contacts_per_run,
}

-- The standard input: the lines that end in a newline, the text after the last newline, and whether
-- reading past that gives an error other than the end of the file.
pub record Stdin : Type 0 where
  pub lines : List String
  pub last : String
  pub broken : Bool

-- An answer, trimmed, or the default in place of an empty one.
unfoldable pub answer_or : String → String → String
answer_or def line = if trim_text line == "" then def else trim_text line

abbrev pub read_error : Error
read_error = wrap "read input" (failure "EOF")

abbrev last_line : String → Stdin → Result String × Stdin
last_line def r =
    if r.broken || r.last == ""
    then (err read_error, record r { last = "" })
    else (ok (answer_or def r.last), record r { last = "" })

abbrev next_line : String → List String → Stdin → Result String × Stdin
next_line def [] r = last_line def r
next_line def (line ∷ lines) r = (ok (answer_or def line), record r { lines = lines })

-- `promptLine`; what it prints is left out.
unfoldable pub prompt_line : (def : String) → Exec Stdin String
prompt_line def r = next_line def r.lines r

-- `gatherConfigInteractively`
unfoldable pub gather_config : Exec Stdin Config
gather_config = do
  username ← prompt_line ""
  app_version ← prompt_line default_proton_app_version
  url ← prompt_line ""
  carddav_username ← prompt_line ""
  direction ← prompt_line "both"
  conflict ← prompt_line "prefer-newer"
  interval_text ← prompt_line "300"
  interval ← lift (map_err (wrap_at "invalid interval" interval_text) (atoi interval_text))
  path ← prompt_line "~/.local/share/proton-carddav-sync/sync.db"
  level ← prompt_line "info"
  format ← prompt_line "text"
  pure (record {
    proton = record { username = username; app_version = app_version };
    carddav = record { url = url; username = carddav_username };
    database_path = path;
    log = record { level = level; format = format };
    sync = record {
      direction = direction;
      conflict = conflict;
      interval_seconds = interval;
      proton_max_requests_per_minute = default_proton_max_requests_per_minute;
      max_new_proton_contacts_per_run = default_max_new_proton_contacts_per_run;
    };
  })
