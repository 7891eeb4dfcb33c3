-- ===== src/Db/Open.antt =====
-- internal/db/db.go, Open: the database file and its tables.
use proton_carddav_sync.Base.{String, ◌||◌, ◌==◌, string_eq, if◌then◌else◌}
use proton_carddav_sync.Base.FilePath.{dir}
use proton_carddav_sync.Base.Result.{wrap, wrap_at, ok}
use proton_carddav_sync.Base.Exec.{Exec, pure, within, ◌>>◌}
use proton_carddav_sync.Db.{Db, statement}
use proton_carddav_sync.Db.Schema.{Schema, run, migrate}

-- The file system, whatever it is, and the tables of the file.
pub record Storage (F : Type 0) : Type 0 where
  pub files : F
  pub schema : Schema

module _ {F : Type 0} (mkdir_all : String → Exec F (Unit {0})) where
  on_files : Exec F (Unit {0}) → Exec (Storage F) (Unit {0})
  on_files op w = let (r, f) = op w.files in (r, record w { files = f })

  on_schema : Exec Schema (Unit {0}) → Exec (Storage F) (Unit {0})
  on_schema op w = let (r, s) = op w.schema in (r, record w { schema = s })

  -- `Open`
  unfoldable pub open_storage : (path : String) → Exec (Storage F) (Unit {0})
  unfolding on_files on_schema
  open_storage path = do
    if dir path == "" || dir path == "."
        then pure tt
        else within (wrap_at "create database directory" (dir path))
            (on_files (mkdir_all (dir path)))
    within (wrap_at "open sqlite3 at" path) (on_schema (run (λ s. (ok tt, s))))
    within (wrap "migrate schema") (on_schema migrate)

-- `Open` as the rows see it: it fails, or goes through and leaves them as they are.
unfoldable pub open_rows : Exec Db (Unit {0})
open_rows = statement (λ db. (ok tt, db))
