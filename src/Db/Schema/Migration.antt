-- ===== src/Db/Schema/Migration.antt =====
-- internal/db/db.go, migrate: a whole migration where the database meets no fault.
use proton_carddav_sync.Base.{
  ◌≡◌, ◌≢◌, refl, sym, ap, ◌∙◌, String, Bool, true, false, Option, none, some, List, [], ◌∷◌, ◌++◌,
  contains, string_eq, arith, All, subst, inl, inr, Bool-cases,
}
use proton_carddav_sync.Base.Dict.{lookup, insert, lookup-insert}
use proton_carddav_sync.Base.Range.{contains-append}
use proton_carddav_sync.Base.Result.{Error, wrap, Result, ok}
use proton_carddav_sync.Base.Exec.{pure, within, ◌>>=◌}
use proton_carddav_sync.Db.Schema.{
  Schema, run, create_if_missing, add_column, table_info, ensure_column, ensure_columns,
  credentials_columns, contacts_columns, later_credentials_columns, later_contacts_columns, migrate,
}
use proton_carddav_sync.Db.Schema.Growth.{
  Has, Tables, Exists, Grew, then_step, Grew-then, Exists-insert, create-Grew,
}

-- The tables after `ensureColumn`.
abbrev ensured : String → String → Bool → Option (List String) → Tables → Tables
ensured table column present none tables = tables
ensured table column true (some old) tables = tables
ensured table column false (some old) tables = insert table (old ++ column ∷ []) tables

add_lem :
    (table column : String) (old : List String) (f : Error → Error) (tables : Tables)
    → lookup table tables ≡ some old
    → contains old column ≡ false
    → within f (add_column table column) (record { tables = tables; faults = [] })
      ≡ (ok tt, record { tables = insert table (old ++ column ∷ []) tables; faults = [] })
unfolding add_column run within
add_lem table column old f tables k absent = rw (k, absent) refl

ensure_lem :
    (table column : String) (old : List String) (db : Schema)
    → db.faults ≡ []
    → lookup table db.tables ≡ some old
    → ensure_column table column db ≡ (
      ok tt,
      record {
        tables = ensured table column (contains old column) (some old) db.tables;
        faults = [];
      },
    )
unfolding ensure_column table_info run pure within ◌>>=◌
ensure_lem table column old db h k = elim (Bool-cases (contains old column)) [
  | inl present ↦ rw (h, k, present) refl
  | inr absent ↦ rw (h, k, absent) (add_lem table column old _ db.tables k absent)
]

Grew-ensure :
    (table column : String) (old : List String) (tables : Tables) (present : Bool)
    → lookup table tables ≡ some old
    → contains old column ≡ present
    → Grew tables
        (ok tt, record { tables = ensured table column present (some old) tables; faults = [] })
      × Has table column (ensured table column present (some old) tables)
Grew-ensure table column old tables true h k =
    (record { done = refl; sound = refl; grows = λ t c k. k; exists = λ t k. k }, rw h k)
Grew-ensure table column old tables false h k = (
  record {
    done = refl;
    sound = refl;
    grows = λ t c had. kept t c had;
    exists = λ t k. Exists-insert table t (old ++ column ∷ []) tables (inr k);
  },
  new,
)
  where
    kept : (t c : String) → Has t c tables → Has t c (insert table (old ++ column ∷ []) tables)
    kept t c had = ground (
      arith,
      h,
      had,
      lookup-insert t table (old ++ column ∷ []) tables,
      contains-append old (column ∷ []) c,
      λ (e : t ≡ table). ap (λ x. lookup x tables) e,
    )

    new : Has table column (insert table (old ++ column ∷ []) tables)
    new = ground (
      arith,
      lookup-insert table table (old ++ column ∷ []) tables,
      contains-append old (column ∷ []) column,
    )

some_of : (o : Option (List String)) → o ≢ none → (old : List String) × (o ≡ some old)
some_of none h = absurd (h refl)
some_of (some old) h = (old, refl)

ensure-Grew :
    (table column : String) (db : Schema)
    → db.faults ≡ []
    → Exists table db.tables
    → Grew db.tables (ensure_column table column db)
      × Has table column (ensure_column table column db).1.tables
ensure-Grew table column db h k =
    let (old, found) = some_of (lookup table db.tables) k in
    rw (ensure_lem table column old db h found)
      (Grew-ensure table column old db.tables (contains old column) found refl)

pub ensure_columns-Grew :
    (table : String) (columns : List String) (db : Schema)
    → db.faults ≡ []
    → Exists table db.tables
    → Grew db.tables (ensure_columns table columns db)
      × All (λ c. Has table c (ensure_columns table columns db).1.tables) columns
unfolding ensure_columns pure
ensure_columns-Grew table [] db h k =
    (record { done = refl; sound = h; grows = λ t c k. k; exists = λ t k. k }, tt)
ensure_columns-Grew table (column ∷ columns) db h k =
    let first = ensure-Grew table column db h k in
    let rest =
      ensure_columns-Grew table columns (ensure_column table column db).1 first.0.sound
        (first.0.exists table k) in
    (
      Grew-then (ensure_column table column) (ensure_columns table columns) db first.0 rest.0,
      subst (λ r. Has table column r.1.tables × All (λ c. Has table c r.1.tables) columns)
          (sym
            (then_step (ensure_column table column) (ensure_columns table columns) db first.0.done))
          (rest.0.grows table column first.1, rest.1),
    )

pub columns_grown :
    {before : Tables} {r : Result (Unit {0}) × Schema}
    → Grew before r
    → (table : String) (columns : List String) → All (λ c. Has table c before) columns
    → All (λ c. Has table c r.1.tables) columns
columns_grown g table [] _ = tt
columns_grown g table (c ∷ columns) (h, rest) =
    (g.grows table c h, columns_grown g table columns rest)

-- Where the database meets no fault, `migrate` returns no error; afterwards the tables have every
-- column that a later version of the program added, and every column that they had before.
pub migrate_grows :
    (db : Schema)
    → db.faults ≡ []
    → ((migrate db).0 ≡ ok tt)
      × ((table column : String)
          → Has table column db.tables
          → Has table column (migrate db).1.tables)
      × All (λ c. Has "credentials" c (migrate db).1.tables) later_credentials_columns
      × All (λ c. Has "contacts" c (migrate db).1.tables) later_contacts_columns
unfolding migrate
migrate_grows db h =
    let (ga, cred) = create-Grew "credentials" credentials_columns (wrap "exec schema") db h in
    let s1 =
      (within (wrap "exec schema") (create_if_missing "credentials" credentials_columns) db).1 in
    let (gb, cont) = create-Grew "contacts" contacts_columns (wrap "exec schema") s1 ga.sound in
    let s2 = (within (wrap "exec schema") (create_if_missing "contacts" contacts_columns) s1).1 in
    let (gc, has_credentials) =
      ensure_columns-Grew "credentials" later_credentials_columns s2 gb.sound
        (gb.exists "credentials" cred) in
    let s3 = (ensure_columns "credentials" later_credentials_columns s2).1 in
    let (gd, has_contacts) =
      ensure_columns-Grew "contacts" later_contacts_columns s3 gc.sound
        (gc.exists "contacts" cont) in
    subst
      (λ r.
        (r.0 ≡ ok tt)
        × ((t c : String) → Has t c db.tables → Has t c r.1.tables)
        × All (λ c. Has "credentials" c r.1.tables) later_credentials_columns
        × All (λ c. Has "contacts" c r.1.tables) later_contacts_columns)
      (sym (then_step _ _ db ga.done ∙ then_step _ _ s1 gb.done ∙ then_step _ _ s2 gc.done))
      (
        gd.done,
        λ t c k. gd.grows t c (gc.grows t c (gb.grows t c (ga.grows t c k))),
        columns_grown gd "credentials" later_credentials_columns has_credentials,
        has_contacts,
      )
