-- ===== src/Db/Schema/Created.antt =====
-- internal/db/db.go, migrate: a new database, where there are no tables yet.
use proton_carddav_sync.Base.{
  ◌≡◌, ◌∙◌, refl, sym, subst, String, true, none, List, All, [], ◌∷◌, contains, string_eq, arith,
}
use proton_carddav_sync.Base.Dict.{lookup, insert, lookup-insert}
use proton_carddav_sync.Base.Result.{Error, wrap}
use proton_carddav_sync.Base.Exec.{within}
use proton_carddav_sync.Db.Schema.{
  Schema, columns_of, create_if_missing, credentials_columns, contacts_columns,
  later_credentials_columns, later_contacts_columns, ensure_columns, migrate,
}
use proton_carddav_sync.Db.Schema.Growth.{Has, Tables, then_step, create_lem, create-Grew}
use proton_carddav_sync.Db.Schema.Migration.{columns_grown, ensure_columns-Grew}

columns_of-insert :
    (table : String) (columns : List String) (tables : Tables)
    → columns_of table (insert table columns tables) ≡ columns
columns_of-insert table columns tables = ground (arith, lookup-insert table table columns tables)

-- CREATE TABLE where there is no such table.
created :
    (table : String) (columns : List String) (f : Error → Error) (db : Schema)
    → db.faults ≡ []
    → lookup table db.tables ≡ none
    → (within f (create_if_missing table columns) db).1.tables ≡ insert table columns db.tables
created table columns f db h k = rw (create_lem table columns f db h, k) refl

Has-created :
    (table : String) (columns listed : List String) (f : Error → Error) (db : Schema)
    → db.faults ≡ []
    → lookup table db.tables ≡ none
    → All (λ c. contains columns c ≡ true) listed
    → All (λ c. Has table c (within f (create_if_missing table columns) db).1.tables) listed
Has-created table columns listed f db h k all = rw (created table columns f db h k) (
    subst (λ cs. All (λ c. contains cs c ≡ true) listed)
      (sym (columns_of-insert table columns db.tables)) all)

-- Where the database meets no fault and has neither table, `migrate` makes every column that the
-- statements of db.go name in the table of credentials, and that those of contact_store.go name in the
-- table of contacts.
pub migrate_creates :
    (db : Schema)
    → db.faults ≡ []
    → lookup "credentials" db.tables ≡ none
    → lookup "contacts" db.tables ≡ none
    → All
        (λ c. Has "credentials" c (migrate db).1.tables)
        ("id" ∷ "salt" ∷ "proton_uid_enc" ∷ "proton_refresh_enc" ∷ "proton_keypass_enc"
          ∷ "carddav_password_enc" ∷ [])
      × All
          (λ c. Has "contacts" c (migrate db).1.tables)
          ("uid" ∷ "etag" ∷ "vcard_hash" ∷ "proton_base" ∷ "carddav_base" ∷ "updated_at" ∷ [])
unfolding migrate string_eq
migrate_creates db h no_credentials no_contacts =
    let make = wrap "exec schema" in
    let s1 = (within make (create_if_missing "credentials" credentials_columns) db).1 in
    let s2 = (within make (create_if_missing "contacts" contacts_columns) s1).1 in
    let s3 = (ensure_columns "credentials" later_credentials_columns s2).1 in
    let (ga, cred) = create-Grew "credentials" credentials_columns make db h in
    let (gb, cont) = create-Grew "contacts" contacts_columns make s1 ga.sound in
    let (gc, _) =
      ensure_columns-Grew "credentials" later_credentials_columns s2 gb.sound
        (gb.exists "credentials" cred) in
    let (gd, _) =
      ensure_columns-Grew "contacts" later_contacts_columns s3 gc.sound
        (gc.exists "contacts" cont) in
    let still : lookup "contacts" s1.tables ≡ none =
      rw (created "credentials" credentials_columns make db h no_credentials)
        (lookup-insert "contacts" "credentials" credentials_columns db.tables ∙ no_contacts) in
    let credentials =
      Has-created "credentials" credentials_columns credentials_columns make db h no_credentials
        (refl, (refl, (refl, (refl, (refl, (refl, tt)))))) in
    let contacts =
      Has-created "contacts" contacts_columns contacts_columns make s1 ga.sound still
        (refl, (refl, (refl, (refl, (refl, (refl, tt)))))) in
    subst
      (λ r.
        All (λ c. Has "credentials" c r.1.tables) credentials_columns
        × All (λ c. Has "contacts" c r.1.tables) contacts_columns)
      (sym (then_step _ _ db ga.done ∙ then_step _ _ s1 gb.done ∙ then_step _ _ s2 gc.done))
      (
        columns_grown gd "credentials" credentials_columns (
            columns_grown gc "credentials" credentials_columns
              (columns_grown gb "credentials" credentials_columns credentials)),
        columns_grown gd "contacts" contacts_columns
            (columns_grown gc "contacts" contacts_columns contacts),
      )
