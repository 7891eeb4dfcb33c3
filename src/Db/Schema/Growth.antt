-- ===== src/Db/Schema/Growth.antt =====
-- internal/db/db.go, migrate: what one step of a migration leaves.
use proton_carddav_sync.Base.{
  ◌≡◌, ◌≢◌, ◌⊎◌, refl, ap, String, true, Option, none, some, List, [], contains, string_eq, arith,
  inl, inr,
}
use proton_carddav_sync.Base.Dict.{Dict, lookup, insert, lookup-insert}
use proton_carddav_sync.Base.Result.{Error, Result, ok}
use proton_carddav_sync.Base.Exec.{Exec, within, ◌>>=◌, ◌>>◌}
use proton_carddav_sync.Db.Schema.{Schema, run, columns_of, or_create, create_if_missing}

-- A table that exists, with a column.
abbrev pub Has : String → String → Dict String (List String) → Type 0
Has table column tables = contains (columns_of table tables) column ≡ true

abbrev pub Tables : Type 0
Tables = Dict String (List String)

abbrev pub Exists : String → Tables → Type 0
Exists table tables = lookup table tables ≢ none

-- What a step of the migration leaves, from some tables: no error, no fault to come, and every table
-- and column that there was.
pub record Grew (before : Tables) (r : Result (Unit {0}) × Schema) : Type 0 where
  pub done : r.0 ≡ ok tt
  pub sound : r.1.faults ≡ []
  pub grows : (table column : String) → Has table column before → Has table column r.1.tables
  pub exists : (table : String) → Exists table before → Exists table r.1.tables

-- Both parts of a sequence, where the first returned.
pub then_step :
    {S : Type 0} (m n : Exec S (Unit {0})) (s : S) → (m s).0 ≡ ok tt → (m >> n) s ≡ n (m s).1
unfolding ◌>>=◌
then_step m n s h = rw h refl

pub Grew-then :
    (m n : Exec Schema (Unit {0})) (db : Schema)
    → Grew db.tables (m db)
    → Grew (m db).1.tables (n (m db).1)
    → Grew db.tables ((m >> n) db)
Grew-then m n db g k = rw (then_step m n db g.done) (record {
  done = k.done;
  sound = k.sound;
  grows = λ t c h. k.grows t c (g.grows t c h);
  exists = λ t h. k.exists t (g.exists t h);
})

Has-create :
    (table t c : String) (columns : List String) (tables : Tables)
    → lookup table tables ≡ none
    → Has t c tables
    → Has t c (insert table columns tables)
Has-create table t c columns tables h k =
    ground
      (arith, lookup-insert t table columns tables, λ (e : t ≡ table). ap (λ x. lookup x tables) e)

pub Exists-insert :
    (table t : String) (columns : List String) (tables : Tables)
    → (t ≡ table) ⊎ Exists t tables
    → Exists t (insert table columns tables)
Exists-insert table t columns tables (inl e) =
    ground (arith, e, lookup-insert t table columns tables)
Exists-insert table t columns tables (inr h) =
    ground (arith, h, lookup-insert t table columns tables)

pub create_lem :
    (table : String) (columns : List String) (f : Error → Error) (db : Schema)
    → db.faults ≡ []
    → within f (create_if_missing table columns) db ≡ (
      ok tt,
      record { tables = or_create table columns (lookup table db.tables) db.tables; faults = [] },
    )
unfolding create_if_missing run within
create_lem table columns f db h = rw h refl

Grew-create :
    (table : String) (columns : List String) (tables : Tables) (o : Option (List String))
    → lookup table tables ≡ o
    → Grew tables (ok tt, record { tables = or_create table columns o tables; faults = [] })
      × Exists table (or_create table columns o tables)
Grew-create table columns tables none h = (
  record {
    done = refl;
    sound = refl;
    grows = λ t c k. Has-create table t c columns tables h k;
    exists = λ t k. Exists-insert table t columns tables (inr k);
  },
  Exists-insert table table columns tables (inl refl),
)
Grew-create table columns tables (some old) h =
    (record { done = refl; sound = refl; grows = λ t c k. k; exists = λ t k. k }, λ e. cc (e, h))

pub create-Grew :
    (table : String) (columns : List String) (f : Error → Error) (db : Schema)
    → db.faults ≡ []
    → Grew db.tables (within f (create_if_missing table columns) db)
      × Exists table (within f (create_if_missing table columns) db).1.tables
create-Grew table columns f db h =
    rw (create_lem table columns f db h)
      (Grew-create table columns db.tables (lookup table db.tables) refl)
