-- ===== src/Syncer.antt =====
-- internal/syncer/syncer.go: what the directions share. The state is that of the two sides, of the
-- database and of the context; log lines are left out.
pub mod Frame
pub mod Index
pub mod OneWay
pub mod Reconcile
pub mod Force
pub mod Sync
use proton_carddav_sync.Base.{
  ℕ, String, Bool, true, false, Option, none, some, List, [], ◌∷◌, ◌==◌, string_eq, if◌then◌else◌,
}
use proton_carddav_sync.Base.Result.{Error, cancelled, wrap_at, is_no_rows, Result, ok, err}
use proton_carddav_sync.Base.Exec.{Exec, pure, fail, attempt, within, ◌>>=◌, ◌>>◌}
use proton_carddav_sync.Carddav.Interface.{ContactsClient as CarddavClient}
use proton_carddav_sync.Db.{Db}
use proton_carddav_sync.Db.Contacts.{ContactRecord, get_contact, upsert_contact}
use proton_carddav_sync.Library.{Library}
use proton_carddav_sync.Protonmail.Interface.{ContactsClient as ProtonClient}
use proton_carddav_sync.Time.{zero_time}
use proton_carddav_sync.Vcard.{Field, Card, get, field_uid, field_formatted_name}
use proton_carddav_sync.VcardSync.Strings.{Policy}

pub data Direction : Type 0 where
  direction_both direction_to_carddav direction_to_proton : Direction

-- `Syncer`, with what the libraries do. A negative cap means what 0 means: unlimited.
pub record Syncer : Type 1 where
  pub lib : Library
  pub proton : ProtonClient
  pub carddav : CarddavClient
  pub dir : Direction
  pub policy : Policy
  pub max_new_proton : ℕ

-- `cancels` is what the next looks at `ctx.Done()` find: true where the context is done, false where
-- it is not, or where no entry is left.
pub record World (P C : Type 0) : Type 0 where
  pub proton : P
  pub carddav : C
  pub db : Db
  pub cancels : List Bool

module _ {P C : Type 0} {A : Type 0} where
  unfoldable pub on_proton : Exec P A → Exec (World P C) A
  on_proton op w = let (r, p) = op w.proton in (r, record w { proton = p })

  unfoldable pub on_carddav : Exec C A → Exec (World P C) A
  on_carddav op w = let (r, c) = op w.carddav in (r, record w { carddav = c })

  unfoldable pub on_db : Exec Db A → Exec (World P C) A
  on_db op w = let (r, d) = op w.db in (r, record w { db = d })

abbrev next_cancel : List Bool → Bool
next_cancel [] = false
next_cancel (b ∷ bs) = b

abbrev later_cancels : List Bool → List Bool
later_cancels [] = []
later_cancels (b ∷ bs) = bs

-- `select { case <-ctx.Done(): return ctx.Err() default: }`
unfoldable pub check_ctx : {P C : Type 0} → Exec (World P C) (Unit {0})
check_ctx w = (
  if next_cancel w.cancels then err cancelled else ok tt,
  record w { cancels = later_cancels w.cancels },
)

-- `contactSide`
pub record ContactSide : Type 0 where
  pub id : String
  pub etag : String
  pub vcard : String
  pub name : String

abbrev pub uid_or : String → Option Field → String
uid_or fallback none = fallback
uid_or fallback (some f) = if f.value == "" then fallback else f.value

abbrev pub name_or_empty : Option Field → String
name_or_empty none = ""
name_or_empty (some f) = f.value

module _ (lib : Library) where
  -- `extractUID`
  unfoldable pub extract_uid : String → String → String
  extract_uid raw fallback = elim (lib.codec.parse raw) [
    | err e ↦ fallback
    | ok card ↦ uid_or fallback (get card field_uid)
  ]

  -- `extractFN`
  unfoldable pub extract_fn : String → String
  extract_fn raw = elim (lib.codec.parse raw) [
    | err e ↦ ""
    | ok card ↦ name_or_empty (get card field_formatted_name)
  ]

  -- The record that `saveBases` writes; its time is the zero time.
  abbrev pub base_record : (uid etag proton_base carddav_base : String) → ContactRecord
  base_record uid etag proton_base carddav_base = record {
    updated_at = zero_time;
    uid = uid;
    etag = etag;
    vcard_hash = lib.digest carddav_base;
    proton_base = proton_base;
    carddav_base = carddav_base;
  }

  -- `saveBases`
  unfoldable pub save_bases :
      {P C : Type 0} → (uid etag proton_base carddav_base : String) → Exec (World P C) (Unit {0})
  save_bases uid etag proton_base carddav_base =
      within (wrap_at "upsert local contact" uid)
        (on_db (upsert_contact (base_record uid etag proton_base carddav_base)))

abbrev pub base_or_error : String → Result ContactRecord → Result (Option ContactRecord)
base_or_error uid (ok rec) = ok (some rec)
base_or_error uid (err e) =
    if is_no_rows e then ok none else err (wrap_at "get local contact" uid e)

-- `rec, getErr := dbpkg.GetContact(…)`, where a missing row is no error.
unfoldable pub read_base : {P C : Type 0} → String → Exec (World P C) (Option ContactRecord)
read_base uid w = let (r, d) = get_contact uid w.db in (base_or_error uid r, record w { db = d })
