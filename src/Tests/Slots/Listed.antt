-- ===== src/Tests/Slots/Listed.antt =====
-- What these accounts list.
use proton_carddav_sync.Base.{◌≡◌, ◌≢◌, refl, String, Option, none, some, [], string_eq}
use proton_carddav_sync.Base.Dict.{insert}
use proton_carddav_sync.Base.Result.{ok}
use proton_carddav_sync.Base.Exec
use proton_carddav_sync.Db.{Db}
use proton_carddav_sync.Syncer.{
  check_ctx, on_proton, on_carddav, extract_uid, extract_fn, name_or_empty,
}
use proton_carddav_sync.Syncer.Index.{
  Sides, fetch_all, add_proton, add_object, index_objects, proton_by_uid, carddav_index,
}
use proton_carddav_sync.Syncer.Reconcile.Listing.{ReadOnly, world}
use proton_carddav_sync.Tests.Notes.{
  Who, nobody, ann, bob, Name, nameless, short, long, uid_of, name_of, note, text_of, notes,
  parse_text, print_note, name_group,
}
use proton_carddav_sync.Tests.Notes.Codec.{uid_at, version_at, name_at, value-uid, value-name}
use proton_carddav_sync.Tests.Slots.{Slots, object, slots_syncer, sides, proton_side, carddav_side}
use proton_carddav_sync.Vcard.{get, fields_of, first}
use proton_carddav_sync.VcardSync.ThreeWay.{is_empty}

pub slots-ReadOnly : ReadOnly slots_syncer
slots-ReadOnly = record { list = λ p. refl; fetch = λ id p. refl; query = λ c. refl }

uid_text :
    (u : Who) (f : Name) (fallback : String)
    → u ≢ nobody
    → extract_uid notes (text_of u f) fallback ≡ uid_of u
unfolding extract_uid fields_of get string_eq
uid_text nobody f fallback other = absurd (other refl)
uid_text ann f fallback other = rw (extract_uid, parse_text ann f) refl
uid_text bob f fallback other = rw (extract_uid, parse_text bob f) refl

pub list_proton :
    (p : Slots) (c : Slots) (d : Db)
    → (proton_by_uid slots_syncer (world p c d [])).0 ≡ ok (sides proton_side p)
unfolding proton_by_uid Exec.◌>>=◌ fetch_all check_ctx on_proton add_proton insert string_eq
list_proton p c d = listed p.of_ann p.of_bob
  where
    listed :
        (a b : Option Name)
        → let q : Slots = record { of_ann = a; of_bob = b } in
          (proton_by_uid slots_syncer (world q c d [])).0 ≡ ok (sides proton_side q)
    listed none none = refl
    listed (some f) none = rw (uid_text ann f "ann" (λ e. cc e)) refl
    listed none (some g) = rw (uid_text bob g "bob" (λ e. cc e)) refl
    listed (some f) (some g) =
        rw (uid_text ann f "ann" (λ e. cc e), uid_text bob g "bob" (λ e. cc e)) refl

name_text : (u : Who) (f : Name) → extract_fn notes (text_of u f) ≡ name_of f
unfolding extract_fn get
name_text u f = rw (extract_fn, parse_text u f, name_at u f) (name_group_value f)
  where
    name_group_value : (g : Name) → name_or_empty (first (name_group g)) ≡ name_of g
    name_group_value nameless = refl
    name_group_value short = refl
    name_group_value long = refl

printed : (u : Who) (f : Name) → notes.codec.print (note u f) ≡ ok (text_of u f)
unfolding is_empty print_note text_of
printed u f = rw (version_at u f, uid_at u f, name_at u f, value-uid u, value-name f) refl

indexed :
    (u : Who) (f : Name) (out : Sides)
    → u ≢ nobody
    → add_object slots_syncer (object u f) out ≡ insert (uid_of u) (carddav_side u f) out
unfolding add_object
indexed u f out other =
    rw (add_object, printed u f, uid_text u f (uid_of u) other, name_text u f) refl

pub list_carddav :
    (p : Slots) (c : Slots) (d : Db)
    → (carddav_index slots_syncer (world p c d [])).0 ≡ ok (sides carddav_side c)
unfolding carddav_index Exec.◌>>=◌ on_carddav index_objects insert string_eq
list_carddav p c d = listed c.of_ann c.of_bob
  where
    listed :
        (a b : Option Name)
        → let q : Slots = record { of_ann = a; of_bob = b } in
          (carddav_index slots_syncer (world p q d [])).0 ≡ ok (sides carddav_side q)
    listed none none = refl
    listed (some f) none = rw (indexed ann f [] (λ e. cc e)) refl
    listed none (some g) = rw (indexed bob g [] (λ e. cc e)) refl
    listed (some f) (some g) = rw (indexed ann f [] (λ e. cc e), indexed bob g _ (λ e. cc e)) refl
