-- ===== src/Syncer/OneWay.antt =====
-- internal/syncer/syncer.go, syncProtonToCardDAV, cardDAVByUID and syncCardDAVToProton.
pub mod Sources
pub mod Recreates
pub mod Parsable
pub mod Cap
use proton_carddav_sync.Base.{
  ℕ, ◌+◌, String, Bool, true, false, ◌&&◌, Option, none, some, List, [], ◌∷◌, ◌==◌, ltb, leb,
  string_eq, if◌then◌else◌,
}
use proton_carddav_sync.Base.Dict.{Dict, lookup, insert}
use proton_carddav_sync.Base.Result.{wrap, wrap_at, Result, ok, err}
use proton_carddav_sync.Base.Exec.{Exec, pure, attempt, within, ◌>>=◌, ◌>>◌}
use proton_carddav_sync.Carddav.Interface.{AddressObject}
use proton_carddav_sync.Db.Contacts.{ContactRecord, upsert_contact}
use proton_carddav_sync.Protonmail.Interface.{Contact}
use proton_carddav_sync.Syncer.{
  Syncer, on_proton, on_carddav, on_db, check_ctx, extract_uid, read_base,
}
use proton_carddav_sync.Syncer.Index.{W}
use proton_carddav_sync.Syncer.Reconcile.{Counters, start, cap_reached}
use proton_carddav_sync.Time.{zero_time}
use proton_carddav_sync.VcardSync.Strings.{overlay_string}

abbrev pub Texts : Type 0
Texts = Dict String String

module _ (s : Syncer) where
  -- The record that a one-way sync writes: it has no bases.
  abbrev pub hash_record : (uid etag text : String) → ContactRecord
  hash_record uid etag text = record {
    updated_at = zero_time;
    uid = uid;
    etag = etag;
    vcard_hash = s.lib.digest text;
    proton_base = "";
    carddav_base = "";
  }

  abbrev pub save_hash : (uid etag text : String) → Exec (W s) (Unit {0})
  save_hash uid etag text =
      within (wrap_at "upsert local contact" uid)
        (on_db (upsert_contact (hash_record uid etag text)))

  unfoldable pub add_text : AddressObject → Texts → Texts
  add_text obj out = elim (s.lib.codec.print obj.card) [
    | err e ↦ out
    | ok str ↦ insert (extract_uid s.lib str obj.path) str out
  ]

  unfoldable pub index_texts : List AddressObject → Texts → Texts
  index_texts [] out = out
  index_texts (obj ∷ objs) out = index_texts objs (add_text obj out)

  -- `cardDAVByUID`
  unfoldable pub carddav_by_uid : Exec (W s) Texts
  carddav_by_uid = do
    objects ← within (wrap "list carddav contacts") (on_carddav s.carddav.list_contacts)
    pure (index_texts objects [])

  -- The text to write for a Proton card, `none` where the contact is skipped: the overlay failed, or
  -- it changes nothing.
  unfoldable pub text_to_put : Option String → String → Option String
  text_to_put none proton_vcard = some proton_vcard
  text_to_put (some existing) proton_vcard = elim (overlay_string s.lib existing proton_vcard) [
    | err e ↦ none
    | ok merged ↦ if s.lib.digest merged == s.lib.digest existing then none else some merged
  ]

  unfoldable pub put_text : String → Option String → Exec (W s) (Unit {0})
  put_text uid none = pure tt
  put_text uid (some text) = do
    within (wrap_at "put carddav contact" uid) (on_carddav (s.carddav.put_contact uid text))
    save_hash uid "" text

  unfoldable pub push_fetched : Texts → Contact → Result String → Exec (W s) (Unit {0})
  push_fetched existing ct (err e) = pure tt
  push_fetched existing ct (ok proton_vcard) =
      let uid = extract_uid s.lib proton_vcard ct.id in
      put_text uid (text_to_put (lookup uid existing) proton_vcard)

  unfoldable pub push_all : Texts → List Contact → Exec (W s) (Unit {0})
  push_all existing [] = pure tt
  push_all existing (ct ∷ cts) = do
    check_ctx
    got ← attempt (on_proton (s.proton.get_contact_vcard ct.id))
    push_fetched existing ct got
    push_all existing cts

  -- `syncProtonToCardDAV`
  unfoldable pub sync_proton_to_carddav : Exec (W s) (Unit {0})
  sync_proton_to_carddav = do
    contacts ← within (wrap "list proton contacts") (on_proton s.proton.list_contacts)
    existing ← carddav_by_uid
    push_all existing contacts

  -- The switch of the loop of `syncCardDAVToProton`.
  unfoldable pub push_to_proton :
      Option ContactRecord → (uid etag vcard : String) → Counters → Exec (W s) Counters
  push_to_proton none uid etag vcard k =
      if cap_reached s k.new_proton then pure (record k { deferred = k.deferred + 1 }) else do
        within (wrap_at "create proton contact" uid) (on_proton (s.proton.create_contact vcard))
        save_hash uid etag vcard
        pure (record k { new_proton = k.new_proton + 1 })
  push_to_proton (some rec) uid etag vcard k =
      if rec.vcard_hash == s.lib.digest vcard then pure k else do
        within (wrap_at "update proton contact" uid)
            (on_proton (s.proton.update_contact rec.uid vcard))
        save_hash uid etag vcard
        pure k

  unfoldable pub push_printed : AddressObject → Result String → Counters → Exec (W s) Counters
  push_printed obj (err e) k = pure k
  push_printed obj (ok vcard) k =
      let uid = extract_uid s.lib vcard obj.path in
      do rec ← read_base uid; push_to_proton rec uid obj.etag vcard k

  unfoldable pub push_objects : List AddressObject → Counters → Exec (W s) Counters
  push_objects [] k = pure k
  push_objects (obj ∷ objs) k = do
    check_ctx
    k' ← push_printed obj (s.lib.codec.print obj.card) k
    push_objects objs k'

  -- `syncCardDAVToProton`
  unfoldable pub sync_carddav_to_proton : Exec (W s) (Unit {0})
  sync_carddav_to_proton = do
    objects ← within (wrap "list carddav contacts") (on_carddav s.carddav.list_contacts)
    push_objects objects (start s)
    pure tt
