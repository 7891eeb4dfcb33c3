-- ===== src/Tests/Deleted.antt =====
-- A contact that was synced and is gone from CardDAV.
use proton_carddav_sync.Base.{
  ◌≡◌, ◌≢◌, refl, String, false, none, List, [], ◌∷◌, ◌==◌, string_eq, arith,
}
use proton_carddav_sync.Base.Dict.{lookup, insert, lookup-insert}
use proton_carddav_sync.Base.Result.{ok}
use proton_carddav_sync.Base.Exec.{within}
use proton_carddav_sync.Base.Exec.Keeps.{Keeps}
use proton_carddav_sync.Carddav.Client.{trim_slashes, contact_path, list_contacts}
use proton_carddav_sync.Carddav.Client.Path.{put_contact-other}
use proton_carddav_sync.Carddav.Interface.{AddressObject}
use proton_carddav_sync.Syncer.{Syncer, World, extract_uid}
use proton_carddav_sync.Syncer.Index.{index_objects, add_object}
use proton_carddav_sync.Syncer.OneWay.Recreates.{with_client}
use proton_carddav_sync.Syncer.Reconcile.{reconcile}
use proton_carddav_sync.Syncer.Reconcile.Deletions.{reconcile_keeps_deletion}
use proton_carddav_sync.Tests.AddressBook.{Shelf, small_dav, book, shelf_objects}
use proton_carddav_sync.Tests.Fixtures.{Account, card, small_library, small_syncer}
use proton_carddav_sync.Tests.Sync.{changed_world}
use proton_carddav_sync.Vcard.{get, fields_of}
use proton_carddav_sync.VcardSync.ThreeWay.{is_empty}

abbrev shelf_syncer : Syncer
shelf_syncer = with_client small_syncer small_dav book

abbrev ann_path : String
ann_path = contact_path "/books/1/" "ann"

abbrev bob_shelf : Shelf
bob_shelf = (contact_path "/books/1/" "bob", card "bob" "Bob") ∷ []

abbrev deleted_world : World Account Shelf
deleted_world = record {
  proton = ("id-ann", "ann") ∷ [];
  carddav = bob_shelf;
  db = changed_world.db;
  cancels = [];
}

-- Nothing is stored at the path of the contact.
abbrev LacksAnn : Shelf → Type 0
LacksAnn b = lookup ann_path b ≡ none

put_other :
    (u text : String)
    → (u == "ann") ≡ false
    → Keeps LacksAnn (shelf_syncer.carddav.put_contact u text)
put_other u text h = record {
  at =
      put_contact-other small_library.codec small_dav book "ann" LacksAnn
        (λ path c b differs lacks. ground (arith, lookup-insert ann_path path c b, differs, lacks))
        u text (λ e. ground (arith, e, h));
}

ann_unlisted :
    (objs : List AddressObject)
    → (shelf_syncer.carddav.list_contacts bob_shelf).0 ≡ ok objs
    → lookup "ann" (index_objects shelf_syncer objs []) ≡ none
unfolding list_contacts index_objects add_object lookup insert extract_uid string_eq is_empty
    fields_of get within
ann_unlisted objs e = let same : shelf_objects bob_shelf ≡ objs = cc e in rw (← same) refl

ann_has_record : lookup "ann" deleted_world.db.contacts ≢ none
unfolding lookup string_eq
ann_has_record h = cc h

ann_not_stored : LacksAnn bob_shelf
unfolding lookup string_eq contact_path trim_slashes
ann_not_stored = refl

reconcile_keeps_deletion_example :
    (lookup ann_path (reconcile shelf_syncer deleted_world).1.carddav ≡ none)
    × (lookup "ann" (reconcile shelf_syncer deleted_world).1.db.contacts ≢ none)
unfolding list_contacts within
reconcile_keeps_deletion_example =
    reconcile_keeps_deletion shelf_syncer "ann" LacksAnn put_other (record { at = λ b h. h })
      deleted_world ann_unlisted ann_not_stored ann_has_record
