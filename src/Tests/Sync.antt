-- ===== src/Tests/Sync.antt =====
-- The syncer between two small servers.
use proton_carddav_sync.Base.{◌≡◌, refl, ◌+◌, ◌≤◌, none, [], ◌∷◌, string_eq, nat_eq, arith, length}
use proton_carddav_sync.Syncer.{ContactSide, World}
use proton_carddav_sync.Syncer.OneWay.{sync_proton_to_carddav, sync_carddav_to_proton}
use proton_carddav_sync.Syncer.OneWay.Sources.{sources_unchanged}
use proton_carddav_sync.Syncer.Reconcile.{reconcile, reconcile_both}
use proton_carddav_sync.Syncer.Reconcile.Retries.{Bases, reconcile_both_retries}
use proton_carddav_sync.Syncer.Reconcile.Cap.{reconcile_cap}
use proton_carddav_sync.Tests.Fixtures.{
  Account, Book, object, small_syncer, length-IsCount, empty_db, start_world,
}

reconcile_cap_example :
    length (reconcile small_syncer start_world).1.proton
    ≤ length start_world.proton + small_syncer.max_new_proton
reconcile_cap_example = reconcile_cap small_syncer length length-IsCount (omega arith) start_world

sources_unchanged_example :
    ((sync_proton_to_carddav small_syncer start_world).1.proton ≡ start_world.proton)
    × ((sync_carddav_to_proton small_syncer start_world).1.carddav ≡ start_world.carddav)
sources_unchanged_example =
    sources_unchanged small_syncer start_world
      (record { list = λ p. refl; fetch = λ id p. refl; query = λ c. refl })

-- After a run that created the contact, CardDAV's card changed.
abbrev pub changed_world : World Account Book
changed_world = record {
  proton = ("id-ann", "ann") ∷ [];
  carddav = object "/ann" "ann" "Anna" ∷ [];
  db = record empty_db {
    contacts =
        (
          "ann",
          record {
            etag = "1";
            vcard_hash = "sha256:ann";
            proton_base = "";
            carddav_base = "";
            updated_at = 0;
          },
        )
        ∷ [];
  };
  cancels = [];
}

abbrev proton_ann : ContactSide
proton_ann = record { id = "gone"; etag = ""; vcard = "anna"; name = "Anna" }

abbrev carddav_ann : ContactSide
carddav_ann = record { id = ""; etag = "1"; vcard = "ann"; name = "Ann" }

-- Proton does not know the id, and refuses the update.
reconcile_both_retries_example :
    Bases small_syncer "ann" proton_ann carddav_ann none changed_world
      (reconcile_both small_syncer "ann" proton_ann carddav_ann none changed_world).1
reconcile_both_retries_example =
    reconcile_both_retries small_syncer "ann" proton_ann carddav_ann none changed_world
