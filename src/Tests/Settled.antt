-- ===== src/Tests/Settled.antt =====
-- A run where nothing changed since the last one.
use proton_carddav_sync.Base.{
  ◌≡◌, refl, inl, inr, String, true, false, some, none, [], ◌∷◌, ◌==◌, string_eq, nat_eq,
  Bool-cases,
}
use proton_carddav_sync.Base.Dict.{lookup, lookup-cons, lookup-nil}
use proton_carddav_sync.Db.{Row}
use proton_carddav_sync.Syncer.{World}
use proton_carddav_sync.Syncer.Reconcile.{reconcile}
use proton_carddav_sync.Syncer.Reconcile.Again.{IsSettledWorld, reconcile_settled}
use proton_carddav_sync.Syncer.Reconcile.Quiet.{SettledRow}
use proton_carddav_sync.Tests.Fixtures.{in_order-IsRange, empty_db}
use proton_carddav_sync.Tests.Notes.{
  ann, bob, short, text_of, note, note_parses, notes, notes-Prints,
}
use proton_carddav_sync.Tests.Notes.Codec.{notes-Reparses}
use proton_carddav_sync.Tests.Slots.{Slots, slots_syncer, sides, proton_side, carddav_side}
use proton_carddav_sync.Tests.Slots.Listed.{slots-ReadOnly, list_proton, list_carddav}
use proton_carddav_sync.Vcard.{fields_of}
use proton_carddav_sync.VcardSync.Strings.Settled.{IsSettled, Covers-refl, saved-IsSettled}
use proton_carddav_sync.VcardSync.Fields.Order.{fields_equal_refl}
use proton_carddav_sync.VcardSync.ThreeWay.{is_empty}

abbrev base_row : String → Row
base_row text = record {
  etag = "1";
  vcard_hash = "";
  proton_base = text;
  carddav_base = text;
  updated_at = 0;
}

-- Ann is on both sides, and Bob was deleted from Proton; the database fails later on.
abbrev together : World Slots Slots
together = record {
  proton = record { of_ann = some short; of_bob = none };
  carddav = record { of_ann = some short; of_bob = some short };
  db = record empty_db {
    contacts = ("ann", base_row (text_of ann short)) ∷ ("bob", base_row (text_of bob short)) ∷ [];
    faults = false ∷ true ∷ [];
  };
  cancels = [];
}

ann-IsSettled :
    IsSettled notes (text_of ann short) (text_of ann short) (text_of ann short) (text_of ann short)
unfolding fields_of is_empty string_eq
ann-IsSettled =
    saved-IsSettled notes _ _ _ (note ann short) (note ann short) (note ann short)
      (note_parses ann short) (note_parses ann short) (note_parses ann short)
      (Covers-refl (note ann short) refl) (λ n. fields_equal_refl _)

together_rows :
    (uid : String)
    → SettledRow slots_syncer
        (lookup uid (sides proton_side together.proton))
        (lookup uid (sides carddav_side together.carddav))
        (lookup uid together.db.contacts)
unfolding lookup
together_rows uid =
    rw (lookup-cons, lookup-nil)
      (elim (Bool-cases (uid == "ann")) [
        | inl here ↦ rw here (base_row (text_of ann short), refl, ann-IsSettled)
        | inr other ↦ elim (Bool-cases (uid == "bob")) [
          | inl here ↦ rw (other, here) (λ e. cc e)
          | inr none_else ↦ rw (other, none_else) tt
        ]
      ])

together-IsSettledWorld :
    IsSettledWorld slots_syncer
      (sides proton_side together.proton)
      (sides carddav_side together.carddav)
      together
together-IsSettledWorld = record {
  lists = record {
    proton = λ c d. list_proton together.proton c d;
    carddav = λ p d. list_carddav p together.carddav d;
  };
  rows = together_rows;
}

reconcile_settled_example :
    ((reconcile slots_syncer together).1.proton ≡ together.proton)
    × ((reconcile slots_syncer together).1.carddav ≡ together.carddav)
    × IsSettledWorld slots_syncer
        (sides proton_side together.proton)
        (sides carddav_side together.carddav)
        (reconcile slots_syncer together).1
reconcile_settled_example =
    reconcile_settled slots_syncer in_order-IsRange notes-Prints notes-Reparses slots-ReadOnly _ _
      together together-IsSettledWorld
