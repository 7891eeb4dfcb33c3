-- ===== src/Tests/Slots.antt =====
-- Two accounts with a place for Ann and one for Bob.
pub mod Listed
use proton_carddav_sync.Base.{
  ◌≡◌, refl, sym, subst, String, Bool, true, false, Option, none, some, List, [], ◌∷◌, ◌==◌,
  string_eq, arith, Bool-cases, inl, inr, if◌then◌else◌,
}
use proton_carddav_sync.Base.Dict.{lookup, lookup-cons, lookup-nil}
use proton_carddav_sync.Base.Result.{failure, Result, ok, err}
use proton_carddav_sync.Base.Exec.{Exec}
use proton_carddav_sync.Carddav.Interface.{AddressObject, ContactsClient as CarddavClient}
use proton_carddav_sync.Protonmail.Interface.{Contact, ContactsClient as ProtonClient}
use proton_carddav_sync.Syncer.{Syncer, ContactSide, direction_both}
use proton_carddav_sync.Syncer.Index.{Sides}
use proton_carddav_sync.Tests.Notes.{
  Who, nobody, ann, bob, Name, uid_of, name_of, note, text_of, notes, read,
}
use proton_carddav_sync.VcardSync.Strings.{prefer_newer}

pub record Slots : Type 0 where
  pub of_ann : Option Name
  pub of_bob : Option Name

abbrev pub slot_text : Who → Option Name → Result String
slot_text u none = err (failure "no such contact")
slot_text u (some f) = ok (text_of u f)

abbrev pub fill : Who → Name → Slots → Result String × Slots
fill nobody f p = (err (failure "no UID"), p)
fill ann f p = (ok "ann", record p { of_ann = some f })
fill bob f p = (ok "bob", record p { of_bob = some f })

abbrev pub fill_read : Option (Who × Name) → Slots → Result String × Slots
fill_read none p = (err (failure "vcard"), p)
fill_read (some (u, f)) p = fill u f p

unfoldable pub write : String → Exec Slots String
write text p = fill_read (read text) p

abbrev pub done : Result String → Result (Unit {0})
done (ok id) = ok tt
done (err e) = err e

abbrev pub entry {ℓ} : {A : Type ℓ} → (Who → Name → A) → Who → Option Name → List A → List A
entry make u none rest = rest
entry make u (some f) rest = make u f ∷ rest

abbrev pub entries {ℓ} : {A : Type ℓ} → (Who → Name → A) → Slots → List A
entries make p = entry make ann p.of_ann (entry make bob p.of_bob [])

abbrev pub contact : Who → Name → Contact
contact u f = record { id = uid_of u; name = "contact"; uid = uid_of u }

abbrev pub object : Who → Name → AddressObject
object u f = record { path = uid_of u; etag = "1"; card = note u f }

abbrev pub slots_proton : ProtonClient
slots_proton = record {
  State = Slots;
  list_contacts = λ p. (ok (entries contact p), p);
  get_contact_vcard = λ id p. (
    if id == "ann"
        then slot_text ann p.of_ann
        else if id == "bob"
        then slot_text bob p.of_bob
        else err (failure "no such contact"),
    p,
  );
  create_contact = write;
  update_contact = λ id text p. let (r, q) = write text p in (done r, q);
  delete_contact = λ id p. (err (failure "read only"), p);
}

abbrev pub slots_carddav : CarddavClient
slots_carddav = record {
  State = Slots;
  list_contacts = λ p. (ok (entries object p), p);
  put_contact = λ uid text p. let (r, q) = write text p in (done r, q);
  delete_contact = λ path p. (err (failure "read only"), p);
}

abbrev pub slots_syncer : Syncer
slots_syncer = record {
  lib = notes;
  proton = slots_proton;
  carddav = slots_carddav;
  dir = direction_both;
  policy = prefer_newer;
  max_new_proton = 0;
}

abbrev pub proton_side : Who → Name → ContactSide
proton_side u f = record { id = uid_of u; etag = ""; vcard = text_of u f; name = "contact" }

abbrev pub carddav_side : Who → Name → ContactSide
carddav_side u f = record { id = ""; etag = "1"; vcard = text_of u f; name = name_of f }

abbrev pub sides : (Who → Name → ContactSide) → Slots → Sides
sides side p = entries (λ u f. (uid_of u, side u f)) p
