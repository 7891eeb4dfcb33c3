-- ===== src/Tests/Fixtures.antt =====
-- A small codec, two small servers and a database to run the model on.
use mathlib.Core.List.Perm.{refl as Perm_refl}
use proton_carddav_sync.Base.{
  ◌≡◌, refl, String, ◌<>◌, Bool, true, false, none, List, [], ◌∷◌, ◌==◌, string_eq, length, arith,
  if◌then◌else◌,
}
use proton_carddav_sync.Base.Range.{IsRange}
use proton_carddav_sync.Base.Result.{failure, Result, ok, err}
use proton_carddav_sync.Base.Exec.{Exec}
use proton_carddav_sync.Carddav.Interface.{AddressObject, ContactsClient as CarddavClient}
use proton_carddav_sync.Db.{Db}
use proton_carddav_sync.Library.{Library, Prints}
use proton_carddav_sync.Protonmail.Interface.{Contact, ContactsClient as ProtonClient}
use proton_carddav_sync.Syncer.{Syncer, World, direction_both}
use proton_carddav_sync.Syncer.Reconcile.Count.{IsCount}
use proton_carddav_sync.Vcard.{Field, Card, plain, fields_of, field_version}
use proton_carddav_sync.VcardSync.Strings.{prefer_newer}
use proton_carddav_sync.VcardSync.ThreeWay.{is_empty}

-- `range` in the order of the list.
abbrev pub in_order : List String → List String
in_order names = names

pub in_order-IsRange : IsRange in_order
in_order-IsRange = record { visits = λ l. Perm_refl l }

abbrev pub card : String → String → Card
card uid name =
    ("VERSION", plain "4.0" ∷ []) ∷ ("UID", plain uid ∷ []) ∷ ("FN", plain name ∷ []) ∷ []

-- A codec for four texts. Printing fails for a card without VERSION, and only then.
abbrev pub small_parse : String → Result Card
small_parse text =
    if text == "ann"
    then ok (card "ann" "Ann")
    else if text == "anna"
    then ok (card "ann" "Anna")
    else if text == "bob"
    then ok (card "bob" "Bob")
    else if text == "cy"
    then ok (card "cy" "Cy")
    else err (failure "vcard")

abbrev pub name_of : List Field → String
name_of [] = ""
name_of (f ∷ fs) = f.value

abbrev pub small_text : String → String
small_text name =
    if name == "Ann"
    then "ann"
    else if name == "Anna"
    then "anna"
    else if name == "Bob"
    then "bob"
    else "cy"

abbrev pub small_print : Card → Result String
small_print c =
    if is_empty (fields_of c field_version)
    then err (failure "vcard: VERSION missing")
    else ok (small_text (name_of (fields_of c "FN")))

abbrev pub small_library : Library
small_library = record {
  codec = record { parse = small_parse; print = small_print };
  visit = in_order;
  digest = λ text. "sha256:" <> text;
}

pub small_library-Prints : Prints small_library
small_library-Prints = record {
  print-ok = λ c h. (small_text (name_of (fields_of c "FN")), rw h refl);
}

-- An account: contacts by id.
abbrev pub Account : Type 0
Account = List (String × String)

abbrev pub account_contacts : Account → List Contact
account_contacts [] = []
account_contacts ((id, text) ∷ rest) =
    (record { id = id; name = ""; uid = "" }) ∷ account_contacts rest

abbrev pub account_get : String → Account → Result String
account_get id [] = err (failure "no such contact")
account_get id ((other, text) ∷ rest) =
    let found = account_get id rest in if id == other then ok text else found

abbrev pub account_has : String → Account → Bool
account_has id [] = false
account_has id ((other, text) ∷ rest) =
    let found = account_has id rest in if id == other then true else found

abbrev pub account_set : String → String → Account → Account
account_set id text [] = []
account_set id text ((other, old) ∷ rest) =
    let rest' = account_set id text rest in (other, if id == other then text else old) ∷ rest'

abbrev pub account_update : String → String → Exec Account (Unit {0})
account_update id text a =
    (if account_has id a then ok tt else err (failure "no such contact"), account_set id text a)

abbrev pub small_proton : ProtonClient
small_proton = record {
  State = Account;
  list_contacts = λ a. (ok (account_contacts a), a);
  get_contact_vcard = λ id a. (account_get id a, a);
  create_contact = λ text a. (ok ("id-" <> text), ("id-" <> text, text) ∷ a);
  update_contact = account_update;
  delete_contact = λ id a. (err (failure "read only"), a);
}

abbrev pub Book : Type 0
Book = List AddressObject

abbrev pub object : String → String → String → AddressObject
object path uid name = record { path = path; etag = "1"; card = card uid name }

abbrev pub small_carddav : CarddavClient
small_carddav = record {
  State = Book;
  list_contacts = λ b. (ok b, b);
  put_contact = λ uid text b. (ok tt, object uid uid text ∷ b);
  delete_contact = λ path b. (err (failure "read only"), b);
}

abbrev pub small_syncer : Syncer
small_syncer = record {
  lib = small_library;
  proton = small_proton;
  carddav = small_carddav;
  dir = direction_both;
  policy = prefer_newer;
  max_new_proton = 1;
}

length-account_set : (id text : String) (a : Account) → length (account_set id text a) ≡ length a
length-account_set id text [] = refl
length-account_set id text (_ ∷ rest) = omega (arith, length-account_set id text rest)

pub length-IsCount : IsCount small_syncer length
length-IsCount = record {
  list = λ p. omega arith;
  fetch = λ id p. omega arith;
  update = λ id v p. omega (arith, length-account_set id v p);
  create = λ v p. omega arith;
  create_failed = λ v p e h. cc h;
}

abbrev pub empty_db : Db
empty_db = record { contacts = []; credentials = none; faults = [] }

abbrev pub start_world : World Account Book
start_world = record {
  proton = ("id-ann", "ann") ∷ [];
  carddav = object "/bob" "bob" "Bob" ∷ object "/cy" "cy" "Cy" ∷ [];
  db = empty_db;
  cancels = [];
}
