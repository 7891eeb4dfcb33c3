-- ===== src/Tests/AddressBook.antt =====
-- A client of a small server of contacts.
use proton_carddav_sync.Base.{
  ◌≡◌, ◌≢◌, true, false, ap, String, some, List, [], ◌∷◌, ◌==◌, string_eq, arith,
}
use proton_carddav_sync.Base.Dict.{Dict, lookup, insert, lookup-insert}
use proton_carddav_sync.Base.Result.{failure, ok, err}
use proton_carddav_sync.Carddav.Interface.{AddressObject}
use proton_carddav_sync.Carddav.Client.{Dav, Client, contact_path, put_contact}
use proton_carddav_sync.Carddav.Client.Path.{put_contact-other}
use proton_carddav_sync.Vcard.{Card}
use proton_carddav_sync.Tests.Fixtures.{small_syncer, card}

abbrev pub Shelf : Type 0
Shelf = Dict String Card

-- What a query of the address book gives.
abbrev pub shelf_objects : Shelf → List AddressObject
shelf_objects [] = []
shelf_objects ((path, c) ∷ b) = (record { path = path; etag = "1"; card = c }) ∷ shelf_objects b

abbrev pub small_dav : Dav
small_dav = record {
  State = Shelf;
  find_current_user_principal = λ b. (ok "/me", b);
  find_address_book_home_set = λ principal b. (ok "/books", b);
  find_address_books = λ home b. (ok ("/books/1/" ∷ []), b);
  query_address_book = λ path b. (ok (shelf_objects b), b);
  put_address_object = λ path c b. (ok tt, insert path c b);
  remove_all = λ path b. (err (failure "read only"), b);
}

abbrev pub book : Client
book = record { address_book = "/books/1/"; book_count = 1 }

abbrev pub shelf : Shelf
shelf = (contact_path "/books/1/" "ann", card "ann" "Ann") ∷ []

abbrev bob : String
bob = "bob"

bob_is_not_ann : bob ≢ "ann"
unfolding string_eq
bob_is_not_ann e = let same : false ≡ true = ap (λ s. s == "ann") e in cc same

ann_on_shelf : lookup (contact_path "/books/1/" "ann") shelf ≡ some (card "ann" "Ann")
unfolding lookup
ann_on_shelf = ground arith

abbrev HasAnn : Shelf → Type 0
HasAnn b = lookup (contact_path "/books/1/" "ann") b ≡ some (card "ann" "Ann")

put_contact-other_example :
    lookup
      (contact_path "/books/1/" "ann")
      (put_contact small_syncer.lib.codec small_dav book bob "bob" shelf).1
    ≡ some (card "ann" "Ann")
put_contact-other_example =
    put_contact-other small_syncer.lib.codec small_dav book "ann" HasAnn
      (λ path c b differs has.
        ground (arith, lookup-insert (contact_path "/books/1/" "ann") path c b, differs, has))
      bob "bob" bob_is_not_ann shelf ann_on_shelf
