-- ===== src/Carddav/Client.antt =====
-- internal/carddav/client.go, the client of an address book.
pub mod Path
use proton_carddav_sync.Base.{
  ◌≡◌, ℕ, String, ◌<>◌, List, [], ◌∷◌, ◌==◌, length, string_eq, if◌then◌else◌,
}
use proton_carddav_sync.Base.Result.{Error, failure, wrap, wrap_at, Result, ok, err, map_err}
use proton_carddav_sync.Base.Exec.{Exec, lift, within, ◌>>=◌, ◌>>◌}
use proton_carddav_sync.Carddav.Interface.{AddressObject, ContactsClient}
use proton_carddav_sync.Vcard.{Card, Codec}

-- The calls of github.com/emersion/go-webdav, over whatever state the server has. The query of
-- ListContacts, which asks for the objects that have a UID, is one of them.
pub record Dav : Type 1 where
  pub State : Type 0
  pub find_current_user_principal : Exec State String
  pub find_address_book_home_set : String → Exec State String
  -- the paths of the address books
  pub find_address_books : String → Exec State (List String)
  pub query_address_book : String → Exec State (List AddressObject)
  pub put_address_object : String → Card → Exec State (Unit {0})
  pub remove_all : String → Exec State (Unit {0})

-- `Client`, less the library's client
pub record Client : Type 0 where
  pub address_book : String
  pub book_count : ℕ

-- `ErrAddressBookNotFound`
abbrev pub address_book_not_found : Error
address_book_not_found = failure "no address book found on server"

unfoldable pub first_book : List String → Result Client
first_book [] = err address_book_not_found
first_book (path ∷ paths) = ok (record { address_book = path; book_count = length (path ∷ paths) })

-- `strings.TrimRight(s, "/")`
unfoldable pub trim_slashes : String → String
trim_slashes String.[] = ""
trim_slashes (String.◌∷◌ c s) =
    let rest = trim_slashes s in
    if rest == ""
    then if String.◌∷◌ c String.[] == "/" then "" else String.◌∷◌ c rest
    else String.◌∷◌ c rest

-- the path of PutContact
unfoldable pub contact_path : String → String → String
contact_path book uid = trim_slashes book <> "/" <> uid <> ".vcf"

module _ (codec : Codec) (dav : Dav) where
  -- `New`, after `carddav.NewClient`
  unfoldable pub new : Exec dav.State Client
  new = do
    principal ← within (wrap "find carddav principal") dav.find_current_user_principal
    home_set ← within (wrap "find address book home set") (dav.find_address_book_home_set principal)
    books ← within (wrap "find address books") (dav.find_address_books home_set)
    lift (first_book books)

  module _ (c : Client) where
    -- `Client.ListContacts`
    unfoldable pub list_contacts : Exec dav.State (List AddressObject)
    list_contacts = within (wrap "query address book") (dav.query_address_book c.address_book)

    -- `Client.PutContact`
    unfoldable pub put_contact : String → String → Exec dav.State (Unit {0})
    put_contact uid text = do
      card ← lift (map_err (wrap_at "parse vcard for" uid) (codec.parse text))
      within (wrap_at "put carddav contact" uid)
          (dav.put_address_object (contact_path c.address_book uid) card)

    -- `Client.DeleteContact`
    unfoldable pub delete_contact : String → Exec dav.State (Unit {0})
    delete_contact path = within (wrap_at "delete carddav contact at" path) (dav.remove_all path)

    -- `var _ ContactsClient = (*Client)(nil)`
    abbrev pub client : ContactsClient
    client = record {
      State = dav.State;
      list_contacts = list_contacts;
      put_contact = put_contact;
      delete_contact = delete_contact;
    }
