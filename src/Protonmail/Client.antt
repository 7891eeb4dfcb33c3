-- ===== src/Protonmail/Client.antt =====
-- internal/protonmail/contacts.go, the methods of the client of a Proton account.
pub mod Count
use proton_carddav_sync.Base.{
  ◌≡◌, ℕ, String, ◌<>◌, Bool, true, false, Option, none, some, List, [], ◌∷◌, ◌==◌, nat_eq,
  if◌then◌else◌,
}
use proton_carddav_sync.Base.Decimal.{decimal}
use proton_carddav_sync.Base.Result.{Error, failure, wrap, wrap_at, Result, ok, err, map_err}
use proton_carddav_sync.Base.Exec.{Exec, lift, within, ◌>>=◌, ◌>>◌}
use proton_carddav_sync.Protonmail.Cards.{ProtonCard, Keyring, build_contact_cards}
use proton_carddav_sync.Protonmail.Interface.{Contact, ContactsClient}
use proton_carddav_sync.Vcard.{Card, Codec}

-- One item of the answer to a `CreateContactsReq`.
pub record CreateResponse : Type 0 where
  pub code : ℕ
  pub message : String
  pub id : String

-- The calls of github.com/ProtonMail/go-proton-api, over whatever state the account has, and its
-- `Cards.Merge`.
pub record Api : Type 1 where
  pub State : Type 0
  pub get_all_contacts : Exec State (List Contact)
  pub get_contact : String → Exec State (List ProtonCard)
  pub create_contacts : List (List ProtonCard) → Exec State (List CreateResponse)
  pub update_contact : String → List ProtonCard → Exec State (Unit {0})
  pub delete_contacts : List String → Exec State (Unit {0})
  pub merge : Keyring → List ProtonCard → Result Card

-- `proton.SuccessCode`
abbrev pub success_code : ℕ
success_code = 1000

-- `ErrNotLoggedIn`
abbrev pub not_logged_in : Error
not_logged_in = failure "not logged in"

-- The loops of buildContactCards end on every vCard, so that the first clause is never taken.
abbrev pub built : Option (Result (List ProtonCard)) → Result (List ProtonCard)
built none = err (failure "")
built (some cards) = cards

-- The first item of the answer decides.
unfoldable pub created : List CreateResponse → Result String
created [] = err (failure "create proton contact: empty response")
created (r ∷ _) =
    if r.code == success_code
    then ok r.id
    else err
        (failure ("create proton contact rejected (code " <> decimal r.code <> "): " <> r.message))

-- The session of a client: none before it logs in, then its key ring.
module _ (codec : Codec) (api : Api) (session : Option Keyring) where
  -- `Client.Keyring`, and the test of `Client.Raw`
  unfoldable pub keyring : Result Keyring
  keyring = elim session [ none ↦ err not_logged_in | some ring ↦ ok ring ]

  -- `Client.buildCards`
  unfoldable pub build_cards : String → Result (List ProtonCard)
  build_cards vcard = elim keyring [
    | err e ↦ err e
    | ok ring ↦ built (build_contact_cards codec ring vcard)
  ]

  -- `Client.ListContacts`
  unfoldable pub list_contacts : Exec api.State (List Contact)
  list_contacts = do _ ← lift keyring; within (wrap "list proton contacts") api.get_all_contacts

  -- `Client.GetContactVCard`
  unfoldable pub get_contact_vcard : String → Exec api.State String
  get_contact_vcard id = do
    ring ← lift keyring
    cards ← within (wrap_at "get proton contact" id) (api.get_contact id)
    merged ← lift (map_err (wrap_at "decode contact cards" id) (api.merge ring cards))
    lift (map_err (wrap_at "encode contact vcard" id) (codec.print merged))

  -- `Client.CreateContact`
  unfoldable pub create_contact : String → Exec api.State String
  create_contact vcard = do
    _ ← lift keyring
    cards ← lift (build_cards vcard)
    responses ← within (wrap "create proton contact") (api.create_contacts (cards ∷ []))
    lift (created responses)

  -- `Client.UpdateContact`
  unfoldable pub update_contact : String → String → Exec api.State (Unit {0})
  update_contact id vcard = do
    _ ← lift keyring
    cards ← lift (build_cards vcard)
    within (wrap_at "update proton contact" id) (api.update_contact id cards)

  -- `Client.DeleteContact`
  unfoldable pub delete_contact : String → Exec api.State (Unit {0})
  delete_contact id = do
    _ ← lift keyring
    within (wrap_at "delete proton contact" id) (api.delete_contacts (id ∷ []))

  -- `var _ ContactsClient = (*Client)(nil)`
  abbrev pub client : ContactsClient
  client = record {
    State = api.State;
    list_contacts = list_contacts;
    get_contact_vcard = get_contact_vcard;
    create_contact = create_contact;
    update_contact = update_contact;
    delete_contact = delete_contact;
  }
