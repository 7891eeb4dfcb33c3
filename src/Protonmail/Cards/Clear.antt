-- ===== src/Protonmail/Cards/Clear.antt =====
-- internal/protonmail/contacts.go, buildContactCards: the signed card, which is not encrypted.
use proton_carddav_sync.Base.{
  ◌≡◌, refl, ap, ◌∙◌, String, Bool, true, false, ◌||◌, Option, none, some, List, [], ◌∷◌, ◌==◌,
  string_eq, arith,
}
use proton_carddav_sync.Base.Dict.{lookup}
use proton_carddav_sync.Vcard.{
  Field, Card, fields_of, set_value, plain, field_version, field_formatted_name, field_uid,
  field_email,
}
use proton_carddav_sync.Vcard.Laws.{fields_of-insert}
use proton_carddav_sync.Protonmail.Cards.Labels.{remove_labels}
use proton_carddav_sync.Protonmail.Cards.{
  signed_field, route_one, route, derive_fn, with_fn, put_emails, given, GroupState, split_card,
}

-- The properties that may stand in clear.
abbrev pub in_clear : String → Bool
in_clear n = n == field_version || n == field_formatted_name || n == field_uid || n == field_email

pub fields_of_empty : (n : String) → fields_of [] n ≡ []
unfolding fields_of lookup
fields_of_empty n = refl

module _ (n : String) (hidden : in_clear n ≡ false) where
  fields_of-route_one :
      (name : String) (fs : List Field) (s : Card × Card)
      → fields_of (route_one name fs s).0 n ≡ fields_of s.0 n
  unfolding route_one signed_field
  fields_of-route_one name fs (signed, encrypted) =
      ground (arith, fields_of-insert n name fs signed, λ (e : n ≡ name). ap in_clear e)

  fields_of-route :
      (parsed : Card) (s : Card × Card) → fields_of (route parsed s).0 n ≡ fields_of s.0 n
  unfolding route
  fields_of-route [] s = refl
  fields_of-route ((name, fs) ∷ parsed) s =
      fields_of-route parsed (route_one name fs s) ∙ fields_of-route_one name fs s

  pub fields_of-set_value :
      (card : Card) (k v : String)
      → in_clear k ≡ true
      → fields_of (set_value card k v) n ≡ fields_of card n
  unfolding set_value
  fields_of-set_value card k v h =
      fields_of-insert n k (plain v ∷ []) card ∙ ground (arith, λ (e : n ≡ k). ap in_clear e)

  fields_of-with_fn :
      (parsed signed : Card) → fields_of (with_fn parsed signed) n ≡ fields_of signed n
  unfolding with_fn signed_field
  fields_of-with_fn parsed signed =
      ground (arith, fields_of-set_value signed field_formatted_name (derive_fn parsed))

  fields_of-put_emails :
      (o : Option (List Field)) (emails : List Field) (card : Card)
      → fields_of (put_emails o emails card) n ≡ fields_of card n
  unfolding signed_field
  fields_of-put_emails none emails card = refl
  fields_of-put_emails (some fs) emails card =
      fields_of-insert n field_email emails card ∙ ground arith

  fields_of-cards :
      (parsed named : Card) (o : Option (List Field × GroupState)) (encrypted : Card)
      (cards : Card × Card)
      → given o (λ (emails, s).
        some
          (put_emails (lookup field_email named) emails named, remove_labels encrypted s.consumed))
        ≡ some cards
      → fields_of cards.0 n ≡ fields_of named n
  fields_of-cards parsed named none encrypted cards h = cc h
  fields_of-cards parsed named (some (emails, s)) encrypted cards h =
      cc (h, fields_of-put_emails (lookup field_email named) emails named)

-- The signed card, which anyone can read, shows nothing but VERSION, FN, UID and EMAIL: every other
-- property of the vCard is left off it.
pub signed_card_clear :
    (parsed : Card) (cards : Card × Card) (n : String)
    → split_card parsed ≡ some cards
    → in_clear n ≡ false
    → fields_of cards.0 n ≡ []
unfolding split_card string_eq
signed_card_clear parsed cards n h hidden =
    let empty = set_value [] field_version "4.0" in
    let routed = route parsed (empty, empty) in
    fields_of-cards n hidden parsed (with_fn parsed routed.0) _ routed.1 cards h
    ∙ fields_of-with_fn n hidden parsed routed.0
    ∙ fields_of-route n hidden parsed (empty, empty)
    ∙ fields_of-set_value n hidden [] field_version "4.0" refl
    ∙ fields_of_empty n
