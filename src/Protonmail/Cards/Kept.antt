-- ===== src/Protonmail/Cards/Kept.antt =====
-- internal/protonmail/contacts.go, buildContactCards: the encrypted card.
use proton_carddav_sync.Base.{
  ◌≡◌, refl, ap, ◌∙◌, String, true, false, Option, none, some, List, [], ◌∷◌, ◌==◌, string_eq,
  arith, if◌then◌else◌,
}
use proton_carddav_sync.Base.Dict.{
  NodupKeys, lookup, keys, lookup-nil, lookup-cons, lookup-erase, erase,
}
use proton_carddav_sync.Base.Text.{equal_fold}
use proton_carddav_sync.Vcard.{
  Field, Card, fields_of, or_empty, set_value, field_version, field_email,
}
use proton_carddav_sync.Vcard.Laws.{fields_of-insert}
use proton_carddav_sync.Protonmail.Cards.Labels.{
  first_fold, label_key, outside, with_labels, remove_at, remove_labels,
}
use proton_carddav_sync.Protonmail.Cards.{
  signed_field, route_one, route, with_fn, put_emails, given, GroupState, split_card,
}
use proton_carddav_sync.Protonmail.Cards.Clear.{in_clear, fields_of-set_value, fields_of_empty}
use mathlib.Core.Option.{get_or}

pub get_or-nil : (o : Option (List Field)) → get_or o [] ≡ or_empty o
get_or-nil none = refl
get_or-nil (some fs) = refl

fields_of-erase :
    (n k : String) (card : Card)
    → fields_of (erase k card) n ≡ (if n == k then [] else fields_of card n)
unfolding fields_of
fields_of-erase n k card = rw (lookup-erase n k card) (ground arith)

first_fold-some :
    (names : List String) (k : String) → first_fold names ≡ some k → equal_fold k "X-ABLabel" ≡ true
unfolding first_fold
first_fold-some [] k h = ground arith
first_fold-some (name ∷ names) k h = ground (arith, first_fold-some names k)

module _ (n : String) where
  fields_of-route_one :
      in_clear n ≡ false
      → (name : String) (fs : List Field) (s : Card × Card)
      → fields_of (route_one name fs s).1 n ≡ (if n == name then fs else fields_of s.1 n)
  unfolding route_one signed_field
  fields_of-route_one hidden name fs (signed, encrypted) =
      ground (arith, fields_of-insert n name fs encrypted, λ (e : n ≡ name). ap in_clear e)

  fields_of-route :
      in_clear n ≡ false
      → (parsed : Card) (s : Card × Card) → NodupKeys parsed
      → fields_of (route parsed s).1 n ≡ get_or (lookup n parsed) (fields_of s.1 n)
  unfolding route
  fields_of-route hidden [] s u = rw lookup-nil refl
  fields_of-route hidden ((name, fs) ∷ parsed) s (fresh, u) =
      rw (fields_of-route hidden parsed (route_one name fs s) u, lookup-cons)
        (ground (arith, fields_of-route_one hidden name fs s))

  module _ (kept : equal_fold n "X-ABLabel" ≡ false) where
    fields_of-with_labels :
        (key : String) (fs : List Field) (card : Card)
        → equal_fold key "X-ABLabel" ≡ true
        → fields_of (with_labels key fs card) n ≡ fields_of card n
    fields_of-with_labels key [] card h =
        ground
          (arith, fields_of-erase n key card, λ (e : n ≡ key). ap (λ k. equal_fold k "X-ABLabel") e)
    fields_of-with_labels key (f ∷ fs) card h = ground (
      arith,
      fields_of-insert n key (f ∷ fs) card,
      λ (e : n ≡ key). ap (λ k. equal_fold k "X-ABLabel") e,
    )

    fields_of-remove_at :
        (card : Card) (groups : List String) (o : Option String)
        → ((k : String) → o ≡ some k → equal_fold k "X-ABLabel" ≡ true)
        → fields_of (remove_at card groups o) n ≡ fields_of card n
    fields_of-remove_at card groups none h = refl
    fields_of-remove_at card groups (some key) h =
        fields_of-with_labels key (outside groups (fields_of card key)) card (h key refl)

    fields_of-remove_labels :
        (card : Card) (groups : List String)
        → fields_of (remove_labels card groups) n ≡ fields_of card n
    unfolding remove_labels label_key
    fields_of-remove_labels card [] = refl
    fields_of-remove_labels card (g ∷ gs) =
        fields_of-remove_at card (g ∷ gs) (label_key card) (first_fold-some (keys card))

    fields_of-cards :
        (named : Card) (o : Option (List Field × GroupState)) (encrypted : Card)
        (cards : Card × Card)
        → given o (λ (emails, s).
          some (
            put_emails (lookup field_email named) emails named,
            remove_labels encrypted s.consumed,
          ))
          ≡ some cards
        → fields_of cards.1 n ≡ fields_of encrypted n
    fields_of-cards named none encrypted cards h = cc h
    fields_of-cards named (some (emails, s)) encrypted cards h =
        cc (h, fields_of-remove_labels encrypted s.consumed)

-- A property that may not stand in clear, and is not a label (X-ABLabel), is on the encrypted card as
-- the vCard has it, where the vCard has no repeated names.
pub encrypted_card_keeps :
    (parsed : Card) (cards : Card × Card) (n : String)
    → split_card parsed ≡ some cards
    → NodupKeys parsed
    → in_clear n ≡ false
    → equal_fold n "X-ABLabel" ≡ false
    → fields_of cards.1 n ≡ fields_of parsed n
unfolding split_card string_eq fields_of
encrypted_card_keeps parsed cards n h u hidden kept =
    let empty = set_value [] field_version "4.0" in
    let routed = route parsed (empty, empty) in
    fields_of-cards n kept (with_fn parsed routed.0) _ routed.1 cards h
    ∙ fields_of-route n hidden parsed (empty, empty) u
    ∙ ap (get_or (lookup n parsed))
        (fields_of-set_value n hidden [] field_version "4.0" refl ∙ fields_of_empty n)
    ∙ get_or-nil (lookup n parsed)
