-- ===== src/Tests/Cards.antt =====
-- A vCard with two e-mails that share a group with a phone number.
use proton_carddav_sync.Base.{◌≡◌, refl, inr, String, some, [], ◌∷◌, string_eq, nat_eq}
use proton_carddav_sync.Base.Decimal.{decimal, digits_before, with_digit}
use proton_carddav_sync.Base.Dict.{lookup}
use proton_carddav_sync.Base.Text.{equal_fold}
use proton_carddav_sync.Vcard.{Field, Card, plain, fields_of, field_email}
use proton_carddav_sync.Protonmail.Cards.{signed_field, split_card, item}
use proton_carddav_sync.Protonmail.Cards.Clear.{signed_card_clear}
use proton_carddav_sync.Protonmail.Cards.Kept.{encrypted_card_keeps}
use proton_carddav_sync.Protonmail.Cards.Addresses.{values, signed_card_keeps}
use proton_carddav_sync.Protonmail.Cards.Groups.{Unique, split_card_unique}

abbrev grouped : String → String → Field
grouped group v = record { value = v; params = ("TYPE", "INTERNET" ∷ []) ∷ []; group = group }

abbrev eve : Card
eve =
    ("FN", plain "Eve" ∷ [])
    ∷ ("TEL", grouped "item1" "123" ∷ [])
    ∷ ("EMAIL", grouped "item1" "eve@a" ∷ grouped "" "eve@b" ∷ grouped "item4" "eve@c" ∷ [])
    ∷ ("NOTE", plain "secret" ∷ [])
    ∷ []

split_card_unique_example :
    (cards : Card × Card) × (split_card eve ≡ some cards)
    × Unique eve [] (fields_of cards.0 field_email)
split_card_unique_example = split_card_unique eve

twelfth_item : item 12 ≡ "item12"
unfolding item decimal digits_before with_digit nat_eq
twelfth_item = refl

signed_card_clear_example : fields_of (split_card_unique eve).0.0 "NOTE" ≡ []
unfolding string_eq
signed_card_clear_example =
    signed_card_clear eve (split_card_unique eve).0 "NOTE" (split_card_unique eve).1 refl

encrypted_card_keeps_example : fields_of (split_card_unique eve).0.1 "NOTE" ≡ fields_of eve "NOTE"
unfolding string_eq lookup equal_fold nat_eq
encrypted_card_keeps_example =
    encrypted_card_keeps eve (split_card_unique eve).0 "NOTE" (split_card_unique eve).1
      (refl, (refl, (refl, (refl, tt)))) refl refl

signed_card_keeps_example :
    values (fields_of (split_card_unique eve).0.0 "EMAIL") ≡ values (fields_of eve "EMAIL")
unfolding string_eq lookup signed_field
signed_card_keeps_example =
    signed_card_keeps eve (split_card_unique eve).0 "EMAIL" (split_card_unique eve).1
      (refl, (refl, (refl, (refl, tt)))) (inr refl)
