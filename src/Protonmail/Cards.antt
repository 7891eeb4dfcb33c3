-- ===== src/Protonmail/Cards.antt =====
-- internal/protonmail/contacts.go, buildContactCards: a vCard as the two cards that Proton wants, one
-- signed in clear and one encrypted.
pub mod Labels
pub mod Groups
pub mod Clear
pub mod Kept
pub mod Addresses
use proton_carddav_sync.Base.{
  ℕ, zero, suc, ◌+◌, String, ◌<>◌, Bool, true, false, ◌&&◌, ◌||◌, not, Option, none, some, List, [],
  ◌∷◌, ◌==◌, contains, length, string_eq, if◌then◌else◌,
}
use proton_carddav_sync.Base.Decimal.{decimal}
use proton_carddav_sync.Base.Dict.{Dict, lookup, insert}
use proton_carddav_sync.Base.Range.{add_key}
use proton_carddav_sync.Base.Result.{Error, failure, wrap, Result, ok, err, ◌>>=◌, map_err}
use proton_carddav_sync.Base.Text.{trim_text, replace_char}
use proton_carddav_sync.Protonmail.Cards.Labels.{
  labels_by_group, remove_labels, set_email_type, drop_generic_type,
}
use proton_carddav_sync.Vcard.{
  Field, Card, Codec, plain, fields_of, value, set_value, field_version, field_uid,
  field_formatted_name, field_name, field_email,
}
use mathlib.Core.Option.{get_or}

-- `signedFields[name]`
unfoldable pub signed_field : String → Bool
signed_field name = name == field_formatted_name || name == field_uid || name == field_email

abbrev pub given : {A B : Type 0} → Option A → (A → Option B) → Option B
given none f = none
given (some a) f = f a

-- The body of the loop that routes each property to the signed card or to the encrypted one.
unfoldable pub route_one : String → List Field → Card × Card → Card × Card
unfolding signed_field
route_one name fields (signed, encrypted) =
    if name == field_version
    then (signed, encrypted)
    else if signed_field name
    then (insert name fields signed, encrypted)
    else (signed, insert name fields encrypted)

unfoldable pub route : Card → Card × Card → Card × Card
unfolding route_one
route [] s = s
route ((name, fields) ∷ parsed) s = route parsed (route_one name fields s)

-- `deriveFN`
unfoldable pub derive_fn : Card → String
derive_fn card =
    if value card field_name == ""
    then "Unknown"
    else trim_text (replace_char ";" " " (value card field_name))

unfoldable pub with_fn : Card → Card → Card
with_fn parsed signed =
    if value signed field_formatted_name == ""
    then set_value signed field_formatted_name (derive_fn parsed)
    else signed

unfoldable pub field_groups : List Field → List String → List String
field_groups [] out = out
field_groups (f ∷ fs) out = field_groups fs (if f.group == "" then out else add_key f.group out)

-- `groupsUsedExcept`
unfoldable pub groups_used_except : Card → String → List String → List String
groups_used_except [] except out = out
groups_used_except ((name, fields) ∷ card) except out =
    groups_used_except card except (if name == except then out else field_groups fields out)

-- `fmt.Sprintf("item%d", counter)`
unfoldable pub item : ℕ → String
item counter = String.◌∷◌ "i" (String.◌∷◌ "t" (String.◌∷◌ "e" (String.◌∷◌ "m" (decimal counter))))

-- What the loop over the e-mails keeps.
pub record GroupState : Type 0 where
  pub consumed : List String
  pub assigned : List String
  pub counter : ℕ

-- A group that an e-mail may not have: one of another property, or of an earlier e-mail.
abbrev pub taken : List String → List String → String → Bool
taken others assigned g = contains others g || contains assigned g

module _ (others : List String) where
  -- The inner loop, on fuel: the next free group, with the counter after it.
  unfoldable pub next_group : (fuel : ℕ) → List String → ℕ → Option (String × ℕ)
  next_group zero assigned counter = none
  next_group (suc fuel) assigned counter =
      let later = next_group fuel assigned (counter + 1) in
      if taken others assigned (item counter) then later else some (item counter, counter + 1)

  -- As many rounds as there are groups to avoid, and one more.
  abbrev pub rounds : List String → ℕ
  rounds assigned = suc (length others + length assigned)

  -- The group of one e-mail.
  unfoldable pub pick_group : String → List String → ℕ → Option (String × ℕ)
  pick_group orig assigned counter =
      if orig == "" || taken others assigned orig
      then next_group (rounds assigned) assigned counter
      else some (orig, counter)

  module _ (labels : Dict String String) where
    -- The label of its group goes into the TYPE of an e-mail.
    unfoldable pub typed : Field → Field
    typed f =
        let label = get_or (lookup f.group labels) "" in
        if label == "" then drop_generic_type f else set_email_type f label

    unfoldable pub consume : String → List String → List String
    consume group consumed =
        if get_or (lookup group labels) "" == "" then consumed else add_key group consumed

    -- The loop over the e-mails; `none` where the fuel of the inner loop runs out.
    unfoldable pub assign_groups : List Field → GroupState → Option (List Field × GroupState)
    assign_groups [] s = some ([], s)
    assign_groups (f ∷ fs) s = given (pick_group f.group s.assigned s.counter) λ (g, counter).
        given
          (assign_groups fs (record {
            consumed = consume f.group s.consumed;
            assigned = g ∷ s.assigned;
            counter = counter;
          }))
          λ (rest, s'). some ((record (typed f) { group = g }) ∷ rest, s')

abbrev pub no_groups : GroupState
no_groups = record { consumed = []; assigned = []; counter = 1 }

-- `signed[EMAIL]` after the loop, which changes the fields in place.
abbrev pub put_emails : Option (List Field) → List Field → Card → Card
put_emails none emails signed = signed
put_emails (some _) emails signed = insert field_email emails signed

-- The two cards before they are printed, signed first.
unfoldable pub split_card : Card → Option (Card × Card)
split_card parsed =
    let empty = set_value [] field_version "4.0" in
    let (signed, encrypted) = route parsed (empty, empty) in
    let named = with_fn parsed signed in
    let others = groups_used_except parsed field_email [] in
    given (assign_groups others (labels_by_group parsed) (fields_of named field_email) no_groups)
      λ (emails, s).
        some
          (put_emails (lookup field_email named) emails named, remove_labels encrypted s.consumed)

-- A `proton.Card`: a signature in armor, and the data in clear or encrypted.
pub record ProtonCard : Type 0 where
  pub encrypted : Bool
  pub data_text : String
  pub signature : String

-- The key ring of github.com/ProtonMail/gopenpgp: a text to its armored detached signature, and to
-- its armored encryption.
pub record Keyring : Type 0 where
  pub sign : String → Result String
  pub encrypt : String → Result String

module _ (codec : Codec) (ring : Keyring) where
  -- `encodeCard`
  unfoldable pub encode_card : Card → Result String
  encode_card card = map_err (wrap "encode card vcard") (codec.print card)

  -- `newSignedCard`
  unfoldable pub new_signed_card : String → Bool → Result ProtonCard
  new_signed_card text true = do
    signature ← map_err (wrap "sign card") (ring.sign text)
    armored ← map_err (wrap "encrypt card") (ring.encrypt text)
    ok (record { encrypted = true; data_text = armored; signature = signature })
  new_signed_card text false = do
    signature ← map_err (wrap "sign card") (ring.sign text)
    ok (record { encrypted = false; data_text = text; signature = signature })

  -- What follows the splitting: printing and signing, the encrypted card first in the result.
  unfoldable pub seal_cards : Card × Card → Result (List ProtonCard)
  seal_cards (signed, encrypted) = do
    signed_data ← encode_card signed
    encrypted_data ← encode_card encrypted
    signed_card ← map_err (wrap "build signed card") (new_signed_card signed_data false)
    encrypted_card ← map_err (wrap "build encrypted card") (new_signed_card encrypted_data true)
    ok (encrypted_card ∷ signed_card ∷ [])

  -- `buildContactCards`; `none` where the fuel runs out.
  unfoldable pub build_contact_cards : String → Option (Result (List ProtonCard))
  build_contact_cards text = elim (codec.parse text) [
    | err e ↦ some (err (wrap "parse vcard" e))
    | ok parsed ↦ elim (split_card parsed) [ none ↦ none | some cards ↦ some (seal_cards cards) ]
  ]
