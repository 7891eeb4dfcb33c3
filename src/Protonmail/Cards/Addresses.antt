-- ===== src/Protonmail/Cards/Addresses.antt =====
-- internal/protonmail/contacts.go, buildContactCards: the UID and the addresses on the signed card.
use proton_carddav_sync.Base.{
  ◌≡◌, ◌⊎◌, inl, inr, refl, sym, ap, subst, ◌∙◌, String, true, false, Option, none, some, List, [],
  ◌∷◌, ◌==◌, string_eq, arith, if◌then◌else◌,
}
use proton_carddav_sync.Base.Dict.{Dict, NodupKeys, lookup, lookup-nil, lookup-cons}
use proton_carddav_sync.Vcard.{
  Field, Card, fields_of, set_value, plain, field_version, field_formatted_name, field_email,
  field_uid,
}
use proton_carddav_sync.Vcard.Laws.{fields_of-insert}
use proton_carddav_sync.Protonmail.Cards.Labels.{labels_by_group, set_email_type, drop_generic_type}
use proton_carddav_sync.Protonmail.Cards.{
  signed_field, route_one, route, derive_fn, with_fn, put_emails, given, GroupState, no_groups,
  pick_group, typed, consume, assign_groups, split_card, groups_used_except,
}
use proton_carddav_sync.Protonmail.Cards.Clear.{fields_of_empty}
use proton_carddav_sync.Protonmail.Cards.Kept.{get_or-nil}
use mathlib.Core.Option.{get_or, some_inj}

-- The values of a property, without groups and parameters.
unfoldable pub values : List Field → List String
values [] = []
values (f ∷ fs) = f.value ∷ values fs

given-some :
    {A B : Type 0} (o : Option A) (f : A → Option B) (b : B)
    → given o f ≡ some b
    → (a : A) × (o ≡ some a) × (f a ≡ some b)
given-some none f b h = cc h
given-some (some a) f b h = (a, refl, h)

module _ (others : List String) (labels : Dict String String) where
  value-typed : (f : Field) → (typed others labels f).value ≡ f.value
  unfolding typed set_email_type drop_generic_type
  value-typed f = ground arith

  values-assign_groups :
      (fs : List Field) (s : GroupState) (r : List Field × GroupState)
      → assign_groups others labels fs s ≡ some r
      → values r.0 ≡ values fs
  unfolding assign_groups values
  values-assign_groups [] s r h = cc h
  values-assign_groups (f ∷ fs) s r h =
      let ((g, counter), _, h2) =
        given-some (pick_group others f.group s.assigned s.counter) _ r h in
      let ((rest, s'), found, e) =
        given-some
          (assign_groups others labels fs (record {
            consumed = consume others labels f.group s.consumed;
            assigned = g ∷ s.assigned;
            counter = counter;
          }))
          _ r h2 in
      cc (e, value-typed f, values-assign_groups fs _ (rest, s') found)

signed_field-version : signed_field field_version ≡ false
unfolding signed_field string_eq
signed_field-version = refl

module _ (n : String) where
  fields_of-route_one :
      signed_field n ≡ true
      → (name : String) (fs : List Field) (s : Card × Card)
      → fields_of (route_one name fs s).0 n ≡ (if n == name then fs else fields_of s.0 n)
  unfolding route_one
  fields_of-route_one shown name fs (signed, encrypted) = ground (
    arith,
    fields_of-insert n name fs signed,
    λ (e : n ≡ name). ap signed_field e,
    signed_field-version,
  )

  fields_of-route :
      signed_field n ≡ true
      → (parsed : Card) (s : Card × Card) → NodupKeys parsed
      → fields_of (route parsed s).0 n ≡ get_or (lookup n parsed) (fields_of s.0 n)
  unfolding route
  fields_of-route shown [] s u = rw lookup-nil refl
  fields_of-route shown ((name, fs) ∷ parsed) s (fresh, u) =
      rw (fields_of-route shown parsed (route_one name fs s) u, lookup-cons)
        (ground (arith, fields_of-route_one shown name fs s))

  fields_of-version : signed_field n ≡ true → fields_of (set_value [] field_version "4.0") n ≡ []
  unfolding set_value
  fields_of-version shown =
      fields_of-insert n field_version (plain "4.0" ∷ []) []
      ∙ ground (
        arith,
        fields_of_empty n,
        signed_field-version,
        λ (e : n ≡ field_version). ap signed_field e,
      )

  fields_of-with_fn :
      (n == field_formatted_name) ≡ false
      → (parsed signed : Card) → fields_of (with_fn parsed signed) n ≡ fields_of signed n
  unfolding with_fn set_value
  fields_of-with_fn h parsed signed =
      ground (arith, fields_of-insert n field_formatted_name (plain (derive_fn parsed) ∷ []) signed)

values-put_emails :
    (n : String) (o : Option (List Field)) (emails : List Field) (named : Card)
    → values emails ≡ values (fields_of named field_email)
    → values (fields_of (put_emails o emails named) n) ≡ values (fields_of named n)
values-put_emails n none emails named h = refl
values-put_emails n (some fs) emails named h = ground (
  arith,
  h,
  fields_of-insert n field_email emails named,
  λ (e : n ≡ field_email). ap (λ k. values (fields_of named k)) e,
)

abbrev IsSignedValue : String → Type 0
IsSignedValue n = (signed_field n ≡ true) × ((n == field_formatted_name) ≡ false)

signed_not_name : (n : String) → (n ≡ field_uid) ⊎ (n ≡ field_email) → IsSignedValue n
unfolding signed_field string_eq
signed_not_name n (inl e) = subst IsSignedValue (sym e) (refl, refl)
signed_not_name n (inr e) = subst IsSignedValue (sym e) (refl, refl)

-- Of a vCard without repeated names, the signed card has the UID and the e-mails with their values, in
-- the order in which the vCard has them.
pub signed_card_keeps :
    (parsed : Card) (cards : Card × Card) (n : String)
    → split_card parsed ≡ some cards
    → NodupKeys parsed
    → (n ≡ field_uid) ⊎ (n ≡ field_email)
    → values (fields_of cards.0 n) ≡ values (fields_of parsed n)
unfolding split_card fields_of
signed_card_keeps parsed cards n h u named_so =
    let (shown, other) = signed_not_name n named_so in
    let empty = set_value [] field_version "4.0" in
    let routed = route parsed (empty, empty) in
    let named = with_fn parsed routed.0 in
    let ((emails, s), found, e) =
      given-some
        (assign_groups (groups_used_except parsed field_email []) (labels_by_group parsed)
          (fields_of named field_email) no_groups)
        _ cards h in
    ap (λ (c : Card × Card). values (fields_of c.0 n)) (sym (some_inj.0 e))
    ∙ values-put_emails n (lookup field_email named) emails named
        (values-assign_groups _ _ _ no_groups (emails, s) found)
    ∙ ap values (
        fields_of-with_fn n other parsed routed.0
        ∙ fields_of-route n shown parsed (empty, empty) u
        ∙ ap (get_or (lookup n parsed)) (fields_of-version n shown)
        ∙ get_or-nil (lookup n parsed))
