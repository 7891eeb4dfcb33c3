-- ===== src/Protonmail/Cards/Groups.antt =====
-- internal/protonmail/contacts.go, buildContactCards: the loop over the e-mails.
use proton_carddav_sync.Base.{
  ◌≡◌, ◌≢◌, refl, sym, ap, ◌∙◌, ◌||◌, All, inl, inr, ℕ, zero, suc, ◌+◌, ◌≤◌, ◌<◌, String, true,
  false, Option, none, some, List, [], ◌∷◌, ◌++◌, ◌==◌, contains, length, length-append, string_eq,
  arith, if◌then◌else◌, Bool-cases,
}
use proton_carddav_sync.Base.Decimal.{decimal_inj}
use proton_carddav_sync.Base.Dict.{Dict, lookup}
use proton_carddav_sync.Base.Range.{contains-append, add_key, contains-add_key}
use proton_carddav_sync.Vcard.{Field, Card, fields_of, set_value, field_version, field_email}
use proton_carddav_sync.Vcard.Laws.{fields_of-insert}
use proton_carddav_sync.Protonmail.Cards.Labels.{labels_by_group, remove_labels}
use proton_carddav_sync.Protonmail.Cards.{
  item, taken, next_group, rounds, pick_group, typed, consume, assign_groups, GroupState, no_groups,
  split_card, put_emails, route, with_fn, groups_used_except, field_groups,
}

abbrev remove : String → List String → List String
remove k [] = []
remove k (x ∷ xs) = let rest = remove k xs in if k == x then rest else x ∷ rest

length-remove_le : (k : String) (xs : List String) → length (remove k xs) ≤ length xs
length-remove_le k [] = omega arith
length-remove_le k (x ∷ xs) = ground (arith, length-remove_le k xs)

length-remove_lt :
    (k : String) (xs : List String) → contains xs k ≡ true → length (remove k xs) < length xs
length-remove_lt k [] h = cc h
length-remove_lt k (x ∷ xs) h = ground (arith, length-remove_le k xs, length-remove_lt k xs)

contains-remove :
    (k j : String) (xs : List String) → (j == k) ≡ false → contains (remove k xs) j ≡ contains xs j
contains-remove k j [] h = refl
contains-remove k j (x ∷ xs) h = ground (arith, contains-remove k j xs)

rest_of : String → String
rest_of String.[] = ""
rest_of (String.◌∷◌ c s) = s

item_inj : (a b : ℕ) → item a ≡ item b → a ≡ b
unfolding item rest_of
item_inj a b h = decimal_inj a b (ap (λ s. rest_of (rest_of (rest_of (rest_of s)))) h)

item-differs : (a b : ℕ) → a < b → (item b == item a) ≡ false
item-differs a b h = ground (arith, item_inj b a)

item-nonempty : (n : ℕ) → item n ≢ ""
unfolding item
item-nonempty n h = cc h

some_of : {A : Type 0} (o : Option A) → o ≢ none → (a : A) × (o ≡ some a)
some_of none h = absurd (h refl)
some_of (some a) h = (a, refl)

module _ (others assigned : List String) where
  next_group-found :
      (fuel counter : ℕ) (avoid : List String)
      → length avoid < fuel
      → ((j : ℕ)
          → counter ≤ j
          → taken others assigned (item j) ≡ true
          → contains avoid (item j) ≡ true)
      → next_group others fuel assigned counter ≢ none
  unfolding next_group
  next_group-found zero counter avoid h all = absurd (omega arith)
  next_group-found (suc fuel) counter avoid h all =
      elim (Bool-cases (taken others assigned (item counter))) [
        | inl busy ↦ rw busy (
            next_group-found fuel (counter + 1) (remove (item counter) avoid)
              (omega
                (arith, length-remove_lt (item counter) avoid (all counter (omega arith) busy)))
              (λ j le t.
                contains-remove (item counter) (item j) avoid (item-differs counter j (omega arith))
                ∙ all j (omega arith) t))
        | inr free ↦ rw free (λ e. cc e)
      ]

  next_group-free :
      (fuel counter : ℕ) (g : String) (after : ℕ)
      → next_group others fuel assigned counter ≡ some (g, after)
      → (taken others assigned g ≡ false) × (g ≢ "")
  unfolding next_group
  next_group-free zero counter g after h = cc h
  next_group-free (suc fuel) counter g after h = ground (
    arith,
    next_group-free fuel (counter + 1) g after,
    item-nonempty counter,
    λ (e : item counter ≡ g). ap (taken others assigned) e,
  )

  -- The inner loop ends within its rounds.
  next_group-ends :
      (counter : ℕ) → next_group others (rounds others assigned) assigned counter ≢ none
  next_group-ends counter =
      next_group-found (rounds others assigned) counter (others ++ assigned)
        (omega (arith, length-append others assigned))
        (λ j le t. contains-append others assigned (item j) ∙ t)

  pick_group-ends : (orig : String) (counter : ℕ) → pick_group others orig assigned counter ≢ none
  unfolding pick_group
  pick_group-ends orig counter = ground (arith, next_group-ends counter)

  pick_group-free :
      (orig g : String) (counter after : ℕ)
      → pick_group others orig assigned counter ≡ some (g, after)
      → (taken others assigned g ≡ false) × (g ≢ "")
  unfolding pick_group
  pick_group-free orig g counter after h = ground (
    arith,
    next_group-free (rounds others assigned) counter g after,
    λ (e : orig ≡ g). ap (taken others assigned) e,
  )

-- Every field has a group, which is not among those to avoid, nor among those seen, and which no later
-- field has.
abbrev Avoids : List String → List String → List Field → Type 0
Avoids others seen [] = Unit
Avoids others seen (f ∷ fs) =
    (f.group ≢ "")
    × (contains others f.group ≡ false)
    × (contains seen f.group ≡ false)
    × Avoids others (f.group ∷ seen) fs

-- No field of a property other than EMAIL is in the group.
abbrev pub IsFree : String → Card → Type 0
IsFree g [] = Unit
IsFree g ((name, fields) ∷ card) =
    (if name == "EMAIL" then Unit else All (λ (f : Field). f.group ≢ g) fields) × IsFree g card

-- Every field has a group, in which no other property of the vCard is, which is not among those seen,
-- and which no later field has.
abbrev pub Unique : Card → List String → List Field → Type 0
Unique parsed seen [] = Unit
Unique parsed seen (f ∷ fs) =
    (f.group ≢ "")
    × IsFree f.group parsed
    × (contains seen f.group ≡ false)
    × Unique parsed (f.group ∷ seen) fs

-- A group that is not collected is in no field.
not_collected :
    (g : String) (fs : List Field) (out : List String)
    → g ≢ ""
    → contains (field_groups fs out) g ≡ false
    → All (λ (f : Field). f.group ≢ g) fs × (contains out g ≡ false)
unfolding field_groups
not_collected g [] out set h = (tt, h)
not_collected g (f ∷ fs) out set h = elim (Bool-cases (f.group == "")) [
  | inl blank ↦
      let (rest, before) = not_collected g fs out set (rw blank at h) in
      (((λ e. ground (arith, set, e, blank)), rest), before)
  | inr named ↦
      let (rest, before) = not_collected g fs (add_key f.group out) set (rw named at h) in
      let apart : ((g == f.group) || contains out g) ≡ false =
        sym (contains-add_key g f.group out) ∙ before in
      (((λ e. ground (arith, e, apart)), rest), ground (arith, apart))
]

collected-IsFree :
    (g : String) (card : Card) (out : List String)
    → g ≢ ""
    → contains (groups_used_except card field_email out) g ≡ false
    → IsFree g card × (contains out g ≡ false)
unfolding groups_used_except
collected-IsFree g [] out set h = (tt, h)
collected-IsFree g ((name, fields) ∷ card) out set h = elim (Bool-cases (name == "EMAIL")) [
  | inl email ↦
      let (rest, before) = collected-IsFree g card out set (rw email at h) in
      ((rw email tt, rest), before)
  | inr other ↦
      let (rest, before) = collected-IsFree g card (field_groups fields out) set (rw other at h) in
      let (free, earlier) = not_collected g fields out set before in
      ((rw other free, rest), earlier)
]

Avoids-Unique :
    (parsed : Card) (seen : List String) (fs : List Field)
    → Avoids (groups_used_except parsed field_email []) seen fs
    → Unique parsed seen fs
Avoids-Unique parsed seen [] h = tt
Avoids-Unique parsed seen (f ∷ fs) (set, free, new, rest) =
    (set, (collected-IsFree f.group parsed [] set free).0, new, Avoids-Unique parsed _ fs rest)

module _ (others : List String) (labels : Dict String String) where
  assign_groups-Avoids :
      (fs : List Field) (s : GroupState)
      → (r : List Field × GroupState) × (assign_groups others labels fs s ≡ some r)
        × Avoids others s.assigned r.0
  unfolding assign_groups
  assign_groups-Avoids [] s = (([], s), refl, tt)
  assign_groups-Avoids (f ∷ fs) s =
      let ((g, counter), picked) =
        some_of (pick_group others f.group s.assigned s.counter)
          (pick_group-ends others s.assigned f.group s.counter) in
      let next : GroupState = record {
        consumed = consume others labels f.group s.consumed;
        assigned = g ∷ s.assigned;
        counter = counter;
      } in
      let ((rest, s'), done, unique) = assign_groups-Avoids fs next in
      let (free, nonempty) = pick_group-free others s.assigned f.group g s.counter counter picked in
      (
        ((record (typed others labels f) { group = g }) ∷ rest, s'),
        cc (picked, done),
        (nonempty, ground (arith, free), ground (arith, free), unique),
      )

fields_of-missing : (card : Card) → lookup field_email card ≡ none → fields_of card field_email ≡ []
unfolding fields_of
fields_of-missing card h = rw h refl

assign_groups-nil :
    (others : List String) (labels : Dict String String) (fs : List Field)
    (r : List Field × GroupState)
    → fs ≡ []
    → assign_groups others labels fs no_groups ≡ some r
    → r.0 ≡ []
unfolding assign_groups
assign_groups-nil others labels [] r e h = cc h
assign_groups-nil others labels (f ∷ fs) r e h = cc e

abbrev others_of : Card → List String
others_of parsed = groups_used_except parsed field_email []

emails_put :
    (o : Option (List Field)) (emails : List Field) (named : Card)
    → o ≡ lookup field_email named
    → (o ≡ none → emails ≡ [])
    → fields_of (put_emails o emails named) field_email ≡ emails
unfolding fields_of
emails_put none emails named h k = cc (h, k refl)
emails_put (some fs) emails named h k =
    fields_of-insert field_email field_email emails named ∙ ground arith

-- On every vCard the loops of `buildContactCards` end, and on the signed card every e-mail has a group
-- that is not empty, in which no field of a property other than EMAIL is in the vCard, and which no
-- other e-mail has.
pub split_card_unique :
    (parsed : Card)
    → (cards : Card × Card) × (split_card parsed ≡ some cards)
      × Unique parsed [] (fields_of cards.0 field_email)
unfolding split_card
split_card_unique parsed =
    let empty = set_value [] field_version "4.0" in
    let routed = route parsed (empty, empty) in
    let named = with_fn parsed routed.0 in
    let (r, found, unique) =
      assign_groups-Avoids (others_of parsed) (labels_by_group parsed) (fields_of named field_email)
        no_groups in
    (
      (put_emails (lookup field_email named) r.0 named, remove_labels routed.1 r.1.consumed),
      rw found refl,
      rw
          (emails_put (lookup field_email named) r.0 named refl (λ missing.
            assign_groups-nil (others_of parsed) (labels_by_group parsed)
              (fields_of named field_email) r (fields_of-missing named missing) found))
          (Avoids-Unique parsed [] r.0 unique),
    )
