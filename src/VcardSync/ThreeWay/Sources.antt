-- ===== src/VcardSync/ThreeWay/Sources.antt =====
-- Where the properties of a merged card come from.
use proton_carddav_sync.Base.{
  ◌≡◌, ◌⊎◌, ◌∙◌, refl, inl, inr, String, true, false, List, [], ◌∷◌, string_eq, arith, Bool-cases,
}
use proton_carddav_sync.Base.Range.{IsRange}
use proton_carddav_sync.Time.{after}
use proton_carddav_sync.Vcard.{Field, Card, fields_of, field_version, field_uid, field_revision}
use proton_carddav_sync.VcardSync.ThreeWay.{
  Side, side_proton, side_carddav, is_empty, choose, is_identity, three_way, rev_time,
}
use proton_carddav_sync.VcardSync.ThreeWay.Identity.{prefer, newer_rev}
use proton_carddav_sync.VcardSync.ThreeWay.Merge.{fields_of-three_way}
use proton_carddav_sync.VcardSync.ThreeWay.Order.{identity-three_way}
use proton_carddav_sync.VcardSync.ThreeWay.Stability.{prefer-present}

-- One of the names that the loop of the merge skips.
pub which_identity :
    (n : String)
    → is_identity n ≡ true
    → (n ≡ field_uid) ⊎ (n ≡ field_version) ⊎ (n ≡ field_revision)
unfolding is_identity
which_identity n h = ground arith

-- A group is one of two.
abbrev pub OneOf : List Field → List Field → List Field → Type 0
OneOf p c result = (result ≡ p) ⊎ (result ≡ c)

choose-OneOf :
    (winner : Side) (pb cb pr cd : List Field) → OneOf pr cd (choose winner pb cb pr cd).0
unfolding choose
choose-OneOf side_proton pb cb pr cd = ground arith
choose-OneOf side_carddav pb cb pr cd = ground arith

prefer-OneOf : (a b : List Field) → OneOf a b (prefer a b [])
unfolding is_empty
prefer-OneOf (f ∷ a) b = inl refl
prefer-OneOf [] (f ∷ b) = inr refl
prefer-OneOf [] [] = inl refl

swap_OneOf : (a b result : List Field) → OneOf a b result → OneOf b a result
swap_OneOf a b result (inl e) = inr e
swap_OneOf a b result (inr e) = inl e

module _ (winner : Side) (pb cb pr cd : Card) (visit : List String → List String) where
  abbrev merged : Card
  merged = (three_way winner pb cb pr cd visit).0

  newer_rev-OneOf :
      OneOf (fields_of pr field_revision) (fields_of cd field_revision) (newer_rev pr cd [])
  newer_rev-OneOf = elim (Bool-cases (after (rev_time cd) (rev_time pr))) [
    | inl newer ↦ rw newer (swap_OneOf _ _ _ (prefer-OneOf _ _))
    | inr older ↦ rw older (prefer-OneOf _ _)
  ]

  identity-OneOf :
      (n : String)
      → is_empty (fields_of cd field_version) ≡ false
      → (n ≡ field_uid) ⊎ (n ≡ field_version) ⊎ (n ≡ field_revision)
      → OneOf (fields_of pr n) (fields_of cd n) (fields_of merged n)
  identity-OneOf n version (inl e) =
      let (uid, _, _) = identity-three_way winner pb cb pr cd visit in
      rw (e, uid) (swap_OneOf _ _ _ (prefer-OneOf _ _))
  identity-OneOf n version (inr (inl e)) =
      let (_, found, _) = identity-three_way winner pb cb pr cd visit in
      rw e (inr (found ∙ prefer-present _ _ _ version))
  identity-OneOf n version (inr (inr e)) =
      let (_, _, revision) = identity-three_way winner pb cb pr cd visit in
      rw (e, revision) newer_rev-OneOf

  -- Under every name the merged card has Proton's fields or CardDAV's, where CardDAV's card has a
  -- VERSION.
  pub three_way-OneOf :
      (n : String)
      → IsRange visit
      → is_empty (fields_of cd field_version) ≡ false
      → OneOf (fields_of pr n) (fields_of cd n) (fields_of merged n)
  three_way-OneOf n range version = elim (Bool-cases (is_identity n)) [
    | inl h ↦ identity-OneOf n version (which_identity n h)
    | inr h ↦
        rw (fields_of-three_way winner pb cb pr cd visit range n h) (choose-OneOf winner _ _ _ _)
  ]
