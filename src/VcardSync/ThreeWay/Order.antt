-- ===== src/VcardSync/ThreeWay/Order.antt =====
-- internal/vcardsync/merge.go, ThreeWay, and the order in which Go visits the names of a map.
use proton_carddav_sync.Base.{
  ◌≡◌, refl, sym, ap, ◌∙◌, String, true, false, List, [], ◌∷◌, string_eq, inl, inr, Bool-cases,
  arith,
}
use proton_carddav_sync.Base.Range.{IsRange}
use proton_carddav_sync.Vcard.{
  Field, Card, fields_of, field_version, field_uid, field_revision, plain,
}
use proton_carddav_sync.VcardSync.Fields.{union_keys}
use proton_carddav_sync.VcardSync.ThreeWay.{Side, is_empty, is_identity, merge_names, three_way}
use proton_carddav_sync.VcardSync.ThreeWay.Merge.{
  fields_of-three_way, fields_of-merge_names_identity,
}
use proton_carddav_sync.VcardSync.ThreeWay.Identity.{prefer, newer_rev, identity-finish}

module _ (winner : Side) (pb cb pr cd : Card) (visit : List String → List String) where
  -- UID comes from CardDAV, else from Proton; VERSION likewise, and is 4.0 where neither has one;
  -- REV comes from the side with the newer one, Proton's where they tie, else from the other side.
  pub identity-three_way :
      (fields_of (three_way winner pb cb pr cd visit).0 field_uid
        ≡ prefer (fields_of cd field_uid) (fields_of pr field_uid) [])
      × (fields_of (three_way winner pb cb pr cd visit).0 field_version
          ≡ prefer (fields_of cd field_version) (fields_of pr field_version) (plain "4.0" ∷ []))
      × (fields_of (three_way winner pb cb pr cd visit).0 field_revision ≡ newer_rev pr cd [])
  unfolding three_way is_identity string_eq fields_of
  identity-three_way =
      let names = visit (union_keys (pb ∷ cb ∷ pr ∷ cd ∷ []) []) in
      let i = identity-finish pr cd (merge_names winner pb cb pr cd names ([], [])).0 in
      let left = λ (n : String) (h : is_identity n ≡ true).
        fields_of-merge_names_identity winner pb cb pr cd n names ([], []) h in
      (
        i.0 ∙ ap (prefer (fields_of cd field_uid) (fields_of pr field_uid)) (left field_uid refl),
        i.1,
        i.2 ∙ ap (newer_rev pr cd) (left field_revision refl),
      )

prefer-ne-nil : (a b c : List Field) → is_empty c ≡ false → is_empty (prefer a b c) ≡ false
unfolding is_empty
prefer-ne-nil a b c h = ground arith

-- The merged card always has a VERSION.
pub version-three_way :
    (winner : Side) (pb cb pr cd : Card) (visit : List String → List String)
    → is_empty (fields_of (three_way winner pb cb pr cd visit).0 field_version) ≡ false
unfolding is_empty
version-three_way winner pb cb pr cd visit =
    ap is_empty (identity-three_way winner pb cb pr cd visit).1
    ∙ prefer-ne-nil (fields_of cd field_version) (fields_of pr field_version) (plain "4.0" ∷ [])
        refl

module _ (winner : Side) (pb cb pr cd : Card) where
  -- Two orders of visiting the properties give the same fields under every name.
  pub three_way_order :
      (visit visit' : List String → List String) (n : String)
      → IsRange visit
      → IsRange visit'
      → fields_of (three_way winner pb cb pr cd visit).0 n
        ≡ fields_of (three_way winner pb cb pr cd visit').0 n
  unfolding is_identity
  three_way_order visit visit' n r r' =
      let a = identity-three_way winner pb cb pr cd visit in
      let b = identity-three_way winner pb cb pr cd visit' in
      elim (Bool-cases (is_identity n)) [
        | inl h ↦ ground (
          arith,
          a,
          b,
          λ (e : n ≡ field_uid). ap (fields_of (three_way winner pb cb pr cd visit).0) e,
          λ (e : n ≡ field_uid). ap (fields_of (three_way winner pb cb pr cd visit').0) e,
          λ (e : n ≡ field_version). ap (fields_of (three_way winner pb cb pr cd visit).0) e,
          λ (e : n ≡ field_version). ap (fields_of (three_way winner pb cb pr cd visit').0) e,
          λ (e : n ≡ field_revision). ap (fields_of (three_way winner pb cb pr cd visit).0) e,
          λ (e : n ≡ field_revision). ap (fields_of (three_way winner pb cb pr cd visit').0) e,
        )
        | inr h ↦
            fields_of-three_way winner pb cb pr cd visit r n h
            ∙ sym (fields_of-three_way winner pb cb pr cd visit' r' n h)
      ]
