-- ===== src/VcardSync/ThreeWay/Settled.antt =====
-- The merge where nothing happened since the last sync: both bases are like the current cards.
use proton_carddav_sync.Base.{
  ◌≡◌, ◌≢◌, ◌⊎◌, ◌∙◌, refl, ap, subst, inl, inr, String, true, false, List, [], ◌∷◌, string_eq,
  Bool-cases, ◌==◌,
}
use proton_carddav_sync.Base.Range.{IsRange}
use proton_carddav_sync.Vcard.{Field, Card, fields_of, field_version, field_uid, field_revision}
use proton_carddav_sync.VcardSync.Fields.{fields_equal}
use proton_carddav_sync.VcardSync.Fields.Order.{
  fields_equal-nil, fields_equal_symm, fields_equal_refl,
}
use proton_carddav_sync.VcardSync.ThreeWay.{
  Side, is_empty, choose, is_identity, three_way, rev_time,
}
use proton_carddav_sync.VcardSync.ThreeWay.Sources.{which_identity}
use proton_carddav_sync.Time.{after}
use proton_carddav_sync.VcardSync.ThreeWay.Identity.{prefer, newer_rev}
use proton_carddav_sync.VcardSync.ThreeWay.Merge.{fields_of-three_way}
use proton_carddav_sync.VcardSync.ThreeWay.Order.{identity-three_way}
use proton_carddav_sync.VcardSync.ThreeWay.Stability.{prefer-covered, prefer-present, keep_current}

-- A base is like the card that its side has now.
pub record IsBase (base now : Card) : Type 0 where
  pub same : (n : String) → fields_equal (fields_of base n) (fields_of now n) ≡ true

-- CardDAV's card has what Proton's has, but for the VERSION, and has a VERSION itself.
pub record Covers (pr cd : Card) : Type 0 where
  pub modelled :
      (n : String)
      → n ≢ field_version
      → fields_of pr n ≢ []
      → fields_equal (fields_of cd n) (fields_of pr n) ≡ true
  pub version : is_empty (fields_of cd field_version) ≡ false

absent_too : (p c : List Field) → (p ≢ [] → fields_equal c p ≡ true) → c ≡ [] → p ≡ []
absent_too [] c h e = refl
absent_too (f ∷ p) c h e =
    fields_equal-nil (f ∷ p) (
      fields_equal_symm [] (f ∷ p) (subst (λ x. fields_equal x (f ∷ p) ≡ true) e (h (λ e'. cc e'))))

choose-settled :
    (winner : Side) (pb cb pr cd : List Field)
    → fields_equal pb pr ≡ true
    → fields_equal cb cd ≡ true
    → (choose winner pb cb pr cd).0 ≡ prefer cd pr []
unfolding choose
choose-settled winner pb cb pr cd p c = rw (p, c) (keep_current pr cd)

-- The group that is taken is like the second one, where that one covers the first.
prefer-alike :
    (p c : List Field) → (p ≢ [] → fields_equal c p ≡ true) → fields_equal (prefer p c []) c ≡ true
unfolding is_empty
prefer-alike (f ∷ p) c h = fields_equal_symm c (f ∷ p) (h (λ e. cc e))
prefer-alike [] (f ∷ c) h = fields_equal_refl _
prefer-alike [] [] h = fields_equal_refl _

not_version : (n : String) → is_identity n ≡ false → n ≢ field_version
unfolding is_identity string_eq
not_version n h e = cc (subst (λ x. is_identity x ≡ false) e h)

uid_is_not_version : field_uid ≢ field_version
unfolding string_eq
uid_is_not_version e = let alike : true ≡ false = ap (λ s. s == "UID") e in cc alike

revision_is_not_version : field_revision ≢ field_version
unfolding string_eq
revision_is_not_version e = let alike : true ≡ false = ap (λ s. s == "REV") e in cc alike

module _ (winner : Side) (pb cb pr cd : Card) (visit : List String → List String)
    (range : IsRange visit) (old_proton : IsBase pb pr) (old_carddav : IsBase cb cd)
    (covers : Covers pr cd) where
  abbrev merged : Card
  merged = (three_way winner pb cb pr cd visit).0

  alike_of_eq : (a b : List Field) → a ≡ b → fields_equal a b ≡ true
  alike_of_eq a b e = subst (λ x. fields_equal a x ≡ true) e (fields_equal_refl a)

  kept :
      (n : String)
      → n ≢ field_version
      → prefer (fields_of cd n) (fields_of pr n) [] ≡ fields_of cd n
  kept n other =
      prefer-covered (fields_of pr n) (fields_of cd n)
        (absent_too (fields_of pr n) (fields_of cd n) (covers.modelled n other))

  newer_rev-alike : fields_equal (newer_rev pr cd []) (fields_of cd field_revision) ≡ true
  newer_rev-alike = elim (Bool-cases (after (rev_time cd) (rev_time pr))) [
    | inl newer ↦ rw newer (alike_of_eq _ _ (kept field_revision revision_is_not_version))
    | inr older ↦
        rw older (prefer-alike _ _ (covers.modelled field_revision revision_is_not_version))
  ]

  merged_identity :
      (n : String)
      → (n ≡ field_uid) ⊎ (n ≡ field_version) ⊎ (n ≡ field_revision)
      → fields_equal (fields_of merged n) (fields_of cd n) ≡ true
  merged_identity n (inl e) =
      let (uid, _, _) = identity-three_way winner pb cb pr cd visit in
      rw e (alike_of_eq _ _ (uid ∙ kept field_uid uid_is_not_version))
  merged_identity n (inr (inl e)) =
      let (_, version, _) = identity-three_way winner pb cb pr cd visit in
      rw e (
        alike_of_eq _ _ (
          version
          ∙ prefer-present (fields_of pr field_version) (fields_of cd field_version) _
              covers.version))
  merged_identity n (inr (inr e)) =
      let (_, _, revision) = identity-three_way winner pb cb pr cd visit in
      rw (e, revision) newer_rev-alike

  -- The merged card is like CardDAV's, whichever side wins conflicts and in whatever order the names
  -- are visited.
  pub settled_alike : (n : String) → fields_equal (fields_of merged n) (fields_of cd n) ≡ true
  settled_alike n = elim (Bool-cases (is_identity n)) [
    | inl h ↦ merged_identity n (which_identity n h)
    | inr h ↦ alike_of_eq _ _ (
        fields_of-three_way winner pb cb pr cd visit range n h
        ∙ choose-settled winner _ _ _ _ (old_proton.same n) (old_carddav.same n)
        ∙ kept n (not_version n h))
  ]
