-- ===== src/VcardSync/ThreeWay/Merge.antt =====
-- What the merged card holds under every name but UID, VERSION and REV.
use proton_carddav_sync.Base.{
  ◌≡◌, refl, sym, ap, ◌∙◌, String, Bool, true, false, ◌&&◌, ◌||◌, not, List, [], ◌∷◌, ◌==◌,
  contains, string_eq, arith, inl, inr, if◌then◌else◌, Bool-cases,
}
use proton_carddav_sync.Base.Range.{IsRange, contains-perm}
use proton_carddav_sync.Vcard.{Field, Card, fields_of}
use proton_carddav_sync.Vcard.Laws.{fields_of-insert}
use proton_carddav_sync.VcardSync.Fields.{union_keys}
use proton_carddav_sync.VcardSync.Fields.Order.{fields_equal_refl}
use proton_carddav_sync.VcardSync.Fields.Union.{AllLack, lacks_of_union_keys}
use proton_carddav_sync.VcardSync.ThreeWay.Identity.{fields_of-finish}
use proton_carddav_sync.VcardSync.ThreeWay.{
  Side, Merging, is_empty, choose, is_identity, record_choice, merge_name, merge_names, three_way,
}

choose-nil : (winner : Side) → (choose winner [] [] [] []).0 ≡ []
unfolding choose
choose-nil winner = rw (fields_equal_refl [])

module _ (winner : Side) (pb cb pr cd : Card) where
  abbrev pub chosen : String → List Field
  chosen n = (choose winner (fields_of pb n) (fields_of cb n) (fields_of pr n) (fields_of cd n)).0

  fields_of-record_choice :
      (n name : String) (choice : List Field × Bool) (s : Merging)
      → fields_of (record_choice name choice s).0 n ≡ (
          if n == name
          then (if is_empty choice.0 then fields_of s.0 n else choice.0)
          else fields_of s.0 n)
  unfolding record_choice
  fields_of-record_choice n name (fs, conflict) (m, c) =
      ground (arith, fields_of-insert n name fs m)

  fields_of-merge_name :
      (n name : String) (s : Merging)
      → is_identity n ≡ false
      → fields_of (merge_name winner pb cb pr cd name s).0 n
        ≡ (if n == name && not (is_empty (chosen n)) then chosen n else fields_of s.0 n)
  unfolding merge_name
  fields_of-merge_name n name s h = ground (
    arith,
    λ (e : n ≡ name). ap is_identity e,
    λ (e : n ≡ name). ap chosen e,
    fields_of-record_choice n name
        (choose winner (fields_of pb name) (fields_of cb name) (fields_of pr name)
          (fields_of cd name))
        s,
  )

  fields_of-merge_names :
      (n : String) (names : List String) (s : Merging)
      → is_identity n ≡ false
      → fields_of (merge_names winner pb cb pr cd names s).0 n
        ≡ (if contains names n && not (is_empty (chosen n)) then chosen n else fields_of s.0 n)
  unfolding merge_names
  fields_of-merge_names n [] s h = refl
  fields_of-merge_names n (name ∷ names) s h =
      fields_of-merge_names n names (merge_name winner pb cb pr cd name s) h
      ∙ rw (fields_of-merge_name n name s h)
          (one_more (n == name) (contains names n) (is_empty (chosen n)))
    where
      one_more :
          (here later empty : Bool)
          → (if later && not empty
              then chosen n
              else (if here && not empty then chosen n else fields_of s.0 n))
            ≡ (if (here || later) && not empty then chosen n else fields_of s.0 n)
      one_more here later empty = ground arith

  -- UID, VERSION and REV are left to the steps after the loop.
  pub fields_of-merge_names_identity :
      (n : String) (names : List String) (s : Merging)
      → is_identity n ≡ true
      → fields_of (merge_names winner pb cb pr cd names s).0 n ≡ fields_of s.0 n
  unfolding merge_names
  fields_of-merge_names_identity n [] s h = refl
  fields_of-merge_names_identity n (name ∷ names) s h =
      fields_of-merge_names_identity n names (merge_name winner pb cb pr cd name s) h
      ∙ unfold merge_name in
        ground (
          arith,
          λ (e : n ≡ name). ap is_identity e,
          fields_of-record_choice n name
              (choose winner (fields_of pb name) (fields_of cb name) (fields_of pr name)
                (fields_of cd name))
              s,
        )

  abbrev cards : List Card
  cards = pb ∷ cb ∷ pr ∷ cd ∷ []

  chosen-nil : (n : String) → AllLack n cards → chosen n ≡ []
  chosen-nil n (a, (b, (c, (d, _)))) = cc (a, b, c, d, choose-nil winner)

  module _ (visit : List String → List String) (range : IsRange visit) where
    -- The merged card holds under a name what the switch of the loop chose for it, whatever the
    -- order in which the names were visited.
    pub fields_of-three_way :
        (n : String)
        → is_identity n ≡ false
        → fields_of (three_way winner pb cb pr cd visit).0 n ≡ chosen n
    unfolding three_way is_empty fields_of
    fields_of-three_way n h =
        fields_of-finish pr cd n _ h
        ∙ fields_of-merge_names n (visit (union_keys cards [])) ([], []) h
        ∙ rw (contains-perm n (range.visits (union_keys cards [])))
            (elim (Bool-cases (contains (union_keys cards []) n)) [
              | inl inside ↦ rw inside (nonempty (chosen n))
              | inr outside ↦ rw outside (sym (chosen-nil n (lacks_of_union_keys n cards outside)))
            ])
      where
        nonempty : (fs : List Field) → (if not (is_empty fs) then fs else []) ≡ fs
        nonempty [] = refl
        nonempty (f ∷ fs) = refl
