-- ===== src/VcardSync/ThreeWay/Conflicts.antt =====
-- internal/vcardsync/merge.go, ThreeWay: the list of conflicts.
use proton_carddav_sync.Base.{
  ◌≡◌, ap, ◌∙◌, ◌↔◌, String, Bool, true, false, ◌&&◌, ◌||◌, not, List, [], ◌∷◌, ◌==◌, contains,
  string_eq, arith, inl, inr, Bool-cases,
}
use proton_carddav_sync.Base.Range.{IsRange, contains-perm, contains-append}
use proton_carddav_sync.Vcard.{Card, fields_of}
use proton_carddav_sync.VcardSync.Fields.{fields_equal, union_keys}
use proton_carddav_sync.VcardSync.Fields.Order.{fields_equal_refl}
use proton_carddav_sync.VcardSync.Fields.Union.{AllLack, lacks_of_union_keys}
use proton_carddav_sync.VcardSync.ThreeWay.Property.{conflict_iff}
use proton_carddav_sync.VcardSync.ThreeWay.{
  Side, Merging, choose, is_identity, record_choice, merge_name, merge_names, three_way,
}

choose-nil_conflict : (winner : Side) → (choose winner [] [] [] []).1 ≡ false
unfolding choose
choose-nil_conflict winner = rw (fields_equal_refl [])

module _ (winner : Side) (pb cb pr cd : Card) where
  abbrev conflicting : String → Bool
  conflicting n =
      (choose winner (fields_of pb n) (fields_of cb n) (fields_of pr n) (fields_of cd n)).1

  contains-merge_name :
      (n name : String) (s : Merging)
      → contains (merge_name winner pb cb pr cd name s).1 n
        ≡ (contains s.1 n || (n == name && not (is_identity n) && conflicting n))
  unfolding merge_name record_choice
  contains-merge_name n name s = ground (
    arith,
    λ (e : n ≡ name). ap is_identity e,
    λ (e : n ≡ name). ap conflicting e,
    contains-append s.1 (name ∷ []) n,
  )

  contains-merge_names :
      (n : String) (names : List String) (s : Merging)
      → contains (merge_names winner pb cb pr cd names s).1 n
        ≡ (contains s.1 n || (contains names n && not (is_identity n) && conflicting n))
  unfolding merge_names
  contains-merge_names n [] s = one (contains s.1 n)
    where
      one : (b : Bool) → b ≡ (b || false)
      one b = ground arith
  contains-merge_names n (name ∷ names) s =
      contains-merge_names n names (merge_name winner pb cb pr cd name s)
      ∙ rw (contains-merge_name n name s) (
          one_more (contains s.1 n) (n == name) (contains names n) (not (is_identity n))
            (conflicting n))
    where
      one_more :
          (old here later free bad : Bool)
          → ((old || (here && free && bad)) || (later && free && bad))
            ≡ (old || ((here || later) && free && bad))
      one_more old here later free bad = ground arith

  abbrev cards : List Card
  cards = pb ∷ cb ∷ pr ∷ cd ∷ []

  module _ (visit : List String → List String) (range : IsRange visit) where
    contains-conflicts :
        (n : String)
        → contains (three_way winner pb cb pr cd visit).1 n ≡ (not (is_identity n) && conflicting n)
    unfolding three_way
    contains-conflicts n =
        contains-merge_names n (visit (union_keys cards [])) ([], [])
        ∙ rw (contains-perm n (range.visits (union_keys cards [])))
            (elim (Bool-cases (contains (union_keys cards []) n)) [
              | inl inside ↦ rw inside
              | inr outside ↦ rw outside (absent (lacks_of_union_keys n cards outside))
            ])
      where
        absent : AllLack n cards → false ≡ (not (is_identity n) && conflicting n)
        absent (a, (b, (c, (d, _)))) = ground (arith, a, b, c, d, choose-nil_conflict winner)

    -- The returned list names exactly the properties other than UID, VERSION and REV that both sides
    -- changed since their bases, and that differ between the sides now.
    pub conflicts_iff :
        (n : String)
        → (contains (three_way winner pb cb pr cd visit).1 n ≡ true) ↔ (
            (is_identity n ≡ false)
            × (fields_equal (fields_of pb n) (fields_of pr n) ≡ false)
            × (fields_equal (fields_of cb n) (fields_of cd n) ≡ false)
            × (fields_equal (fields_of pr n) (fields_of cd n) ≡ false))
    conflicts_iff n = ground (
      arith,
      contains-conflicts n,
      conflict_iff winner (fields_of pb n) (fields_of cb n) (fields_of pr n) (fields_of cd n),
    )
