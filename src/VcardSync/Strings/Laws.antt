-- ===== src/VcardSync/Strings/Laws.antt =====
-- internal/vcardsync/merge.go, the functions on vCard texts: their success and their answers.
use proton_carddav_sync.Base.{
  ◌≡◌, ◌≢◌, ◌↔◌, ◌⊎◌, refl, sym, ap, ◌∙◌, String, Bool, true, false, List, [], ◌∷◌, contains,
  string_eq, arith, inl, inr, Bool-cases,
}
use proton_carddav_sync.Base.Range.{IsRange, contains-perm}
use proton_carddav_sync.Base.Result.{ok}
use proton_carddav_sync.Library.{Library, Prints}
use proton_carddav_sync.Vcard.{Card, fields_of, field_version}
use proton_carddav_sync.VcardSync.Fields.{fields_equal, union_keys}
use proton_carddav_sync.VcardSync.Fields.Order.{fields_equal_refl}
use proton_carddav_sync.VcardSync.Fields.Union.{lacks_of_union_keys}
use proton_carddav_sync.VcardSync.ThreeWay.{three_way}
use proton_carddav_sync.VcardSync.ThreeWay.Order.{version-three_way}
use proton_carddav_sync.VcardSync.Strings.{
  Policy, winner_by, all_equal, any_differs, encode, decode_or_empty, three_way_string,
  equal_string, proton_relevant_diff,
}

all_equal_at :
    (ca cb : Card) (names : List String) (n : String)
    → all_equal ca cb names ≡ true
    → contains names n ≡ true
    → fields_equal (fields_of ca n) (fields_of cb n) ≡ true
unfolding all_equal
all_equal_at ca cb [] n h k = cc
all_equal_at ca cb (name ∷ names) n h k = ground (
  arith,
  all_equal_at ca cb names n,
  λ (e : n ≡ name). ap (fields_of ca) e,
  λ (e : n ≡ name). ap (fields_of cb) e,
)

all_equal_of :
    (ca cb : Card) (names : List String)
    → ((n : String) → fields_equal (fields_of ca n) (fields_of cb n) ≡ true)
    → all_equal ca cb names ≡ true
unfolding all_equal
all_equal_of ca cb [] h = refl
all_equal_of ca cb (name ∷ names) h = rw (h name) (all_equal_of ca cb names h)

any_differs_at :
    (m pc : Card) (names : List String) (n : String)
    → any_differs m pc names ≡ false
    → contains names n ≡ true
    → n ≢ field_version
    → fields_equal (fields_of m n) (fields_of pc n) ≡ true
unfolding any_differs
any_differs_at m pc [] n h k v = cc
any_differs_at m pc (name ∷ names) n h k v = ground (
  arith,
  any_differs_at m pc names n,
  λ (e : n ≡ name). ap (fields_of m) e,
  λ (e : n ≡ name). ap (fields_of pc) e,
)

any_differs_of :
    (m pc : Card) (names : List String)
    → ((n : String)
        → contains names n ≡ true
        → n ≢ field_version
        → fields_equal (fields_of m n) (fields_of pc n) ≡ true)
    → any_differs m pc names ≡ false
unfolding any_differs
any_differs_of m pc [] h = refl
any_differs_of m pc (name ∷ names) h =
    ground (arith, h name, any_differs_of m pc names (λ n k. h n (ground arith)))

module _ (lib : Library) (range : IsRange lib.visit) where
  -- On texts that parse, `EqualString` answers, and says whether the two cards hold the same fields
  -- under every name.
  pub equal_string_iff :
      (a b : String) (ca cb : Card)
      → decode_or_empty lib a ≡ ok ca
      → decode_or_empty lib b ≡ ok cb
      → (answer : Bool) × (equal_string lib a b ≡ ok answer)
        × ((answer ≡ true) ↔ ((n : String) → fields_equal (fields_of ca n) (fields_of cb n) ≡ true))
  unfolding equal_string
  equal_string_iff a b ca cb ha hb = (
    all_equal ca cb names,
    rw (ha, hb),
    (λ h n. everywhere h n (Bool-cases (contains names n)), all_equal_of ca cb names),
  )
    where
      union : List String
      union = union_keys (ca ∷ cb ∷ []) []

      names : List String
      names = lib.visit union

      everywhere :
          all_equal ca cb names ≡ true
          → (n : String) → (contains names n ≡ true) ⊎ (contains names n ≡ false)
          → fields_equal (fields_of ca n) (fields_of cb n) ≡ true
      everywhere h n (inl inside) = all_equal_at ca cb names n h inside
      everywhere h n (inr outside) =
          let (a_lacks, (b_lacks, _)) =
            lacks_of_union_keys n (ca ∷ cb ∷ [])
              (sym (contains-perm n (range.visits union)) ∙ outside) in
          cc (a_lacks, b_lacks, fields_equal_refl [])

  -- On texts that parse, `ProtonRelevantDiff` answers, and says no exactly when the merged card agrees
  -- with Proton's current card under every name but VERSION that Proton's current card or base has.
  pub proton_relevant_diff_iff :
      (merged current base : String) (m pc pb : Card)
      → decode_or_empty lib merged ≡ ok m
      → decode_or_empty lib current ≡ ok pc
      → decode_or_empty lib base ≡ ok pb
      → (answer : Bool) × (proton_relevant_diff lib merged current base ≡ ok answer)
        × ((answer ≡ false) ↔ (
            (n : String)
            → contains (union_keys (pc ∷ pb ∷ []) []) n ≡ true
            → n ≢ field_version
            → fields_equal (fields_of m n) (fields_of pc n) ≡ true))
  unfolding proton_relevant_diff
  proton_relevant_diff_iff merged current base m pc pb hm hc hb = (
    any_differs m pc names,
    rw (hm, hc, hb),
    (
      λ h n k. any_differs_at m pc names n h (contains-perm n (range.visits union) ∙ k),
      λ h. any_differs_of m pc names (λ n k. h n (sym (contains-perm n (range.visits union)) ∙ k)),
    ),
  )
    where
      union : List String
      union = union_keys (pc ∷ pb ∷ []) []

      names : List String
      names = lib.visit union

module _ (lib : Library) (prints : Prints lib) where
  -- On texts that parse, and where printing fails only for a card without VERSION, `ThreeWayString`
  -- returns a text and not an error. The text is the print of the merged card, and with it come the
  -- merge's conflicts.
  pub three_way_string-ok :
      (proton_base carddav_base proton carddav : String) (policy : Policy) (pb cb pr cd : Card)
      → decode_or_empty lib proton_base ≡ ok pb
      → decode_or_empty lib carddav_base ≡ ok cb
      → decode_or_empty lib proton ≡ ok pr
      → decode_or_empty lib carddav ≡ ok cd
      → let result = three_way (winner_by policy pr cd) pb cb pr cd lib.visit in
        (text : String) × (lib.codec.print result.0 ≡ ok text)
        × (three_way_string lib proton_base carddav_base proton carddav policy
            ≡ ok (text, result.1))
  unfolding three_way_string encode
  three_way_string-ok proton_base carddav_base proton carddav policy pb cb pr cd h1 h2 h3 h4 =
      let (text, printed) =
        prints.print-ok (three_way (winner_by policy pr cd) pb cb pr cd lib.visit).0
          (version-three_way (winner_by policy pr cd) pb cb pr cd lib.visit) in
      (text, printed, rw (h1, h2, h3, h4, printed))
