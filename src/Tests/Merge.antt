-- ===== src/Tests/Merge.antt =====
-- The merge at concrete cards: a contact whose name both sides changed, and one that has a note on
-- CardDAV's side alone.
use mathlib.Core.Option.{or_else}
use proton_carddav_sync.Base.{
  ◌≡◌, ◌==◌, ◌||◌, ◌≢◌, ◌↔◌, refl, String, Bool, true, false, none, some, List, [], ◌∷◌, contains,
  string_eq, nat_eq, arith, inl, if◌then◌else◌,
}
use mathlib.Core.List.{Perm}
use mathlib.Core.List.Perm.{refl as Perm_refl, swap as Perm_swap}
use proton_carddav_sync.Base.Dict.{lookup}
use proton_carddav_sync.Base.Range.{IsRange}
use proton_carddav_sync.Base.Text.{codes, is_blank}
use proton_carddav_sync.Base.Result.{ok}
use proton_carddav_sync.Time.{parse, rfc3339, basic_utc, basic_date, zero_time}
use proton_carddav_sync.Vcard.{
  Field, Card, plain, fields_of, field_uid, field_version, field_revision,
}
use proton_carddav_sync.VcardSync.Fields.{fields_equal, key_list, union_keys}
use proton_carddav_sync.VcardSync.Fields.Order.{fields_equal_iff}
use proton_carddav_sync.VcardSync.Overlay.{overlay}
use proton_carddav_sync.VcardSync.Overlay.Laws.{lookup-overlay}
use proton_carddav_sync.VcardSync.ThreeWay.{
  side_proton, side_carddav, is_empty, is_identity, three_way, choose, merge_names, merge_name,
  record_choice,
}
use proton_carddav_sync.VcardSync.ThreeWay.Conflicts.{conflicts_iff}
use proton_carddav_sync.VcardSync.ThreeWay.Identity.{prefer, newer_rev}
use proton_carddav_sync.VcardSync.ThreeWay.Order.{identity-three_way, three_way_order}
use proton_carddav_sync.VcardSync.ThreeWay.Stability.{
  Resolves, three_way-Resolves, three_way_stable,
}
use proton_carddav_sync.VcardSync.Strings.{
  prefer_proton, winner_by, decode_or_empty, decode, equal_string, proton_relevant_diff,
  three_way_string,
}
use proton_carddav_sync.VcardSync.Strings.Laws.{
  equal_string_iff, proton_relevant_diff_iff, three_way_string-ok,
}
use proton_carddav_sync.Tests.Fixtures.{
  card, in_order, in_order-IsRange, small_library, small_library-Prints,
}

abbrev base : Card
base = card "ann" "Ann"

abbrev anna : Card
anna = card "ann" "Anna"

abbrev annie : Card
annie = card "ann" "Annie"

-- What Proton returns of a contact: no VERSION and no note.
abbrev bare : Card
bare = ("UID", plain "ann" ∷ []) ∷ ("FN", plain "Ann" ∷ []) ∷ []

abbrev noted : Card
noted = ("NOTE", plain "hello" ∷ []) ∷ base

-- The names in another order.
abbrev swapped : List String → List String
swapped [] = []
swapped (a ∷ []) = a ∷ []
swapped (a ∷ b ∷ rest) = b ∷ a ∷ rest

swapped-IsRange : IsRange swapped
swapped-IsRange = record { visits = visits }
  where
    visits : (l : List String) → Perm (swapped l) l
    visits [] = Perm_refl []
    visits (a ∷ []) = Perm_refl (a ∷ [])
    visits (a ∷ b ∷ rest) = Perm_swap a b rest

rfc3339_is_utc :
    parse rfc3339 (codes "2024-02-29T13:04:05.25+02:00")
    ≡ parse basic_utc (codes "20240229T110405.25Z")
unfolding parse nat_eq
rfc3339_is_utc = refl

no_leap_day : parse basic_date (codes "20230229") ≡ none
unfolding parse nat_eq
no_leap_day = refl

first_day : parse basic_date (codes "00010101") ≡ some zero_time
unfolding parse nat_eq zero_time
first_day = refl

conflict_run : (three_way side_carddav base base anna annie in_order).1 ≡ "FN" ∷ []
unfolding three_way choose fields_equal union_keys fields_of is_identity string_eq merge_names
    merge_name record_choice
conflict_run = refl

abbrev with_type : List String → Field
with_type types = record { value = "1"; params = ("TYPE", types) ∷ []; group = "" }

-- One parameter value with a comma compares equal to two values.
comma_run : fields_equal (with_type ("a,b" ∷ []) ∷ []) (with_type ("a" ∷ "b" ∷ []) ∷ []) ≡ true
unfolding fields_equal lookup
comma_run = refl

fields_equal_iff_example :
    (fields_equal (plain "Ann" ∷ plain "Anna" ∷ []) (plain "Anna" ∷ plain "Ann" ∷ []) ≡ true)
    ↔ Perm (key_list (plain "Ann" ∷ plain "Anna" ∷ [])) (key_list (plain "Anna" ∷ plain "Ann" ∷ []))
fields_equal_iff_example =
    fields_equal_iff (plain "Ann" ∷ plain "Anna" ∷ []) (plain "Anna" ∷ plain "Ann" ∷ [])

three_way-Resolves_example :
    Resolves side_carddav
      (fields_of base "FN")
      (fields_of base "FN")
      (fields_of anna "FN")
      (fields_of annie "FN")
      (fields_of (three_way side_carddav base base anna annie in_order).0 "FN")
unfolding is_identity string_eq
three_way-Resolves_example =
    three_way-Resolves side_carddav base base anna annie in_order "FN" in_order-IsRange refl

conflicts_iff_example :
    (contains (three_way side_carddav base base anna annie in_order).1 "FN" ≡ true) ↔ (
      (is_identity "FN" ≡ false)
      × (fields_equal (fields_of base "FN") (fields_of anna "FN") ≡ false)
      × (fields_equal (fields_of base "FN") (fields_of annie "FN") ≡ false)
      × (fields_equal (fields_of anna "FN") (fields_of annie "FN") ≡ false))
conflicts_iff_example =
    conflicts_iff side_carddav base base anna annie in_order in_order-IsRange "FN"

three_way_order_example :
    fields_of (three_way side_proton base base anna annie in_order).0 "FN"
    ≡ fields_of (three_way side_proton base base anna annie swapped).0 "FN"
three_way_order_example =
    three_way_order side_proton base base anna annie in_order swapped "FN" in_order-IsRange
      swapped-IsRange

identity-three_way_example :
    (fields_of (three_way side_proton bare noted bare noted in_order).0 field_uid
      ≡ prefer (fields_of noted field_uid) (fields_of bare field_uid) [])
    × (fields_of (three_way side_proton bare noted bare noted in_order).0 field_version
        ≡ prefer (fields_of noted field_version) (fields_of bare field_version) (plain "4.0" ∷ []))
    × (fields_of (three_way side_proton bare noted bare noted in_order).0 field_revision
        ≡ newer_rev bare noted [])
identity-three_way_example = identity-three_way side_proton bare noted bare noted in_order

covered : (n : String) → fields_of noted n ≡ [] → fields_of bare n ≡ []
unfolding fields_of lookup
covered n h = ground arith

three_way_stable_example :
    fields_of (three_way side_proton bare noted bare noted in_order).0 "NOTE"
    ≡ fields_of noted "NOTE"
unfolding fields_of lookup string_eq is_empty
three_way_stable_example =
    three_way_stable side_proton bare noted in_order in_order-IsRange covered refl (inl refl) "NOTE"

lookup-overlay_example : lookup "NOTE" (overlay noted bare) ≡ (
    if "NOTE" == field_version || "NOTE" == field_uid
    then lookup "NOTE" noted
    else or_else (lookup "NOTE" bare) (lookup "NOTE" noted))
unfolding lookup string_eq
lookup-overlay_example =
    lookup-overlay "NOTE" noted bare (refl, (refl, (refl, (refl, tt)))) (refl, (refl, tt))

equal_string_iff_example :
    (answer : Bool) × (equal_string small_library "ann" "anna" ≡ ok answer)
    × ((answer ≡ true) ↔ ((n : String) → fields_equal (fields_of base n) (fields_of anna n) ≡ true))
unfolding decode_or_empty decode string_eq is_blank nat_eq
equal_string_iff_example =
    equal_string_iff small_library in_order-IsRange "ann" "anna" base anna refl refl

proton_relevant_diff_iff_example :
    (answer : Bool) × (proton_relevant_diff small_library "anna" "ann" "ann" ≡ ok answer)
    × ((answer ≡ false) ↔ (
        (n : String)
        → contains (union_keys (base ∷ base ∷ []) []) n ≡ true
        → n ≢ field_version
        → fields_equal (fields_of anna n) (fields_of base n) ≡ true))
unfolding decode_or_empty decode string_eq is_blank nat_eq
proton_relevant_diff_iff_example =
    proton_relevant_diff_iff small_library in_order-IsRange "anna" "ann" "ann" anna base base refl
      refl refl

three_way_string-ok_example :
    let result = three_way (winner_by prefer_proton anna base) base base anna base in_order in
    (text : String) × (small_library.codec.print result.0 ≡ ok text)
    × (three_way_string small_library "ann" "ann" "anna" "ann" prefer_proton ≡ ok (text, result.1))
unfolding decode_or_empty decode string_eq is_blank nat_eq
three_way_string-ok_example =
    three_way_string-ok small_library small_library-Prints "ann" "ann" "anna" "ann" prefer_proton
      base base anna base refl refl refl refl
