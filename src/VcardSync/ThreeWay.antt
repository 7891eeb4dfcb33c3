-- ===== src/VcardSync/ThreeWay.antt =====
-- internal/vcardsync/merge.go, ThreeWay, RevTime and NewerSide.
pub mod Property
pub mod Merge
pub mod Identity
pub mod Conflicts
pub mod Stability
pub mod Order
pub mod Sources
pub mod Settled
use proton_carddav_sync.Base.{
  String, ℕ, Bool, true, false, ◌&&◌, ◌||◌, not, Option, none, some, List, [], ◌∷◌, ◌++◌, ◌==◌,
  string_eq, if◌then◌else◌,
}
use proton_carddav_sync.Base.Dict.{insert, lookup}
use proton_carddav_sync.Base.Text.{trim_space}
use proton_carddav_sync.Time.{
  Instant, Layout, rfc3339, basic_utc, basic, basic_date, parse, zero_time, after,
}
use proton_carddav_sync.Vcard.{
  Field, Card, fields_of, get, set_value, field_version, field_uid, field_revision,
}
use proton_carddav_sync.VcardSync.Fields.{fields_equal, union_keys}

pub data Side : Type 0 where
  side_proton side_carddav : Side

unfoldable pub is_empty : List Field → Bool
is_empty [] = true
is_empty (f ∷ fs) = false

abbrev pub winning : Side → List Field → List Field → List Field
winning side_proton pr cd = pr
winning side_carddav pr cd = cd

-- The switch of the loop: the fields chosen, and whether the property is a conflict. `pb` and `cb`
-- are the bases of the two sides, `pr` and `cd` their current fields.
unfoldable pub choose : Side → (pb cb pr cd : List Field) → List Field × Bool
unfolding is_empty
choose winner pb cb pr cd =
    let changed_proton = not (fields_equal pb pr) in
    let changed_carddav = not (fields_equal cb cd) in
    if changed_proton && changed_carddav
    then (if fields_equal pr cd then (pr, false) else (winning winner pr cd, true))
    else if changed_proton
    then (pr, false)
    else if changed_carddav
    then (cd, false)
    else (if is_empty cd then pr else cd, false)

-- The properties that the loop skips.
unfoldable pub is_identity : String → Bool
unfolding string_eq
is_identity name = name == field_version || name == field_uid || name == field_revision

abbrev pub Merging : Type 0
Merging = Card × List String

-- `if len(chosen) > 0 { merged[name] = chosen }`, and `conflicts = append(conflicts, name)`
unfoldable pub record_choice : String → List Field × Bool → Merging → Merging
unfolding is_empty insert
record_choice name (chosen, conflict) (merged, conflicts) = (
  (if is_empty chosen then merged else insert name chosen merged),
  (if conflict then conflicts ++ name ∷ [] else conflicts),
)

-- `setIdentity`, with whether a value was set
unfoldable pub set_identity : Card → String → Card → Card → Card × Bool
unfolding fields_of is_empty insert
set_identity merged name primary fallback =
    if not (is_empty (fields_of primary name))
    then (insert name (fields_of primary name) merged, true)
    else if not (is_empty (fields_of fallback name))
    then (insert name (fields_of fallback name) merged, true)
    else (merged, false)

-- The loop of `RevTime` over the layouts.
unfoldable pub first_parse : List Layout → List ℕ → Instant
unfolding parse zero_time
first_parse [] value = zero_time
first_parse (layout ∷ layouts) value =
    let rest = first_parse layouts value in elim (parse layout value) [ none ↦ rest | some t ↦ t ]

unfoldable pub rev_of : Option Field → Instant
unfolding first_parse trim_space
rev_of none = zero_time
rev_of (some f) = first_parse (rfc3339 ∷ basic_utc ∷ basic ∷ basic_date ∷ []) (trim_space f.value)

-- `RevTime`
unfoldable pub rev_time : Card → Instant
unfolding rev_of get
rev_time card = rev_of (get card field_revision)

-- `NewerSide`
unfoldable pub newer_side : Card → Card → Side
unfolding rev_time
newer_side proton carddav =
    if after (rev_time carddav) (rev_time proton) then side_carddav else side_proton

-- The steps after the loop. UID: CardDAV first.
unfoldable pub put_uid : Card → Card → Card → Card
put_uid proton carddav merged = (set_identity merged field_uid carddav proton).0

-- VERSION: CardDAV first, and 4.0 where neither side has one.
unfoldable pub put_version : Card → Card → Card → Card
put_version proton carddav merged =
    let (m, found) = set_identity merged field_version carddav proton in
    if found then m else set_value m field_version "4.0"

-- REV: the newer side first.
unfoldable pub put_rev : Card → Card → Card → Card
put_rev proton carddav merged =
    if after (rev_time carddav) (rev_time proton)
    then (set_identity merged field_revision carddav proton).0
    else (set_identity merged field_revision proton carddav).0

unfoldable pub finish : Card → Card → Card → Card
finish proton carddav merged =
    put_rev proton carddav (put_version proton carddav (put_uid proton carddav merged))

module _ (winner : Side) (proton_base carddav_base proton carddav : Card) where
  -- The body of the loop, for one property name.
  unfoldable pub merge_name : String → Merging → Merging
  merge_name name s =
      if is_identity name
      then s
      else record_choice name
          (choose winner (fields_of proton_base name) (fields_of carddav_base name)
            (fields_of proton name) (fields_of carddav name))
          s

  unfoldable pub merge_names : List String → Merging → Merging
  merge_names [] s = s
  merge_names (name ∷ names) s = merge_names names (merge_name name s)

  -- `ThreeWay`. `visit` is the order in which `range` visits the set of names.
  unfoldable pub three_way : (List String → List String) → Card × List String
  three_way visit =
      let names = visit (union_keys (proton_base ∷ carddav_base ∷ proton ∷ carddav ∷ []) []) in
      let (merged, conflicts) = merge_names names ([], []) in
      (finish proton carddav merged, conflicts)
