-- ===== src/VcardSync/Strings.antt =====
-- internal/vcardsync/merge.go, the functions on vCard texts: OverlayString, ThreeWayString,
-- EqualString and ProtonRelevantDiff.
pub mod Laws
pub mod Reparse
pub mod Settled
use proton_carddav_sync.Base.{
  String, Bool, true, false, not, ◌||◌, List, [], ◌∷◌, ◌==◌, string_eq, if◌then◌else◌,
}
use proton_carddav_sync.Base.Text.{is_blank}
use proton_carddav_sync.Base.Result.{Error, wrap, Result, ok, err, ◌>>=◌, map_err}
use proton_carddav_sync.Library.{Library}
use proton_carddav_sync.Vcard.{Card, fields_of, field_version}
use proton_carddav_sync.VcardSync.Fields.{fields_equal, union_keys}
use proton_carddav_sync.VcardSync.Overlay.{overlay}
use proton_carddav_sync.VcardSync.ThreeWay.{Side, side_proton, side_carddav, three_way, newer_side}

pub data Policy : Type 0 where
  prefer_newer prefer_proton prefer_carddav : Policy

-- The switch of `ThreeWayString`.
unfoldable pub winner_by : Policy → Card → Card → Side
unfolding newer_side
winner_by prefer_newer pr cd = newer_side pr cd
winner_by prefer_proton pr cd = side_proton
winner_by prefer_carddav pr cd = side_carddav

-- The loop of `EqualString`.
unfoldable pub all_equal : Card → Card → List String → Bool
all_equal ca cb [] = true
all_equal ca cb (name ∷ names) =
    if not (fields_equal (fields_of ca name) (fields_of cb name))
    then false
    else all_equal ca cb names

-- The loop of `ProtonRelevantDiff`.
unfoldable pub any_differs : Card → Card → List String → Bool
any_differs m pc [] = false
any_differs m pc (name ∷ names) =
    if name == field_version
    then any_differs m pc names
    else (if not (fields_equal (fields_of m name) (fields_of pc name))
        then true
        else any_differs m pc names)

module _ (lib : Library) where
  unfoldable pub decode : String → Result Card
  decode raw = map_err (wrap "decode vcard") (lib.codec.parse raw)

  unfoldable pub encode : Card → Result String
  encode card = map_err (wrap "encode vcard") (lib.codec.print card)

  unfoldable pub decode_or_empty : String → Result Card
  decode_or_empty raw = if is_blank raw then ok [] else decode raw

  unfoldable pub overlay_string : String → String → Result String
  overlay_string dst src = do
    dst_card ← map_err (wrap "parse base vcard") (decode dst)
    src_card ← map_err (wrap "parse incoming vcard") (decode src)
    encode (overlay dst_card src_card)

  -- The merged text, with the names of the conflicting properties.
  unfoldable pub three_way_string :
      (proton_base carddav_base proton carddav : String) → Policy → Result (String × List String)
  three_way_string proton_base carddav_base proton carddav policy = do
    pb ← map_err (wrap "parse proton base") (decode_or_empty proton_base)
    cb ← map_err (wrap "parse carddav base") (decode_or_empty carddav_base)
    pr ← map_err (wrap "parse proton") (decode_or_empty proton)
    cd ← map_err (wrap "parse carddav") (decode_or_empty carddav)
    let result = three_way (winner_by policy pr cd) pb cb pr cd lib.visit
    out ← encode result.0
    ok (out, result.1)

  unfoldable pub equal_string : String → String → Result Bool
  equal_string a b = do
    ca ← decode_or_empty a
    cb ← decode_or_empty b
    ok (all_equal ca cb (lib.visit (union_keys (ca ∷ cb ∷ []) [])))

  unfoldable pub proton_relevant_diff : (merged proton_current proton_base : String) → Result Bool
  proton_relevant_diff merged proton_current proton_base = do
    m ← decode_or_empty merged
    pc ← decode_or_empty proton_current
    pb ← decode_or_empty proton_base
    ok (any_differs m pc (lib.visit (union_keys (pc ∷ pb ∷ []) [])))
