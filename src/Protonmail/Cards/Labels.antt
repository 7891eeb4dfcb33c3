-- ===== src/Protonmail/Cards/Labels.antt =====
-- internal/protonmail/contacts.go: the labels that Apple and Synology put beside an e-mail.
use proton_carddav_sync.Base.{
  String, ◌&&◌, not, Option, none, some, List, [], ◌∷◌, ◌==◌, contains, string_eq, nat_eq,
  if◌then◌else◌,
}
use proton_carddav_sync.Base.Dict.{Dict, keys, lookup, insert, erase}
use proton_carddav_sync.Base.Text.{equal_fold, without_prefix}
use proton_carddav_sync.Vcard.{Field, Card, fields_of}
use mathlib.Core.Option.{get_or}

unfoldable pub first_fold : List String → Option String
first_fold [] = none
first_fold (name ∷ names) = if equal_fold name "X-ABLabel" then some name else first_fold names

-- `abLabelKey`
unfoldable pub label_key : Card → Option String
label_key card = first_fold (keys card)

-- `s[:len(s)-len(suffix)]` where `s` has the suffix
unfoldable pub without_suffix : String → String → Option String
without_suffix suffix String.[] = if suffix == "" then some "" else none
without_suffix suffix (String.◌∷◌ c s) =
    let rest = without_suffix suffix s in
    if String.◌∷◌ c s == suffix
    then some ""
    else elim rest [ none ↦ none | some t ↦ some (String.◌∷◌ c t) ]

abbrev unwrapped : String → Option String → String
unwrapped s none = s
unwrapped s (some inner) = inner

abbrev after_prefix : String → Option String → String
after_prefix s none = s
after_prefix s (some rest) = unwrapped s (without_suffix ">!$_" rest)

-- `decodeABLabel`. No text ends the prefix and starts the suffix, so that the suffix of `s` is that of
-- what follows the prefix.
unfoldable pub decode_label : String → String
decode_label s = after_prefix s (without_prefix "_$!<" s)

unfoldable pub label_groups : List Field → Dict String String → Dict String String
label_groups [] out = out
label_groups (f ∷ fs) out = label_groups fs (
    if not (f.group == "") && not (f.value == "")
    then insert f.group (decode_label f.value) out
    else out)

abbrev labels_at : Card → Option String → Dict String String
labels_at card none = []
labels_at card (some key) = label_groups (fields_of card key) []

-- `abLabelsByGroup`
unfoldable pub labels_by_group : Card → Dict String String
labels_by_group card = labels_at card (label_key card)

-- `setEmailType`
unfoldable pub set_email_type : Field → String → Field
set_email_type f label = record f { params = insert "TYPE" (label ∷ []) f.params }

unfoldable pub not_generic : List String → List String
not_generic [] = []
not_generic (t ∷ ts) =
    let kept = not_generic ts in if equal_fold t "internet" then kept else t ∷ kept

abbrev with_types : List String → Dict String (List String) → Dict String (List String)
with_types [] params = erase "TYPE" params
with_types (t ∷ ts) params = insert "TYPE" (t ∷ ts) params

-- `dropGenericType`
unfoldable pub drop_generic_type : Field → Field
drop_generic_type f = record f {
  params = with_types (not_generic (get_or (lookup "TYPE" f.params) [])) f.params;
}

unfoldable pub outside : List String → List Field → List Field
outside groups [] = []
outside groups (f ∷ fs) =
    let kept = outside groups fs in if contains groups f.group then kept else f ∷ kept

abbrev pub with_labels : String → List Field → Card → Card
with_labels key [] card = erase key card
with_labels key (f ∷ fs) card = insert key (f ∷ fs) card

abbrev pub remove_at : Card → List String → Option String → Card
remove_at card groups none = card
remove_at card groups (some key) = with_labels key (outside groups (fields_of card key)) card

-- `removeABLabels`
unfoldable pub remove_labels : Card → List String → Card
remove_labels card [] = card
remove_labels card (g ∷ gs) = remove_at card (g ∷ gs) (label_key card)
