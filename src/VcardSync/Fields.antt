-- ===== src/VcardSync/Fields.antt =====
-- internal/vcardsync/merge.go, fieldKeys, fieldsEqual and unionKeys.
pub mod Order
pub mod Union
use proton_carddav_sync.Base.{
  String, ◌<>◌, Bool, true, false, ◌&&◌, List, [], ◌∷◌, length, ◌==◌, string_eq, nat_eq, Eq,
  if◌then◌else◌,
}
use proton_carddav_sync.Base.Dict.{Dict, keys, lookup, insert}
use proton_carddav_sync.Base.Range.{add_key}
use proton_carddav_sync.Base.Sort.{sort}
use proton_carddav_sync.Vcard.{Field, Card}
use mathlib.Core.Option.{get_or}

-- `strings.Join(vals, ",")`
unfoldable pub join : List String → String
join [] = ""
join (x ∷ []) = x
join (x ∷ y ∷ xs) = x <> "," <> join (y ∷ xs)

-- The text of one parameter, its values sorted.
unfoldable pub param_key : String → List String → String
unfolding join sort
param_key p vals = "\0" <> p <> "=" <> join (sort vals)

-- The loop over the sorted parameter names.
unfoldable pub params_key : Dict String (List String) → List String → String
unfolding param_key lookup
params_key params [] = ""
params_key params (p ∷ names) = param_key p (get_or (lookup p params) []) <> params_key params names

-- The text that stands for a field: its value, and its parameters in the order of their names.
unfoldable pub field_key : Field → String
unfolding params_key keys sort
field_key f = f.value <> params_key f.params (sort (keys f.params))

unfoldable pub key_list : List Field → List String
unfolding field_key
key_list [] = []
key_list (f ∷ fs) = field_key f ∷ key_list fs

-- `fieldKeys`
unfoldable pub field_keys : List Field → List String
unfolding key_list sort
field_keys fields = sort (key_list fields)

-- The loop `for i := range ka`, over lists of the same length.
unfoldable pub keys_match : List String → List String → Bool
keys_match [] kb = true
keys_match (a ∷ ka) [] = false
keys_match (a ∷ ka) (b ∷ kb) = a == b && keys_match ka kb

-- `fieldsEqual`
unfoldable pub fields_equal : List Field → List Field → Bool
unfolding field_keys keys_match string_eq nat_eq
fields_equal a b = if length a == length b then keys_match (field_keys a) (field_keys b) else false

unfoldable pub add_keys : Card → List String → List String
unfolding add_key
add_keys [] ks = ks
add_keys ((name, _) ∷ card) ks = add_keys card (add_key name ks)

-- `unionKeys`
unfoldable pub union_keys : List Card → List String → List String
unfolding add_keys
union_keys [] ks = ks
union_keys (card ∷ cards) ks = union_keys cards (add_keys card ks)
