-- ===== src/Vcard.antt =====
-- The vCards that the program handles, as the `vcard.Card` of github.com/emersion/go-vcard, a map
-- that the program reads and writes itself; that library's parser and printer are a parameter.
pub mod Laws
use proton_carddav_sync.Base.{String, Option, none, some, List, [], ◌∷◌, string_eq}
use proton_carddav_sync.Base.Dict.{Dict, lookup, insert}
use proton_carddav_sync.Base.Result.{Result}

-- `vcard.Field`
pub record Field : Type 0 where
  pub value : String
  pub params : Dict String (List String)
  pub group : String

-- `vcard.Card`, a map from property names to fields
abbrev pub Card : Type 0
Card = Dict String (List Field)

abbrev pub or_empty : Option (List Field) → List Field
or_empty none = []
or_empty (some fs) = fs

-- `card[name]`, which is empty for a name that the map lacks
unfoldable pub fields_of : Card → String → List Field
unfolding lookup
fields_of card name = or_empty (lookup name card)

abbrev pub first : List Field → Option Field
first [] = none
first (f ∷ fs) = some f

-- `card.Get(name)`
unfoldable pub get : Card → String → Option Field
unfolding fields_of
get card name = first (fields_of card name)

abbrev pub value_of : Option Field → String
value_of none = ""
value_of (some f) = f.value

-- `card.Value(name)`
unfoldable pub value : Card → String → String
unfolding get
value card name = value_of (get card name)

abbrev pub plain : String → Field
plain v = record { value = v; params = []; group = "" }

-- `card.SetValue(name, v)` of a card that has no such property
unfoldable pub set_value : Card → String → String → Card
unfolding insert
set_value card name v = insert name (plain v ∷ []) card

-- the property names that the program treats apart
abbrev pub field_version : String
field_version = "VERSION"

abbrev pub field_uid : String
field_uid = "UID"

abbrev pub field_revision : String
field_revision = "REV"

abbrev pub field_formatted_name : String
field_formatted_name = "FN"

abbrev pub field_name : String
field_name = "N"

abbrev pub field_email : String
field_email = "EMAIL"

-- `vcard.NewDecoder(…).Decode()` and `vcard.NewEncoder(…).Encode(card)`
pub record Codec : Type 0 where
  pub parse : String → Result Card
  pub print : Card → Result String
