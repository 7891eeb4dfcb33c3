-- ===== src/Library.antt =====
-- What the program takes from outside: the vCard codec, Go's order of ranging over a map, and the
-- digest `hashString` of a text. The laws that a theorem needs are hypotheses of that theorem.
use proton_carddav_sync.Base.{◌≡◌, String, false, List}
use proton_carddav_sync.Base.Result.{ok}
use proton_carddav_sync.Vcard.{Card, Codec, fields_of, field_version}
use proton_carddav_sync.VcardSync.ThreeWay.{is_empty}

pub record Library : Type 0 where
  pub codec : Codec
  pub visit : List String → List String
  -- the hex digest of SHA-256
  pub digest : String → String

-- The documented behaviour of the codec: `Encode` wants a VERSION and does not fail for any other
-- reason, as it writes to memory.
pub record Prints (lib : Library) : Type 0 where
  pub print-ok :
      (card : Card)
      → is_empty (fields_of card field_version) ≡ false
      → (text : String) × (lib.codec.print card ≡ ok text)
