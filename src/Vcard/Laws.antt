-- ===== src/Vcard/Laws.antt =====
-- The fields of a card after a write.
use proton_carddav_sync.Base.{◌≡◌, String, List, ◌==◌, string_eq, arith, if◌then◌else◌}
use proton_carddav_sync.Base.Dict.{insert, lookup-insert}
use proton_carddav_sync.Vcard.{Field, Card, fields_of}

pub fields_of-insert :
    (n k : String) (fs : List Field) (card : Card)
    → fields_of (insert k fs card) n ≡ (if n == k then fs else fields_of card n)
unfolding fields_of
fields_of-insert n k fs card = rw (lookup-insert n k fs card) (ground arith)
