-- ===== src/VcardSync/Fields/Union.antt =====
-- internal/vcardsync/merge.go, unionKeys: the names that it collects.
use proton_carddav_sync.Base.{◌≡◌, refl, String, false, List, [], ◌∷◌, contains, string_eq, arith}
use proton_carddav_sync.Base.Range.{add_key, contains-add_key}
use proton_carddav_sync.Vcard.{Card, fields_of}
use proton_carddav_sync.VcardSync.Fields.{add_keys, union_keys}

-- A name that the result lacks is in neither argument.
lacks-add_keys :
    (n : String) (card : Card) (ks : List String)
    → contains (add_keys card ks) n ≡ false
    → (fields_of card n ≡ []) × (contains ks n ≡ false)
unfolding add_keys fields_of
lacks-add_keys n [] ks h = (refl, h)
lacks-add_keys n ((name, fs) ∷ card) ks h =
    ground (arith, lacks-add_keys n card (add_key name ks) h, contains-add_key n name ks)

abbrev pub AllLack : String → List Card → Type 0
AllLack n [] = Unit
AllLack n (card ∷ cards) = (fields_of card n ≡ []) × AllLack n cards

lacks-union_keys :
    (n : String) (cards : List Card) (ks : List String)
    → contains (union_keys cards ks) n ≡ false
    → AllLack n cards × (contains ks n ≡ false)
unfolding union_keys
lacks-union_keys n [] ks h = (tt, h)
lacks-union_keys n (card ∷ cards) ks h =
    let (rest, lacks) = lacks-union_keys n cards (add_keys card ks) h in
    let (none_here, old) = lacks-add_keys n card ks lacks in ((none_here, rest), old)

-- A name outside the union has no fields on any card.
pub lacks_of_union_keys :
    (n : String) (cards : List Card) → contains (union_keys cards []) n ≡ false → AllLack n cards
lacks_of_union_keys n cards h = (lacks-union_keys n cards [] h).0
