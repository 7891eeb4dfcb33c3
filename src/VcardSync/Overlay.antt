-- ===== src/VcardSync/Overlay.antt =====
-- internal/vcardsync/merge.go, Overlay: the one-way merge.
pub mod Laws
use proton_carddav_sync.Base.{String, Bool, false, ◌||◌, [], ◌∷◌, ◌==◌, string_eq, if◌then◌else◌}
use proton_carddav_sync.Base.Dict.{insert}
use proton_carddav_sync.Vcard.{Card, field_version, field_uid}

-- `preservedFromDst[name]`
unfoldable pub preserved_from_dst : String → Bool
unfolding string_eq
preserved_from_dst name = name == field_version || name == field_uid

-- `for name, fields := range card { if skip { continue }; merged[name] = fields }`
unfoldable pub put_all : (String → Bool) → Card → Card → Card
unfolding insert
put_all skip [] merged = merged
put_all skip ((name, fields) ∷ card) merged =
    put_all skip card (if skip name then merged else insert name fields merged)

-- `Overlay`
unfoldable pub overlay : Card → Card → Card
unfolding put_all preserved_from_dst
overlay dst src = put_all preserved_from_dst src (put_all (λ _. false) dst [])
