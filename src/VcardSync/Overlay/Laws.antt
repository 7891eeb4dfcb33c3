-- ===== src/VcardSync/Overlay/Laws.antt =====
-- internal/vcardsync/merge.go, Overlay: what is under each name.
use mathlib.Core.Option.{or_else}
use proton_carddav_sync.Base.{
  ◌≡◌, ◌==◌, ◌||◌, String, Bool, false, [], ◌∷◌, string_eq, arith, if◌then◌else◌,
}
use proton_carddav_sync.Base.Dict.{
  insert, lookup, NodupKeys, lookup-nil, lookup-cons, lookup-insert,
}
use proton_carddav_sync.Vcard.{Card, field_version, field_uid}
use proton_carddav_sync.VcardSync.Overlay.{preserved_from_dst, put_all, overlay}

lookup-put_all :
    (skip : String → Bool) (n : String) (card merged : Card)
    → NodupKeys card
    → lookup n (put_all skip card merged)
      ≡ (if skip n then lookup n merged else or_else (lookup n card) (lookup n merged))
unfolding put_all or_else
lookup-put_all skip n [] merged u = rw lookup-nil (ground arith)
lookup-put_all skip n ((name, fields) ∷ card) merged (fresh, u) =
    rw
      (
        lookup-put_all skip n card (if skip name then merged else insert name fields merged) u,
        lookup-cons,
      )
      (ground (arith, lookup-insert n name fields merged))

-- On cards without repeated names, the overlay has VERSION and UID as `dst` has them, and under every
-- other name what `src` has, else what `dst` has.
pub lookup-overlay :
    (n : String) (dst src : Card)
    → NodupKeys dst
    → NodupKeys src
    → lookup n (overlay dst src) ≡ (
        if n == field_version || n == field_uid
        then lookup n dst
        else or_else (lookup n src) (lookup n dst))
unfolding overlay or_else preserved_from_dst
lookup-overlay n dst src u v =
    rw
      (
        lookup-put_all preserved_from_dst n src (put_all (λ _. false) dst []) v,
        lookup-put_all (λ _. false) n dst [] u,
        lookup-nil,
      )
      (ground arith)
