-- ===== src/Syncer/Index.antt =====
-- internal/syncer/syncer.go, protonByUID and carddavIndex: the contacts of a side by vCard UID.
use proton_carddav_sync.Base.{String, List, [], ◌∷◌, ◌==◌, string_eq, if◌then◌else◌}
use proton_carddav_sync.Base.Dict.{Dict, insert}
use proton_carddav_sync.Base.Result.{wrap, Result, ok, err}
use proton_carddav_sync.Base.Exec.{Exec, pure, attempt, within, ◌>>=◌, ◌>>◌}
use proton_carddav_sync.Carddav.Interface.{AddressObject}
use proton_carddav_sync.Protonmail.Interface.{Contact}
use proton_carddav_sync.Syncer.{
  Syncer, World, ContactSide, on_proton, on_carddav, check_ctx, extract_uid, extract_fn,
}

abbrev pub Sides : Type 0
Sides = Dict String ContactSide

module _ (s : Syncer) where
  abbrev pub W : Type 0
  W = World s.proton.State s.carddav.State

  -- The body of the loop of `protonByUID`, on what fetching the card gave: a failure is skipped.
  unfoldable pub add_proton : Contact → Result String → Sides → Sides
  add_proton ct (err e) out = out
  add_proton ct (ok v) out =
      insert (extract_uid s.lib v ct.id)
        (record {
          id = ct.id;
          etag = "";
          vcard = v;
          name = if ct.name == "" then extract_fn s.lib v else ct.name;
        })
        out

  unfoldable pub fetch_all : List Contact → Sides → Exec W Sides
  fetch_all [] out = pure out
  fetch_all (ct ∷ cts) out = do
    check_ctx
    got ← attempt (on_proton (s.proton.get_contact_vcard ct.id))
    fetch_all cts (add_proton ct got out)

  -- `protonByUID`
  unfoldable pub proton_by_uid : Exec W Sides
  proton_by_uid = do
    contacts ← within (wrap "list proton contacts") (on_proton s.proton.list_contacts)
    fetch_all contacts []

  -- The body of the loop of `carddavIndex`: a card that does not print is skipped.
  unfoldable pub add_object : AddressObject → Sides → Sides
  add_object obj out = elim (s.lib.codec.print obj.card) [
    | err e ↦ out
    | ok str ↦
        insert (extract_uid s.lib str obj.path)
          (record { id = ""; etag = obj.etag; vcard = str; name = extract_fn s.lib str }) out
  ]

  unfoldable pub index_objects : List AddressObject → Sides → Sides
  index_objects [] out = out
  index_objects (obj ∷ objs) out = index_objects objs (add_object obj out)

  -- `carddavIndex`
  unfoldable pub carddav_index : Exec W Sides
  carddav_index = do
    objects ← within (wrap "list carddav contacts") (on_carddav s.carddav.list_contacts)
    pure (index_objects objects [])
