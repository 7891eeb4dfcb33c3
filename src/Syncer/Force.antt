-- ===== src/Syncer/Force.antt =====
-- internal/syncer/syncer.go, ForceContacts and forceOne: the repair of single contacts.
pub mod Total
use proton_carddav_sync.Base.{
  String, Bool, true, false, Option, none, some, List, [], ◌∷◌, ◌==◌, string_eq, if◌then◌else◌,
}
use proton_carddav_sync.Base.Dict.{Dict, keys, lookup, insert}
use proton_carddav_sync.Base.Range.{add_all}
use proton_carddav_sync.Base.Result.{wrap, Result, ok, err}
use proton_carddav_sync.Base.Exec.{Exec, pure, attempt, within, ◌>>=◌, ◌>>◌}
use proton_carddav_sync.Protonmail.Interface.{Contact}
use proton_carddav_sync.Syncer.{Syncer, ContactSide, on_proton, on_carddav, check_ctx, save_bases}
use proton_carddav_sync.Syncer.Index.{Sides, W, proton_by_uid, carddav_index}
use proton_carddav_sync.Syncer.Reconcile.{refetch, all_uids}

-- The loop over the contact list: the index by UID, and whether every contact had one.
unfoldable pub meta_index : List Contact → Sides × Bool → Sides × Bool
meta_index [] s = s
meta_index (ct ∷ cts) (out, complete) = meta_index cts (
    if ct.uid == "" then (out, false) else (
      insert ct.uid (record { id = ct.id; etag = ""; vcard = ""; name = ct.name }) out,
      complete,
    ))

module _ (s : Syncer) where
  unfoldable pub proton_meta : Sides × Bool → Exec (W s) Sides
  proton_meta (out, true) = pure out
  proton_meta (out, false) = proton_by_uid s

  -- The card of the Proton side, fetched where the index has none.
  unfoldable pub card_of : ContactSide → Exec (W s) (Result String)
  card_of p =
      if p.vcard == ""
      then attempt (on_proton (s.proton.get_contact_vcard p.id))
      else pure (ok p.vcard)

  unfoldable pub after_put : Result (Unit {0}) → (uid v : String) → Exec (W s) (Unit {0})
  after_put (err e) uid v = pure tt
  after_put (ok _) uid v = save_bases s.lib uid "" v v

  unfoldable pub force_to_carddav : String → Result String → Exec (W s) (Unit {0})
  force_to_carddav uid (err e) = pure tt
  force_to_carddav uid (ok v) = do
    put ← attempt (on_carddav (s.carddav.put_contact uid v))
    after_put put uid v

  -- The bases after a write to Proton: the refetched card, else what was sent.
  unfoldable pub save_written : String → ContactSide → Result String → Exec (W s) (Unit {0})
  save_written uid c (err e) = pure tt
  save_written uid c (ok id) = do
    base ← refetch s id c.vcard
    save_bases s.lib uid c.etag base c.vcard

  abbrev with_id : String → Result (Unit {0}) → Result String
  with_id id (ok _) = ok id
  with_id id (err e) = err e

  -- `forceOne`
  unfoldable pub force_one :
      String → Option ContactSide → Option ContactSide → Exec (W s) (Unit {0})
  force_one uid none none = pure tt
  force_one uid (some p) none = do v ← card_of p; force_to_carddav uid v
  force_one uid none (some c) = do
    created ← attempt (on_proton (s.proton.create_contact c.vcard))
    save_written uid c created
  force_one uid (some p) (some c) = do
    updated ← attempt (on_proton (s.proton.update_contact p.id c.vcard))
    save_written uid c (with_id p.id updated)

  module _ (protons carddavs : Sides) where
    unfoldable pub force_loop : List String → Exec (W s) (Unit {0})
    force_loop [] = pure tt
    force_loop (uid ∷ uids) = do
      check_ctx
      force_one uid (lookup uid protons) (lookup uid carddavs)
      force_loop uids

  -- `ForceContacts`
  unfoldable pub force_contacts : List String → Bool → Exec (W s) (Unit {0})
  force_contacts uids everything = do
    carddavs ← carddav_index s
    contacts ← within (wrap "list proton contacts") (on_proton s.proton.list_contacts)
    protons ← proton_meta (meta_index contacts ([], true))
    force_loop protons carddavs (if everything then all_uids s protons carddavs else uids)
