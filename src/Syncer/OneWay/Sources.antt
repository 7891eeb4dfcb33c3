-- ===== src/Syncer/OneWay/Sources.antt =====
-- internal/syncer/syncer.go, syncProtonToCardDAV and syncCardDAVToProton: the side that they read.
use proton_carddav_sync.Base.{◌≡◌, refl, ◌∙◌, String, Option, none, some, List, [], ◌∷◌, string_eq}
use proton_carddav_sync.Base.Result.{Result, ok, err}
use proton_carddav_sync.Base.Exec.Keeps.{
  Keeps, keeps_rules, Keeps-bind, Keeps-then, Keeps-attempt, Keeps-within,
}
use proton_carddav_sync.Carddav.Interface.{AddressObject}
use proton_carddav_sync.Db.Contacts.{ContactRecord}
use proton_carddav_sync.Protonmail.Interface.{Contact}
use proton_carddav_sync.Syncer.{Syncer}
use proton_carddav_sync.Syncer.Frame.{
  ProtonHas, ProtonHas-on_proton, CarddavHas, CarddavHas-on_carddav, proton_frame, carddav_frame,
}
use proton_carddav_sync.Syncer.Index.{W}
use proton_carddav_sync.Syncer.Reconcile.{Counters}
use proton_carddav_sync.Syncer.Reconcile.Listing.{ReadOnly}
use proton_carddav_sync.Syncer.OneWay.{
  put_text, push_fetched, push_all, carddav_by_uid, sync_proton_to_carddav, push_to_proton,
  push_printed, push_objects, sync_carddav_to_proton, Texts,
}

module _ (s : Syncer) (Q : s.proton.State → Type 0) (list_keeps : Keeps Q s.proton.list_contacts)
    (get_keeps : (id : String) → Keeps Q (s.proton.get_contact_vcard id)) where
  put_text-Keeps : (uid : String) (text : Option String) → Keeps (ProtonHas Q) (put_text s uid text)
  unfolding put_text
  put_text-Keeps uid none = search (keeps_rules, proton_frame)
  put_text-Keeps uid (some text) = search (keeps_rules, proton_frame)

  push_fetched-Keeps :
      (existing : Texts) (ct : Contact) (got : Result String)
      → Keeps (ProtonHas Q) (push_fetched s existing ct got)
  unfolding push_fetched
  push_fetched-Keeps existing ct (err e) = search keeps_rules
  push_fetched-Keeps existing ct (ok v) = search (put_text-Keeps)

  push_all-Keeps :
      (existing : Texts) (cts : List Contact) → Keeps (ProtonHas Q) (push_all s existing cts)
  unfolding push_all
  push_all-Keeps existing [] = search keeps_rules
  push_all-Keeps existing (ct ∷ cts) = Keeps-then _ _ (search proton_frame) (
      Keeps-bind _ _ (search (Keeps-attempt, ProtonHas-on_proton, get_keeps))
        (λ got. Keeps-then _ _ (push_fetched-Keeps existing ct got) (push_all-Keeps existing cts)))

  pub sync_proton_to_carddav-Keeps : Keeps (ProtonHas Q) (sync_proton_to_carddav s)
  unfolding sync_proton_to_carddav carddav_by_uid
  sync_proton_to_carddav-Keeps =
      Keeps-bind _ _ (Keeps-within _ _ (ProtonHas-on_proton _ list_keeps)) (λ contacts.
        Keeps-bind _ _ (search (keeps_rules, proton_frame))
          (λ existing. push_all-Keeps existing contacts))

module _ (s : Syncer) (Q : s.carddav.State → Type 0)
    (list_keeps : Keeps Q s.carddav.list_contacts) where
  push_to_proton-Keeps :
      (rec : Option ContactRecord) (uid etag vcard : String) (k : Counters)
      → Keeps (CarddavHas Q) (push_to_proton s rec uid etag vcard k)
  unfolding push_to_proton
  push_to_proton-Keeps none uid etag vcard k = search (keeps_rules, carddav_frame)
  push_to_proton-Keeps (some rec) uid etag vcard k = search (keeps_rules, carddav_frame)

  push_printed-Keeps :
      (obj : AddressObject) (r : Result String) (k : Counters)
      → Keeps (CarddavHas Q) (push_printed s obj r k)
  unfolding push_printed
  push_printed-Keeps obj (err e) k = search keeps_rules
  push_printed-Keeps obj (ok vcard) k =
      Keeps-bind _ _ (search carddav_frame) (λ rec. push_to_proton-Keeps rec _ _ _ k)

  push_objects-Keeps :
      (objs : List AddressObject) (k : Counters) → Keeps (CarddavHas Q) (push_objects s objs k)
  unfolding push_objects
  push_objects-Keeps [] k = search keeps_rules
  push_objects-Keeps (obj ∷ objs) k =
      Keeps-then _ _ (search carddav_frame)
        (Keeps-bind _ _ (push_printed-Keeps obj _ k) (λ k'. push_objects-Keeps objs k'))

  sync_carddav_to_proton-Keeps : Keeps (CarddavHas Q) (sync_carddav_to_proton s)
  unfolding sync_carddav_to_proton
  sync_carddav_to_proton-Keeps =
      Keeps-bind _ _ (Keeps-within _ _ (CarddavHas-on_carddav _ list_keeps))
        (λ objects. Keeps-then _ _ (push_objects-Keeps objects _) (search keeps_rules))

-- Where listing and fetching leave Proton's state alone, syncing from Proton to CardDAV does, whatever
-- fails on the way.
proton_unchanged :
    (s : Syncer) (w : W s)
    → ((p : s.proton.State) → (s.proton.list_contacts p).1 ≡ p)
    → ((id : String) (p : s.proton.State) → (s.proton.get_contact_vcard id p).1 ≡ p)
    → (sync_proton_to_carddav s w).1.proton ≡ w.proton
proton_unchanged s w list_reads get_reads =
    ((sync_proton_to_carddav-Keeps s (λ p. p ≡ w.proton) (record { at = λ p h. list_reads p ∙ h })
        (λ id. record { at = λ p h. get_reads id p ∙ h })).at
      w (record { holds = refl })).holds

-- Where listing leaves CardDAV's state alone, syncing from CardDAV to Proton does.
carddav_unchanged :
    (s : Syncer) (w : W s)
    → ((c : s.carddav.State) → (s.carddav.list_contacts c).1 ≡ c)
    → (sync_carddav_to_proton s w).1.carddav ≡ w.carddav
carddav_unchanged s w list_reads =
    ((sync_carddav_to_proton-Keeps s (λ c. c ≡ w.carddav)
        (record { at = λ c h. list_reads c ∙ h })).at
      w (record { holds = refl })).holds

-- Where listing and fetching leave the accounts alone, a sync from Proton to CardDAV leaves the account of
-- Proton as it was, and one from CardDAV to Proton the address book, whatever fails on the way.
pub sources_unchanged :
    (s : Syncer) (w : W s)
    → ReadOnly s
    → ((sync_proton_to_carddav s w).1.proton ≡ w.proton)
      × ((sync_carddav_to_proton s w).1.carddav ≡ w.carddav)
sources_unchanged s w reads =
    (proton_unchanged s w reads.list reads.fetch, carddav_unchanged s w reads.query)
