-- ===== src/Syncer/OneWay/Cap.antt =====
-- internal/syncer/syncer.go, syncCardDAVToProton: the cap on new Proton contacts.
use proton_carddav_sync.Base.{
  ◌≡◌, refl, ◌==◌, ℕ, ◌+◌, ◌≤◌, ◌<◌, String, Option, none, some, List, [], ◌∷◌, arith, string_eq,
}
use proton_carddav_sync.Base.Result.{Error, wrap_at, Result, ok, err, map_err}
use proton_carddav_sync.Base.Exec.{Exec, pure, within, continue, ◌>>=◌, ◌>>◌}
use proton_carddav_sync.Base.Exec.Keeps.{Keeps, Keeps-within}
use proton_carddav_sync.Carddav.Interface.{AddressObject}
use proton_carddav_sync.Db.Contacts.{ContactRecord}
use proton_carddav_sync.Syncer.{Syncer, on_proton}
use proton_carddav_sync.Syncer.Frame.{
  ProtonHas-check_ctx, ProtonHas-read_base, ProtonHas-on_proton, ProtonHas-on_carddav,
  ProtonHas-on_db,
}
use proton_carddav_sync.Syncer.Index.{W}
use proton_carddav_sync.Syncer.OneWay.{
  save_hash, push_to_proton, push_printed, push_objects, sync_carddav_to_proton,
}
use proton_carddav_sync.Syncer.Reconcile.{Counters, start}
use proton_carddav_sync.Syncer.Reconcile.Cap.{
  below_cap, Left, Capped, Capped-pure, Capped-deferred, Capped-if, Capped-after, Capped-bind,
  Bounded, Bounded-after, Bounded-loop,
}
use proton_carddav_sync.Syncer.Reconcile.Count.{IsCount, AtMost}

module _ (s : Syncer) (count : s.proton.State → ℕ) (counts : IsCount s count) (first : ℕ)
    (pos : 0 < s.max_new_proton) where
  save_hash-AtMost :
      (n : ℕ) (uid etag text : String) → Keeps (AtMost s count counts n) (save_hash s uid etag text)
  save_hash-AtMost n uid etag text = Keeps-within _ _ (ProtonHas-on_db _)

  update-AtMost :
      (n : ℕ) (id vcard : String)
      → Keeps (AtMost s count counts n) (on_proton (s.proton.update_contact id vcard))
  update-AtMost n id vcard =
      ProtonHas-on_proton _ (record { at = λ q h. omega (arith, counts.update id vcard q) })

  -- What follows a create that went through.
  counted : (uid etag vcard : String) (k : Counters) → Exec (W s) Counters
  counted uid etag vcard k =
      save_hash s uid etag vcard >> pure (record k { new_proton = k.new_proton + 1 })

  -- The update of a contact that has a record.
  updated : (rec : ContactRecord) (uid etag vcard : String) (k : Counters) → Exec (W s) Counters
  updated rec uid etag vcard k =
      within (wrap_at "update proton contact" uid)
        (on_proton (s.proton.update_contact rec.uid vcard))
      >> (save_hash s uid etag vcard >> pure k)

  counted-Left :
      (r : Result String) (uid etag vcard : String) (k : Counters) (w : W s)
      → count w.proton ≤ first + k.new_proton + 1
      → ((e : Error) → r ≡ err e → count w.proton ≤ first + k.new_proton)
      → k.new_proton < s.max_new_proton
      → let m =
          continue
            (map_err (wrap_at "create proton contact" uid) r)
            (λ _. counted uid etag vcard k)
            w in
        Left s count counts first m.0 m.1
  unfolding counted
  counted-Left (ok id) uid etag vcard k w h g b =
      (Capped-after s count counts first _ _ _ (save_hash-AtMost _ uid etag vcard)
          (λ _. Capped-pure s count counts first (record k { new_proton = k.new_proton + 1 }))).at
        w (omega arith) (omega arith)
  counted-Left (err e) uid etag vcard k w h g b = omega (arith, g e refl)

  create-Left :
      (uid etag vcard : String) (k : Counters)
      → k.new_proton < s.max_new_proton
      → (w : W s) → count w.proton ≤ first + k.new_proton
      → let m =
          (within (wrap_at "create proton contact" uid) (on_proton (s.proton.create_contact vcard))
              >>= λ _. counted uid etag vcard k)
            w in
        Left s count counts first m.0 m.1
  unfolding ◌>>=◌ on_proton
  create-Left uid etag vcard k b w h =
      let (r, p) = s.proton.create_contact vcard w.proton in
      counted-Left r uid etag vcard k (record w { proton = p })
        (omega (arith, counts.create vcard w.proton))
        (λ e q. omega (arith, counts.create_failed vcard w.proton e q)) b

  push_to_proton-Capped :
      (rec : Option ContactRecord) (uid etag vcard : String) (k : Counters)
      → Capped s count counts first k.new_proton (push_to_proton s rec uid etag vcard k)
  unfolding push_to_proton counted updated
  push_to_proton-Capped none uid etag vcard k =
      Capped-if s count counts first _ _ _ _ (λ _. Capped-deferred s count counts first k _)
        (λ below. record {
          at = λ w h b. create-Left uid etag vcard k (below_cap s k.new_proton pos below) w h;
        })
  push_to_proton-Capped (some rec) uid etag vcard k =
      Capped-if s count counts first _ (rec.vcard_hash == s.lib.digest vcard) (pure k)
        (updated rec uid etag vcard k) (λ _. Capped-pure s count counts first k)
        (λ _.
          Capped-after s count counts first _ _ _
            (Keeps-within (wrap_at "update proton contact" uid) _ (update-AtMost _ rec.uid vcard))
            (λ _.
              Capped-after s count counts first _ _ _ (save_hash-AtMost _ uid etag vcard)
                (λ _. Capped-pure s count counts first k)))

  push_printed-Capped :
      (obj : AddressObject) (r : Result String) (k : Counters)
      → Capped s count counts first k.new_proton (push_printed s obj r k)
  unfolding push_printed
  push_printed-Capped obj (err e) k = Capped-pure s count counts first k
  push_printed-Capped obj (ok vcard) k =
      Capped-after s count counts first _ _ _ (ProtonHas-read_base _)
        (λ rec. push_to_proton-Capped rec _ obj.etag vcard k)

  push_objects-Capped :
      (objs : List AddressObject) (k : Counters)
      → Capped s count counts first k.new_proton (push_objects s objs k)
  unfolding push_objects
  push_objects-Capped [] k = Capped-pure s count counts first k
  push_objects-Capped (obj ∷ objs) k =
      Capped-after s count counts first _ _ _ ProtonHas-check_ctx (λ _.
        Capped-bind s count counts first _ _ _ (push_printed-Capped obj _ k)
          (λ k'. push_objects-Capped objs k'))

  pub carddav_to_proton-Bounded : Bounded s count counts first (sync_carddav_to_proton s)
  unfolding sync_carddav_to_proton
  carddav_to_proton-Bounded =
      Bounded-after s count counts first _ _ (Keeps-within _ _ (ProtonHas-on_carddav _))
        (λ objects. Bounded-loop s count counts first _ (push_objects-Capped objects (start s)))
