-- ===== src/Syncer/Reconcile/Deletions.antt =====
-- internal/syncer/syncer.go, reconcile: a contact that has a record and that CardDAV lacks.
use proton_carddav_sync.Base.{
  ◌≡◌, ◌≢◌, refl, inl, inr, String, true, false, Option, none, some, List, [], ◌∷◌, ◌==◌, string_eq,
  arith, Bool-cases, sym, subst,
}
use proton_carddav_sync.Base.Dict.{lookup}
use proton_carddav_sync.Base.Result.{wrap, map_err, Result, ok, err}
use proton_carddav_sync.Base.Exec.{Exec, pure, continue, ◌>>=◌}
use proton_carddav_sync.Base.Exec.Keeps.{
  Keeps, after_bind, Keeps-bind, Keeps-bind_known, Keeps-then, Keeps-attempt, Keeps-within,
  Keeps-pure,
}
use proton_carddav_sync.Carddav.Interface.{AddressObject}
use proton_carddav_sync.Db.Contacts.{ContactRecord}
use proton_carddav_sync.Protonmail.Interface.{Contact}
use proton_carddav_sync.Syncer.{Syncer, ContactSide, on_carddav, read_base}
use proton_carddav_sync.Syncer.Frame.{CarddavHas, CarddavHas-check_ctx, CarddavHas-on_proton}
use proton_carddav_sync.Syncer.Index.{
  Sides, W, fetch_all, proton_by_uid, carddav_index, index_objects,
}
use proton_carddav_sync.Syncer.Reconcile.{
  Counters, reconcile_both, only_proton, dispatch, reconcile_one, reconcile_loop, reconcile,
  all_uids, start,
}
use proton_carddav_sync.Syncer.Reconcile.Gone.{
  Gone, write_merged-Gone, only_carddav-Gone, only_proton-Gone, check_ctx-Gone, read_base-Gone,
  read_base-some, proton-Gone, carddav-Gone,
}

module _ (s : Syncer) (w : W s) where
  fetch_all-carddav :
      (cts : List Contact) (out : Sides)
      → Keeps (CarddavHas (λ c. c ≡ w.carddav)) (fetch_all s cts out)
  unfolding fetch_all
  fetch_all-carddav [] out = Keeps-pure _
  fetch_all-carddav (ct ∷ cts) out =
      Keeps-then _ _ CarddavHas-check_ctx
        (Keeps-bind _ _ (Keeps-attempt _ (CarddavHas-on_proton _)) (λ got. fetch_all-carddav cts _))

  proton_by_uid-carddav : (proton_by_uid s w).1.carddav ≡ w.carddav
  unfolding proton_by_uid
  proton_by_uid-carddav =
      ((Keeps-bind {P = CarddavHas (λ c. c ≡ w.carddav)} _ _
          (Keeps-within _ _ (CarddavHas-on_proton s.proton.list_contacts))
          (λ contacts. fetch_all-carddav contacts [])).at
        w (record { holds = refl })).holds

eq_of_test : (a b : String) → (a == b) ≡ true → a ≡ b
eq_of_test a b h = ground arith

module _ (s : Syncer) (uid : String) (Q : s.carddav.State → Type 0)
    (put_other : (u text : String)
      → (u == uid) ≡ false
      → Keeps Q (s.carddav.put_contact u text)) where
  dispatch_other-Gone :
      (u : String) (p c : Option ContactSide) (rec : Option ContactRecord) (k : Counters)
      → (u == uid) ≡ false
      → Keeps (Gone s uid Q put_other) (dispatch s u p c rec k)
  unfolding dispatch reconcile_both
  dispatch_other-Gone u (some p) (some c) rec k other =
      Keeps-then _ _ (write_merged-Gone s uid Q put_other _ u p c _ other) (Keeps-pure _)
  dispatch_other-Gone u (some p) none rec k other =
      only_proton-Gone s uid Q put_other u p rec k other
  dispatch_other-Gone u none (some c) rec k other = only_carddav-Gone s uid Q put_other u c rec k
  dispatch_other-Gone u none none rec k other = Keeps-pure _

  -- The contact itself is left alone, as it has a record.
  dispatch_deleted-Gone :
      (p : Option ContactSide) (rec : Option ContactRecord) (k : Counters)
      → rec ≢ none
      → Keeps (Gone s uid Q put_other) (dispatch s uid p none rec k)
  unfolding dispatch only_proton
  dispatch_deleted-Gone (some p) (some rec) k known = Keeps-pure _
  dispatch_deleted-Gone (some p) none k known = absurd (known refl)
  dispatch_deleted-Gone none rec k known = Keeps-pure _

  module _ (protons carddavs : Sides) (absent : lookup uid carddavs ≡ none) where
    abbrev after_check : String → Counters → Exec (W s) Counters
    after_check u k =
        read_base u >>= λ rec. dispatch s u (lookup u protons) (lookup u carddavs) rec k

    after_check_deleted-Gone : (k : Counters) → Keeps (Gone s uid Q put_other) (after_check uid k)
    after_check_deleted-Gone k = rw absent (
        Keeps-bind_known _ _ (read_base-Gone s uid Q put_other uid)
          (λ w rec h e. dispatch_deleted-Gone _ rec k (read_base-some s uid Q put_other w rec h e)))

    after_check-Gone :
        (u : String) (k : Counters) → Keeps (Gone s uid Q put_other) (after_check u k)
    after_check-Gone u k = elim (Bool-cases (u == uid)) [
      | inl same ↦
          subst (λ x. Keeps (Gone s uid Q put_other) (after_check x k))
            (sym (eq_of_test u uid same)) (after_check_deleted-Gone k)
      | inr other ↦
          Keeps-bind _ _ (read_base-Gone s uid Q put_other u)
            (λ rec. dispatch_other-Gone u _ _ rec k other)
    ]

    reconcile_one-Gone :
        (u : String) (k : Counters)
        → Keeps (Gone s uid Q put_other) (reconcile_one s protons carddavs u k)
    unfolding reconcile_one
    reconcile_one-Gone u k =
        Keeps-then _ _ (check_ctx-Gone s uid Q put_other) (after_check-Gone u k)

    reconcile_loop-Gone :
        (uids : List String) (k : Counters)
        → Keeps (Gone s uid Q put_other) (reconcile_loop s protons carddavs uids k)
    unfolding reconcile_loop
    reconcile_loop-Gone [] k = Keeps-pure _
    reconcile_loop-Gone (u ∷ uids) k =
        Keeps-bind _ _ (reconcile_one-Gone u k) (λ k'. reconcile_loop-Gone uids k')

  fetch_all-Gone :
      (cts : List Contact) (out : Sides) → Keeps (Gone s uid Q put_other) (fetch_all s cts out)
  unfolding fetch_all
  fetch_all-Gone [] out = Keeps-pure _
  fetch_all-Gone (ct ∷ cts) out = Keeps-then _ _ (check_ctx-Gone s uid Q put_other) (
      Keeps-bind _ _ (Keeps-attempt _ (proton-Gone s uid Q put_other _))
        (λ got. fetch_all-Gone cts _))

  proton_by_uid-Gone : Keeps (Gone s uid Q put_other) (proton_by_uid s)
  unfolding proton_by_uid
  proton_by_uid-Gone =
      Keeps-bind _ _ (Keeps-within _ _ (proton-Gone s uid Q put_other _))
        (λ contacts. fetch_all-Gone contacts [])

  module _ (list_keeps : Keeps Q s.carddav.list_contacts) (w : W s)
      (unlisted : (objs : List AddressObject)
        → (s.carddav.list_contacts w.carddav).0 ≡ ok objs
        → lookup uid (index_objects s objs []) ≡ none) where
    carddav_index-Gone : Keeps (Gone s uid Q put_other) (carddav_index s)
    unfolding carddav_index
    carddav_index-Gone =
        Keeps-bind _ _ (Keeps-within _ _ (carddav-Gone s uid Q put_other _ list_keeps))
          (λ objs. Keeps-pure _)

    listed-absent :
        (r : Result (List AddressObject)) (v : W s) (carddavs : Sides)
        → ((objs : List AddressObject) → r ≡ ok objs → lookup uid (index_objects s objs []) ≡ none)
        → (continue
            (map_err (wrap "list carddav contacts") r)
            (λ objs. pure (index_objects s objs []))
            v).0
          ≡ ok carddavs
        → lookup uid carddavs ≡ none
    unfolding pure
    listed-absent (ok objs) v carddavs h e = cc (e, h objs refl)
    listed-absent (err x) v carddavs h e = cc e

    carddav_index-absent :
        (v : W s) (carddavs : Sides)
        → v.carddav ≡ w.carddav
        → (carddav_index s v).0 ≡ ok carddavs
        → lookup uid carddavs ≡ none
    unfolding carddav_index ◌>>=◌ on_carddav
    carddav_index-absent v carddavs same e =
        listed-absent (s.carddav.list_contacts v.carddav).0 _ carddavs
          (subst
            (λ c.
              (objs : List AddressObject)
              → (s.carddav.list_contacts c).0 ≡ ok objs
              → lookup uid (index_objects s objs []) ≡ none)
            (sym same) unlisted)
          e

    reconcile-Gone : Gone s uid Q put_other w → Gone s uid Q put_other (reconcile s w).1
    unfolding reconcile
    reconcile-Gone gone =
        let P = Gone s uid Q put_other in
        after_bind P (proton_by_uid s) _ w (proton_by_uid-Gone.at w gone) (λ protons _.
          let v = (proton_by_uid s w).1 in
          let here = carddav_index-Gone.at v (proton_by_uid-Gone.at w gone) in
          after_bind P (carddav_index s) _ v here (λ carddavs found.
            (Keeps-then _ _
                (reconcile_loop-Gone protons carddavs
                  (carddav_index-absent v carddavs (proton_by_uid-carddav s w) found)
                  (all_uids s protons carddavs) (start s))
                (Keeps-pure _)).at
              _ here))

-- A contact that has a record and that CardDAV does not list is not put back: what is true of CardDAV's
-- state, and stays true of it when it is listed and when other UIDs are put, is true after a run of
-- `reconcile` (that nothing is stored at the contact's path, say), and the contact still has a record,
-- whether the run ends or fails.
pub reconcile_keeps_deletion :
    (s : Syncer) (uid : String) (Q : s.carddav.State → Type 0)
    → ((u text : String) → (u == uid) ≡ false → Keeps Q (s.carddav.put_contact u text))
    → Keeps Q s.carddav.list_contacts
    → (w : W s)
    → ((objs : List AddressObject)
        → (s.carddav.list_contacts w.carddav).0 ≡ ok objs
        → lookup uid (index_objects s objs []) ≡ none)
    → Q w.carddav
    → lookup uid w.db.contacts ≢ none
    → Q (reconcile s w).1.carddav × (lookup uid (reconcile s w).1.db.contacts ≢ none)
reconcile_keeps_deletion s uid Q put_other list_keeps w unlisted lacks known =
    let after =
      reconcile-Gone s uid Q put_other list_keeps w unlisted
        (record { lacks = lacks; known = known }) in
    (after.lacks, after.known)
