-- ===== src/Syncer/Reconcile/Gone.antt =====
-- internal/syncer/syncer.go, reconcile: what is done for one contact, beside another that has a
-- record and is gone from CardDAV.
use proton_carddav_sync.Base.{
  ◌≡◌, ◌≢◌, String, Bool, true, false, Option, none, some, List, ◌==◌, string_eq, arith,
}
use proton_carddav_sync.Base.Dict.{lookup, lookup-insert}
use proton_carddav_sync.Base.Result.{Result, ok, err, is_no_rows}
use proton_carddav_sync.Base.Exec.{Exec, within}
use proton_carddav_sync.Base.Exec.Keeps.{
  Keeps, Keeps-bind, Keeps-then, Keeps-attempt, Keeps-within, Keeps-pure, Keeps-lift, Keeps-if,
}
use proton_carddav_sync.Db.{Db, statement}
use proton_carddav_sync.Db.Contacts.{ContactRecord, row_of, upsert_contact, get_contact}
use proton_carddav_sync.Syncer.{
  Syncer, ContactSide, on_proton, on_carddav, on_db, check_ctx, read_base, save_bases, base_record,
}
use proton_carddav_sync.Syncer.Index.{W}
use proton_carddav_sync.Syncer.Reconcile.{
  Counters, put_unless_equal, refetch, after_update, update_if_changed, write_back, write_merged,
  put_new, only_proton, after_create, only_carddav,
}

-- A row is not lost by a write.
known-upsert_contact :
    (uid : String) (r : ContactRecord) (db : Db)
    → lookup uid db.contacts ≢ none
    → lookup uid (upsert_contact r db).1.contacts ≢ none
unfolding upsert_contact statement within
known-upsert_contact uid r db known =
    ground (arith, known, lookup-insert uid r.uid (row_of r) db.contacts)

known-get_contact :
    (uid u : String) (db : Db)
    → lookup uid db.contacts ≢ none
    → lookup uid (get_contact u db).1.contacts ≢ none
unfolding get_contact statement within
known-get_contact uid u db known = ground (arith, known)

module _ (s : Syncer) (uid : String) (Q : s.carddav.State → Type 0)
    (put_other : (u text : String)
      → (u == uid) ≡ false
      → Keeps Q (s.carddav.put_contact u text)) where
  -- The contact has a record, and CardDAV's state is such that `Q`.
  pub record Gone (w : W s) : Type 0 where
    pub lacks : Q w.carddav
    pub known : lookup uid w.db.contacts ≢ none

  pub proton-Gone : {A : Type 0} (op : Exec s.proton.State A) → Keeps Gone (on_proton op)
  unfolding on_proton
  proton-Gone op = record { at = λ w h. record { lacks = h.lacks; known = h.known } }

  pub carddav-Gone :
      {A : Type 0} (op : Exec s.carddav.State A) → Keeps Q op → Keeps Gone (on_carddav op)
  unfolding on_carddav
  carddav-Gone op k = record {
    at = λ w h. record { lacks = k.at w.carddav h.lacks; known = h.known };
  }

  pub check_ctx-Gone : Keeps Gone check_ctx
  unfolding check_ctx
  check_ctx-Gone = record { at = λ w h. record { lacks = h.lacks; known = h.known } }

  save_bases-Gone : (u etag p c : String) → Keeps Gone (save_bases s.lib u etag p c)
  unfolding save_bases on_db within
  save_bases-Gone u etag p c = record {
    at = λ w h. record {
      lacks = h.lacks;
      known = known-upsert_contact uid (base_record s.lib u etag p c) w.db h.known;
    };
  }

  pub read_base-Gone : (u : String) → Keeps Gone (read_base u)
  unfolding read_base
  read_base-Gone u = record {
    at = λ w h. record { lacks = h.lacks; known = known-get_contact uid u w.db h.known };
  }

  -- Where the record is read it is there.
  pub read_base-some :
      (w : W s) (rec : Option ContactRecord) → Gone w → (read_base uid w).0 ≡ ok rec → rec ≢ none
  unfolding read_base get_contact statement within is_no_rows
  read_base-some w rec h e = ground (arith, h.known)

  refetch-Gone : (id old : String) → Keeps Gone (refetch s id old)
  unfolding refetch
  refetch-Gone id old = Keeps-bind _ _ (Keeps-attempt _ (proton-Gone _)) (λ got. Keeps-pure _)

  pub put-Gone :
      (b : Bool) (u merged : String)
      → (u == uid) ≡ false
      → Keeps Gone (put_unless_equal s b u merged)
  unfolding put_unless_equal
  put-Gone true u merged other = Keeps-pure _
  put-Gone false u merged other = Keeps-within _ _ (carddav-Gone _ (put_other u merged other))

  after_update-Gone :
      (r : Result (Unit {0})) (u : String) (p c : ContactSide) (merged : String)
      → Keeps Gone (after_update s r u p c merged)
  unfolding after_update
  after_update-Gone (err e) u p c merged = Keeps-pure _
  after_update-Gone (ok _) u p c merged =
      Keeps-bind _ _ (refetch-Gone _ _) (λ base. save_bases-Gone _ _ _ _)

  update_if_changed-Gone :
      (b : Bool) (u : String) (p c : ContactSide) (merged : String)
      → Keeps Gone (update_if_changed s b u p c merged)
  unfolding update_if_changed
  update_if_changed-Gone false u p c merged = save_bases-Gone _ _ _ _
  update_if_changed-Gone true u p c merged =
      Keeps-bind _ _ (Keeps-attempt _ (proton-Gone _)) (λ r. after_update-Gone r u p c merged)

  write_back-Gone :
      (u : String) (p c : ContactSide) (base merged : String)
      → (u == uid) ≡ false
      → Keeps Gone (write_back s u p c base merged)
  unfolding write_back
  write_back-Gone u p c base merged other = Keeps-bind _ _ (Keeps-lift _) (λ equal.
      Keeps-then _ _ (put-Gone equal u merged other)
        (Keeps-bind _ _ (Keeps-lift _) (λ changed. update_if_changed-Gone changed u p c merged)))

  pub write_merged-Gone :
      (r : Result (String × List String)) (u : String) (p c : ContactSide) (base : String)
      → (u == uid) ≡ false
      → Keeps Gone (write_merged s r u p c base)
  write_merged-Gone (err e) u p c base other = Keeps-pure _
  write_merged-Gone (ok (merged, _)) u p c base other = write_back-Gone u p c base merged other

  after_create-Gone :
      (r : Result String) (u : String) (c : ContactSide) (k : Counters)
      → Keeps Gone (after_create s r u c k)
  unfolding after_create
  after_create-Gone (err e) u c k = Keeps-pure _
  after_create-Gone (ok id) u c k =
      Keeps-bind _ _ (refetch-Gone _ _)
        (λ base. Keeps-then _ _ (save_bases-Gone _ _ _ _) (Keeps-pure _))

  pub only_carddav-Gone :
      (u : String) (c : ContactSide) (rec : Option ContactRecord) (k : Counters)
      → Keeps Gone (only_carddav s u c rec k)
  unfolding only_carddav
  only_carddav-Gone u c (some rec) k = Keeps-pure _
  only_carddav-Gone u c none k =
      Keeps-if _ _ _ (Keeps-pure _)
        (Keeps-bind _ _ (Keeps-attempt _ (proton-Gone _)) (λ r. after_create-Gone r u c k))

  pub only_proton-Gone :
      (u : String) (p : ContactSide) (rec : Option ContactRecord) (k : Counters)
      → (u == uid) ≡ false
      → Keeps Gone (only_proton s u p rec k)
  unfolding only_proton put_new
  only_proton-Gone u p (some rec) k other = Keeps-pure _
  only_proton-Gone u p none k other =
      Keeps-then _ _
        (Keeps-then _ _ (Keeps-within _ _ (carddav-Gone _ (put_other u p.vcard other)))
          (save_bases-Gone _ _ _ _))
        (Keeps-pure _)
