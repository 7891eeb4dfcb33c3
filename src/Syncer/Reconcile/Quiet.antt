-- ===== src/Syncer/Reconcile/Quiet.antt =====
-- internal/syncer/syncer.go, reconcile: what it does for a contact that did not change since its last
-- sync.
use proton_carddav_sync.Base.{
  ◌≡◌, ◌≢◌, ◌⊎◌, refl, sym, ap, subst, inl, inr, String, Bool, true, false, Option, none, some,
  List, [], ◌∷◌, string_eq, arith,
}
use proton_carddav_sync.Base.Dict.{lookup, lookup-insert}
use proton_carddav_sync.Base.Range.{IsRange}
use proton_carddav_sync.Base.Result.{Error, Result, ok, is_no_rows, map_err}
use proton_carddav_sync.Base.Exec.{within, lift}
use proton_carddav_sync.Base.Exec.Keeps.{
  Keeps, Keeps-bind, Keeps-bind_known, Keeps-then, Keeps-pure, Keeps-lift,
}
use proton_carddav_sync.Db.{Db, Row, statement}
use proton_carddav_sync.Db.Contacts.{ContactRecord, row_of, record_of, upsert_contact, get_contact}
use proton_carddav_sync.Library.{Prints}
use proton_carddav_sync.Syncer.{
  Syncer, World, ContactSide, on_db, check_ctx, read_base, save_bases, base_record,
}
use proton_carddav_sync.Syncer.Index.{Sides, W}
use proton_carddav_sync.Syncer.Reconcile.{
  Counters, put_unless_equal, update_if_changed, write_back, reconcile_both, only_proton,
  only_carddav, dispatch, reconcile_one, reconcile_loop,
}
use proton_carddav_sync.VcardSync.Strings.{equal_string, proton_relevant_diff}
use proton_carddav_sync.VcardSync.Strings.Reparse.{Reparses}
use proton_carddav_sync.VcardSync.Strings.Settled.{IsSettled, settled-Merges}

-- A write changes one row, or none.
upserted :
    (uid : String) (r : ContactRecord) (db : Db)
    → (lookup uid (upsert_contact r db).1.contacts ≡ lookup uid db.contacts)
      ⊎ ((uid ≡ r.uid) × (lookup uid (upsert_contact r db).1.contacts ≡ some (row_of r)))
unfolding upsert_contact statement within
upserted uid r db = ground (arith, lookup-insert uid r.uid (row_of r) db.contacts)

get_contact-contacts : (uid : String) (db : Db) → (get_contact uid db).1.contacts ≡ db.contacts
unfolding get_contact statement within
get_contact-contacts uid db = ground arith

abbrev record_in : String → Option Row → Option ContactRecord
record_in uid none = none
record_in uid (some row) = some (record_of uid row)

-- What reading a base returns is what is stored.
read_known :
    {P C : Type 0} (uid : String) (w : World P C) (rec : Option ContactRecord)
    → (read_base uid w).0 ≡ ok rec
    → rec ≡ record_in uid (lookup uid w.db.contacts)
unfolding read_base get_contact statement within is_no_rows
read_known uid w rec h = ground (arith, h)

module _ (s : Syncer) where
  -- Each side of a contact is as its record says, and a contact that one side lacks has a record.
  abbrev pub SettledRow : Option ContactSide → Option ContactSide → Option Row → Type 0
  SettledRow (some p) (some c) row =
      (r : Row) × (row ≡ some r) × IsSettled s.lib r.proton_base r.carddav_base p.vcard c.vcard
  SettledRow (some p) none row = row ≢ none
  SettledRow none (some c) row = row ≢ none
  SettledRow none none row = Unit

  -- The same of the record as it is read.
  abbrev SettledRecord : Option ContactSide → Option ContactSide → Option ContactRecord → Type 0
  SettledRecord (some p) (some c) rec =
      (r : ContactRecord) × (rec ≡ some r)
      × IsSettled s.lib r.proton_base r.carddav_base p.vcard c.vcard
  SettledRecord (some p) none rec = rec ≢ none
  SettledRecord none (some c) rec = rec ≢ none
  SettledRecord none none rec = Unit

  some_record : (uid : String) (row : Option Row) → row ≢ none → record_in uid row ≢ none
  some_record uid none h e = h refl
  some_record uid (some row) h e = cc e

  read-SettledRecord :
      (uid : String) (p c : Option ContactSide) (row : Option Row)
      → SettledRow p c row
      → SettledRecord p c (record_in uid row)
  read-SettledRecord uid (some p) (some c) row (r, known, settled) =
      (record_of uid r, ap (record_in uid) known, settled)
  read-SettledRecord uid (some p) none row known = some_record uid row known
  read-SettledRecord uid none (some c) row known = some_record uid row known
  read-SettledRecord uid none none row h = tt

  module _ (range : IsRange s.lib.visit) (prints : Prints s.lib) (reparses : Reparses s.lib)
      (P0 : s.proton.State) (C0 : s.carddav.State) (protons carddavs : Sides) where
    -- The accounts have not changed, and every contact is settled.
    pub record IsCalm (w : W s) : Type 0 where
      pub proton : w.proton ≡ P0
      pub carddav : w.carddav ≡ C0
      pub rows :
          (uid : String)
          → SettledRow (lookup uid protons) (lookup uid carddavs) (lookup uid w.db.contacts)

    check_ctx-IsCalm : Keeps IsCalm check_ctx
    unfolding check_ctx
    check_ctx-IsCalm = record {
      at = λ w h. record { proton = h.proton; carddav = h.carddav; rows = h.rows };
    }

    read_base-IsCalm : (uid : String) → Keeps IsCalm (read_base uid)
    unfolding read_base
    read_base-IsCalm uid = record {
      at = λ w h. record {
        proton = h.proton;
        carddav = h.carddav;
        rows = λ u. rw (get_contact-contacts uid w.db) (h.rows u);
      };
    }

    -- The bases of a settled contact are written anew.
    save_bases-IsCalm :
        (uid etag text : String) (p c : ContactSide)
        → lookup uid protons ≡ some p
        → lookup uid carddavs ≡ some c
        → IsSettled s.lib p.vcard text p.vcard c.vcard
        → Keeps IsCalm (save_bases s.lib uid etag p.vcard text)
    unfolding save_bases on_db within
    save_bases-IsCalm uid etag text p c hp hc settled = record {
      at = λ w h. record {
        proton = h.proton;
        carddav = h.carddav;
        rows = λ u. elim (upserted u (base_record s.lib uid etag p.vcard text) w.db) [
          | inl same ↦ rw same (h.rows u)
          | inr (e, written) ↦
              rw (written, e, hp, hc)
                (row_of (base_record s.lib uid etag p.vcard text), refl, settled)
        ];
      };
    }

    put-IsCalm :
        (b : Bool) (uid merged : String) → b ≡ true → Keeps IsCalm (put_unless_equal s b uid merged)
    unfolding put_unless_equal
    put-IsCalm true uid merged h = Keeps-pure _
    put-IsCalm false uid merged h = cc h

    update-IsCalm :
        (b : Bool) (uid : String) (p c : ContactSide) (merged : String)
        → b ≡ false
        → Keeps IsCalm (save_bases s.lib uid c.etag p.vcard merged)
        → Keeps IsCalm (update_if_changed s b uid p c merged)
    unfolding update_if_changed
    update-IsCalm false uid p c merged h k = k
    update-IsCalm true uid p c merged h k = cc h

    lifted_value :
        {A : Type 0} (f : Error → Error) (r : Result A) (a b : A) (w : W s)
        → r ≡ ok a
        → (lift (map_err f r) w).0 ≡ ok b
        → b ≡ a
    unfolding lift
    lifted_value f r a b w known got = cc (rw known at got)

    write_back-IsCalm :
        (uid : String) (p c : ContactSide) (base text : String)
        → equal_string s.lib text c.vcard ≡ ok true
        → proton_relevant_diff s.lib text p.vcard base ≡ ok false
        → Keeps IsCalm (save_bases s.lib uid c.etag p.vcard text)
        → Keeps IsCalm (write_back s uid p c base text)
    unfolding write_back
    write_back-IsCalm uid p c base text equal relevant k =
        Keeps-bind_known _ _ (Keeps-lift _) (λ w b _ got.
          Keeps-then _ _ (put-IsCalm b uid text (lifted_value _ _ true b w equal got)) (
            Keeps-bind_known _ _ (Keeps-lift _) (λ w' b' _ got'.
              update-IsCalm b' uid p c text (lifted_value _ _ false b' w' relevant got') k)))

    both-IsCalm :
        (uid : String) (p c : ContactSide) (r : ContactRecord)
        → lookup uid protons ≡ some p
        → lookup uid carddavs ≡ some c
        → IsSettled s.lib r.proton_base r.carddav_base p.vcard c.vcard
        → Keeps IsCalm (reconcile_both s uid p c (some r))
    unfolding reconcile_both
    both-IsCalm uid p c r hp hc settled =
        let m =
          settled-Merges s.lib range prints reparses s.policy r.proton_base r.carddav_base p.vcard
            c.vcard settled in
        rw m.merges (
          write_back-IsCalm uid p c r.proton_base m.text m.equal m.relevant
            (save_bases-IsCalm uid c.etag m.text p c hp hc m.again))

    dispatch-IsCalm :
        (uid : String) (p c : Option ContactSide) (rec : Option ContactRecord) (k : Counters)
        → lookup uid protons ≡ p
        → lookup uid carddavs ≡ c
        → SettledRecord p c rec
        → Keeps IsCalm (dispatch s uid p c rec k)
    unfolding dispatch only_proton only_carddav
    dispatch-IsCalm uid (some p) (some c) rec k hp hc (r, known, settled) =
        rw known (Keeps-then _ _ (both-IsCalm uid p c r hp hc settled) (Keeps-pure _))
    dispatch-IsCalm uid (some p) none (some r) k hp hc known = Keeps-pure _
    dispatch-IsCalm uid (some p) none none k hp hc known = absurd (known refl)
    dispatch-IsCalm uid none (some c) (some r) k hp hc known = Keeps-pure _
    dispatch-IsCalm uid none (some c) none k hp hc known = absurd (known refl)
    dispatch-IsCalm uid none none rec k hp hc h = Keeps-pure _

    reconcile_one-IsCalm :
        (uid : String) (k : Counters) → Keeps IsCalm (reconcile_one s protons carddavs uid k)
    unfolding reconcile_one
    reconcile_one-IsCalm uid k = Keeps-then _ _ check_ctx-IsCalm (
        Keeps-bind_known _ _ (read_base-IsCalm uid) (λ w rec calm got.
          dispatch-IsCalm uid (lookup uid protons) (lookup uid carddavs) rec k refl refl (
            subst (SettledRecord (lookup uid protons) (lookup uid carddavs))
              (sym (read_known uid w rec got)) (read-SettledRecord uid _ _ _ (calm.rows uid)))))

    pub reconcile_loop-IsCalm :
        (uids : List String) (k : Counters)
        → Keeps IsCalm (reconcile_loop s protons carddavs uids k)
    unfolding reconcile_loop
    reconcile_loop-IsCalm [] k = Keeps-pure _
    reconcile_loop-IsCalm (uid ∷ uids) k =
        Keeps-bind _ _ (reconcile_one-IsCalm uid k) (λ k'. reconcile_loop-IsCalm uids k')
