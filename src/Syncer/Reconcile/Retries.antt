-- ===== src/Syncer/Reconcile/Retries.antt =====
-- internal/syncer/syncer.go, reconcileBoth: its writes, and the bases.
use proton_carddav_sync.Base.{
  ◌≡◌, refl, subst, ◌⊎◌, inl, inr, String, Bool, true, false, Option, List, string_eq,
}
use proton_carddav_sync.Base.Result.{Result, ok, err}
use proton_carddav_sync.Base.Exec.{pure, lift, attempt, within, ◌>>=◌}
use proton_carddav_sync.Base.Exec.Ensures.{map_err-inv}
use proton_carddav_sync.Base.Exec.Keeps.{after_bind}
use proton_carddav_sync.Db.Contacts.{ContactRecord}
use proton_carddav_sync.Syncer.{Syncer, ContactSide, on_proton, on_carddav}
use proton_carddav_sync.Syncer.Index.{W}
use proton_carddav_sync.Syncer.Reconcile.{
  proton_base_of, carddav_base_of, put_unless_equal, after_update, update_if_changed, write_back,
  write_merged, reconcile_both,
}
use proton_carddav_sync.VcardSync.Strings.{three_way_string, equal_string, proton_relevant_diff}

module _ (s : Syncer) (uid : String) (p c : ContactSide) (rec : Option ContactRecord) where
  -- CardDAV has the merged text, or was given it.
  abbrev pub OnCarddav : String → W s → Type 0
  OnCarddav merged w =
      (equal_string s.lib merged c.vcard ≡ ok true)
      ⊎ ((s.carddav.put_contact uid merged w.carddav).0 ≡ ok tt)

  -- Nothing that Proton keeps differs from the merged text, or Proton was given it.
  abbrev pub OnProton : String → W s → Type 0
  OnProton merged w =
      (proton_relevant_diff s.lib merged p.vcard (proton_base_of rec) ≡ ok false)
      ⊎ ((s.proton.update_contact p.id merged w.proton).0 ≡ ok tt)

  -- What the run left of the records.
  pub data Bases (before after : W s) : Type 0 where
    kept : after.db.contacts ≡ before.db.contacts → Bases before after
    moved :
        (merged : String) (conflicts : List String)
        → three_way_string s.lib (proton_base_of rec) (carddav_base_of rec) p.vcard c.vcard s.policy
          ≡ ok (merged, conflicts)
        → OnCarddav merged before
        → OnProton merged before
        → Bases before after

  module _ (w : W s) where
    put_leaves :
        (b : Bool) (merged : String)
        → let v = (put_unless_equal s b uid merged w).1 in
          (v.db.contacts ≡ w.db.contacts) × (v.proton ≡ w.proton)
    unfolding put_unless_equal on_carddav within pure
    put_leaves true merged = (refl, refl)
    put_leaves false merged = (refl, refl)

    put-OnCarddav :
        (b : Bool) (merged : String)
        → equal_string s.lib merged c.vcard ≡ ok b
        → (put_unless_equal s b uid merged w).0 ≡ ok tt
        → OnCarddav merged w
    unfolding put_unless_equal on_carddav within
    put-OnCarddav true merged e h = inl e
    put-OnCarddav false merged e h = inr (map_err-inv _ _ _ h)

    module _ (merged : String) (conflicts : List String)
        (found : three_way_string s.lib
            (proton_base_of rec)
            (carddav_base_of rec)
            p.vcard
            c.vcard
            s.policy
          ≡ ok (merged, conflicts))
        (there : OnCarddav merged w) (v : W s) (same_rows : v.db.contacts ≡ w.db.contacts)
        (same_proton : v.proton ≡ w.proton) where
      after_update-Bases :
          (r : Result (Unit {0})) (u : W s)
          → (s.proton.update_contact p.id merged v.proton).0 ≡ r
          → u.db.contacts ≡ w.db.contacts
          → Bases w (after_update s r uid p c merged u).1
      unfolding after_update pure
      after_update-Bases (err e) u h rows = kept rows
      after_update-Bases (ok _) u h rows =
          moved merged conflicts found there
            (inr (subst (λ q. (s.proton.update_contact p.id merged q).0 ≡ ok tt) same_proton h))

      update-Bases :
          (changed : Bool)
          → proton_relevant_diff s.lib merged p.vcard (proton_base_of rec) ≡ ok changed
          → Bases w (update_if_changed s changed uid p c merged v).1
      unfolding update_if_changed ◌>>=◌ attempt on_proton
      update-Bases false h = moved merged conflicts found there (inl h)
      update-Bases true h = after_update-Bases _ _ refl same_rows

    write_back-Bases :
        (merged : String) (conflicts : List String)
        → three_way_string s.lib (proton_base_of rec) (carddav_base_of rec) p.vcard c.vcard s.policy
          ≡ ok (merged, conflicts)
        → Bases w (write_back s uid p c (proton_base_of rec) merged w).1
    unfolding write_back lift
    write_back-Bases merged conflicts found = after_bind (Bases w) _ _ w (kept refl) (λ b e.
        after_bind (Bases w) _ _ w (kept (put_leaves b merged).0) (λ _ h.
          after_bind (Bases w) _ _ _ (kept (put_leaves b merged).0) (λ changed d.
            update-Bases merged conflicts found (put-OnCarddav b merged (map_err-inv _ _ _ e) h) _
              (put_leaves b merged).0 (put_leaves b merged).1 changed (map_err-inv _ _ _ d))))

    write_merged-Bases :
        (r : Result (String × List String))
        → three_way_string s.lib (proton_base_of rec) (carddav_base_of rec) p.vcard c.vcard s.policy
          ≡ r
        → Bases w (write_merged s r uid p c (proton_base_of rec) w).1
    unfolding pure
    write_merged-Bases (err e) found = kept refl
    write_merged-Bases (ok (merged, conflicts)) found = write_back-Bases merged conflicts found

-- After reconcileBoth, whether it ended or failed, and whatever failed on the way: the records are as
-- they were, so that the next run merges the same changes again, or the texts were merged, CardDAV has
-- the merged text or took it, and nothing that Proton keeps differs from the merged text or Proton took
-- it.
pub reconcile_both_retries :
    (s : Syncer) (uid : String) (p c : ContactSide) (rec : Option ContactRecord) (w : W s)
    → Bases s uid p c rec w (reconcile_both s uid p c rec w).1
unfolding reconcile_both
reconcile_both_retries s uid p c rec w =
    write_merged-Bases s uid p c rec w
      (three_way_string s.lib (proton_base_of rec) (carddav_base_of rec) p.vcard c.vcard s.policy)
      refl
