-- ===== src/Syncer/Reconcile/Count.antt =====
-- internal/syncer/syncer.go, reconcile: the number of contacts of Proton's account.
use proton_carddav_sync.Base.{
  ◌≡◌, ℕ, ◌+◌, ◌≤◌, String, Bool, true, false, Option, List, [], ◌∷◌, arith,
}
use proton_carddav_sync.Base.Result.{Error, Result, ok, err}
use proton_carddav_sync.Base.Exec.Keeps.{
  Keeps, keeps_rules, Keeps-bind, Keeps-then, Keeps-attempt, Keeps-within, Keeps-pure, Keeps-lift,
}
use proton_carddav_sync.Db.Contacts.{ContactRecord}
use proton_carddav_sync.Syncer.{Syncer, ContactSide, on_proton, save_bases}
use proton_carddav_sync.Syncer.Frame.{
  ProtonHas, ProtonHas-on_proton, ProtonHas-on_carddav, ProtonHas-on_db, ProtonHas-check_ctx,
  proton_frame,
}
use proton_carddav_sync.Syncer.Index.{Sides, W, fetch_all, proton_by_uid, carddav_index}
use proton_carddav_sync.Protonmail.Interface.{Contact}
use proton_carddav_sync.Syncer.Reconcile.{
  put_unless_equal, refetch, after_update, update_if_changed, write_back, write_merged,
  reconcile_both, put_new,
}

-- A count of the account's contacts: reads and updates do not raise it, a create raises it by at most
-- one, and not where it fails.
pub record IsCount (s : Syncer) (count : s.proton.State → ℕ) : Type 0 where
  pub list : (p : s.proton.State) → count (s.proton.list_contacts p).1 ≤ count p
  pub fetch :
      (id : String) (p : s.proton.State) → count (s.proton.get_contact_vcard id p).1 ≤ count p
  pub update :
      (id v : String) (p : s.proton.State) → count (s.proton.update_contact id v p).1 ≤ count p
  pub create :
      (v : String) (p : s.proton.State) → count (s.proton.create_contact v p).1 ≤ count p + 1
  pub create_failed :
      (v : String) (p : s.proton.State) (e : Error)
      → (s.proton.create_contact v p).0 ≡ err e
      → count (s.proton.create_contact v p).1 ≤ count p

module _ (s : Syncer) (count : s.proton.State → ℕ) (counts : IsCount s count) where
  abbrev pub AtMost : ℕ → W s → Type 0
  AtMost n = ProtonHas (λ p. count p ≤ n)

  pub save-AtMost :
      (n : ℕ) (uid etag p c : String) → Keeps (AtMost n) (save_bases s.lib uid etag p c)
  unfolding save_bases
  save-AtMost n uid etag p c = Keeps-within _ _ (ProtonHas-on_db _)

  get-AtMost : (n : ℕ) (id : String) → Keeps (AtMost n) (on_proton (s.proton.get_contact_vcard id))
  get-AtMost n id = ProtonHas-on_proton _ (record { at = λ p h. omega (arith, counts.fetch id p) })

  pub refetch-AtMost : (n : ℕ) (id old : String) → Keeps (AtMost n) (refetch s id old)
  unfolding refetch
  refetch-AtMost n id old = Keeps-bind _ _ (Keeps-attempt _ (get-AtMost n id)) (λ got. Keeps-pure _)

  after_update-AtMost :
      (n : ℕ) (r : Result (Unit {0})) (uid : String) (p c : ContactSide) (merged : String)
      → Keeps (AtMost n) (after_update s r uid p c merged)
  unfolding after_update
  after_update-AtMost n (err e) uid p c merged = Keeps-pure _
  after_update-AtMost n (ok _) uid p c merged =
      Keeps-bind _ _ (refetch-AtMost n p.id p.vcard) (λ base. save-AtMost n _ _ _ _)

  update_if_changed-AtMost :
      (n : ℕ) (b : Bool) (uid : String) (p c : ContactSide) (merged : String)
      → Keeps (AtMost n) (update_if_changed s b uid p c merged)
  unfolding update_if_changed
  update_if_changed-AtMost n false uid p c merged = save-AtMost n _ _ _ _
  update_if_changed-AtMost n true uid p c merged =
      Keeps-bind _ _
        (Keeps-attempt _ (
          ProtonHas-on_proton _
            (record { at = λ q h. omega (arith, counts.update p.id merged q) })))
        (λ r. after_update-AtMost n r uid p c merged)

  put-AtMost :
      (n : ℕ) (b : Bool) (uid merged : String) → Keeps (AtMost n) (put_unless_equal s b uid merged)
  unfolding put_unless_equal
  put-AtMost n true uid merged = Keeps-pure _
  put-AtMost n false uid merged = search (keeps_rules, proton_frame)

  write_back-AtMost :
      (n : ℕ) (uid : String) (p c : ContactSide) (base merged : String)
      → Keeps (AtMost n) (write_back s uid p c base merged)
  unfolding write_back
  write_back-AtMost n uid p c base merged = Keeps-bind _ _ (Keeps-lift _) (λ equal.
      Keeps-then _ _ (put-AtMost n equal uid merged) (
        Keeps-bind _ _ (Keeps-lift _)
          (λ changed. update_if_changed-AtMost n changed uid p c merged)))

  write_merged-AtMost :
      (n : ℕ) (r : Result (String × List String)) (uid : String) (p c : ContactSide) (base : String)
      → Keeps (AtMost n) (write_merged s r uid p c base)
  write_merged-AtMost n (err e) uid p c base = Keeps-pure _
  write_merged-AtMost n (ok (merged, _)) uid p c base = write_back-AtMost n uid p c base merged

  pub reconcile_both-AtMost :
      (n : ℕ) (uid : String) (p c : ContactSide) (rec : Option ContactRecord)
      → Keeps (AtMost n) (reconcile_both s uid p c rec)
  unfolding reconcile_both
  reconcile_both-AtMost n uid p c rec = write_merged-AtMost n _ uid p c _

  pub only_proton-AtMost :
      (n : ℕ) (uid : String) (p : ContactSide) → Keeps (AtMost n) (put_new s uid p)
  unfolding put_new
  only_proton-AtMost n uid p =
      Keeps-then _ _ (Keeps-within _ _ (ProtonHas-on_carddav _)) (save-AtMost n _ _ _ _)

  fetch_all-AtMost : (n : ℕ) (cs : List Contact) (m : Sides) → Keeps (AtMost n) (fetch_all s cs m)
  unfolding fetch_all
  fetch_all-AtMost n [] m = Keeps-pure _
  fetch_all-AtMost n (c ∷ cs) m =
      Keeps-then _ _ ProtonHas-check_ctx
        (Keeps-bind _ _ (Keeps-attempt _ (get-AtMost n c.id)) (λ got. fetch_all-AtMost n cs _))

  pub proton_by_uid-AtMost : (n : ℕ) → Keeps (AtMost n) (proton_by_uid s)
  unfolding proton_by_uid
  proton_by_uid-AtMost n =
      Keeps-bind _ _
        (Keeps-within _ _
          (ProtonHas-on_proton _ (record { at = λ q h. omega (arith, counts.list q) })))
        (λ contacts. fetch_all-AtMost n contacts [])

  pub carddav_index-AtMost : (n : ℕ) → Keeps (AtMost n) (carddav_index s)
  unfolding carddav_index
  carddav_index-AtMost n =
      Keeps-bind _ _ (Keeps-within _ _ (ProtonHas-on_carddav _)) (λ objects. Keeps-pure _)
