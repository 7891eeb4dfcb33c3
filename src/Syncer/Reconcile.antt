-- ===== src/Syncer/Reconcile.antt =====
-- internal/syncer/syncer.go, reconcile and reconcileBoth: the bidirectional sync.
pub mod Cap
pub mod Account
pub mod Count
pub mod Deletions
pub mod Retries
pub mod Quiet
pub mod Listing
pub mod Again
pub mod Gone
use proton_carddav_sync.Base.{
  ℕ, ◌+◌, String, Bool, true, false, ◌&&◌, not, Option, none, some, List, [], ◌∷◌, ltb, leb,
  string_eq, if◌then◌else◌,
}
use proton_carddav_sync.Base.Dict.{Dict, keys, lookup}
use proton_carddav_sync.Base.Range.{add_all}
use proton_carddav_sync.Base.Result.{wrap_at, Result, ok, err, map_err}
use proton_carddav_sync.Base.Exec.{Exec, pure, lift, attempt, within, ◌>>=◌, ◌>>◌}
use proton_carddav_sync.Db.Contacts.{ContactRecord}
use proton_carddav_sync.Syncer.{
  Syncer, ContactSide, on_proton, on_carddav, check_ctx, save_bases, read_base,
}
use proton_carddav_sync.Syncer.Index.{Sides, W, proton_by_uid, carddav_index}
use proton_carddav_sync.Time.{zero_time}
use proton_carddav_sync.VcardSync.Strings.{three_way_string, equal_string, proton_relevant_diff}

-- The variables of the loop.
pub record Counters : Type 0 where
  pub new_proton : ℕ
  pub deferred : ℕ

-- The bases of a contact, empty texts where it has no record.
abbrev pub proton_base_of : Option ContactRecord → String
proton_base_of none = ""
proton_base_of (some rec) = rec.proton_base

abbrev pub carddav_base_of : Option ContactRecord → String
carddav_base_of none = ""
carddav_base_of (some rec) = rec.carddav_base

-- What a fetch gave, and else a text at hand.
abbrev pub fetched_or : String → Result String → String
fetched_or old (ok v) = v
fetched_or old (err e) = old

module _ (s : Syncer) where
  -- `if !cdEqual { … }`
  unfoldable pub put_unless_equal : Bool → String → String → Exec (W s) (Unit {0})
  put_unless_equal true uid merged = pure tt
  put_unless_equal false uid merged =
      within (wrap_at "put carddav contact" uid) (on_carddav (s.carddav.put_contact uid merged))

  -- `GetContactVCard(ctx, id)`, with a text at hand where it fails
  unfoldable pub refetch : (id old : String) → Exec (W s) String
  refetch id old = do
    got ← attempt (on_proton (s.proton.get_contact_vcard id))
    pure (fetched_or old got)

  -- What follows the call of `UpdateContact`: a failure skips the contact, and keeps its bases.
  unfoldable pub after_update :
      Result (Unit {0})
      → (uid : String) (p c : ContactSide) (merged : String) → Exec (W s) (Unit {0})
  after_update (err e) uid p c merged = pure tt
  after_update (ok _) uid p c merged = do
    protonBase ← refetch p.id p.vcard
    save_bases s.lib uid c.etag protonBase merged

  -- `if protonChanged { … }`, and the bases
  unfoldable pub update_if_changed :
      Bool → (uid : String) (p c : ContactSide) (merged : String) → Exec (W s) (Unit {0})
  update_if_changed false uid p c merged = save_bases s.lib uid c.etag p.vcard merged
  update_if_changed true uid p c merged = do
    updated ← attempt (on_proton (s.proton.update_contact p.id merged))
    after_update updated uid p c merged

  unfoldable pub write_back :
      (uid : String) (p c : ContactSide) (proton_base merged : String) → Exec (W s) (Unit {0})
  write_back uid p c proton_base merged = do
    equal ←
        lift (map_err (wrap_at "compare carddav contact" uid) (equal_string s.lib merged c.vcard))
    put_unless_equal equal uid merged
    changed ← lift (
        map_err (wrap_at "compare proton contact" uid)
          (proton_relevant_diff s.lib merged p.vcard proton_base))
    update_if_changed changed uid p c merged

  abbrev pub write_merged :
      Result (String × List String)
      → (uid : String) (p c : ContactSide) (proton_base : String) → Exec (W s) (Unit {0})
  write_merged (err e) uid p c proton_base = pure tt
  write_merged (ok (merged, conflicts)) uid p c proton_base = write_back uid p c proton_base merged

  -- `reconcileBoth`: a merge that fails skips the contact.
  unfoldable pub reconcile_both :
      (uid : String) (p c : ContactSide) → Option ContactRecord → Exec (W s) (Unit {0})
  reconcile_both uid p c rec =
      write_merged
        (three_way_string s.lib (proton_base_of rec) (carddav_base_of rec) p.vcard c.vcard s.policy)
        uid p c (proton_base_of rec)

  -- What `case hasP && !hasC` does for a contact without a record.
  unfoldable pub put_new : (uid : String) (p : ContactSide) → Exec (W s) (Unit {0})
  put_new uid p = do
    within (wrap_at "put carddav contact" uid) (on_carddav (s.carddav.put_contact uid p.vcard))
    save_bases s.lib uid "" p.vcard p.vcard

  -- `case hasP && !hasC`
  unfoldable pub only_proton :
      (uid : String) (p : ContactSide) → Option ContactRecord → Counters → Exec (W s) Counters
  only_proton uid p (some rec) k = pure k
  only_proton uid p none k = do put_new uid p; pure k

  unfoldable pub after_create :
      Result String → (uid : String) (c : ContactSide) → Counters → Exec (W s) Counters
  after_create (err e) uid c k = pure k
  after_create (ok id) uid c k = do
    protonBase ← refetch id c.vcard
    save_bases s.lib uid c.etag protonBase c.vcard
    pure (record k { new_proton = k.new_proton + 1 })

  -- `s.maxNewProton > 0 && newProton >= s.maxNewProton`
  abbrev pub cap_reached : ℕ → Bool
  cap_reached n = ltb 0 s.max_new_proton && leb s.max_new_proton n

  -- `case !hasP && hasC`
  unfoldable pub only_carddav :
      (uid : String) (c : ContactSide) → Option ContactRecord → Counters → Exec (W s) Counters
  only_carddav uid c (some rec) k = pure k
  only_carddav uid c none k =
      if cap_reached k.new_proton then pure (record k { deferred = k.deferred + 1 }) else do
        created ← attempt (on_proton (s.proton.create_contact c.vcard))
        after_create created uid c k

  -- The switch of the loop.
  unfoldable pub dispatch :
      (uid : String)
      → Option ContactSide
      → Option ContactSide
      → Option ContactRecord
      → Counters
      → Exec (W s) Counters
  dispatch uid (some p) (some c) rec k = do reconcile_both uid p c rec; pure k
  dispatch uid (some p) none rec k = only_proton uid p rec k
  dispatch uid none (some c) rec k = only_carddav uid c rec k
  dispatch uid none none rec k = pure k

  module _ (protons carddavs : Sides) where
    unfoldable pub reconcile_one : String → Counters → Exec (W s) Counters
    reconcile_one uid k = do
      check_ctx
      rec ← read_base uid
      dispatch uid (lookup uid protons) (lookup uid carddavs) rec k

    unfoldable pub reconcile_loop : List String → Counters → Exec (W s) Counters
    reconcile_loop [] k = pure k
    reconcile_loop (uid ∷ uids) k = do k' ← reconcile_one uid k; reconcile_loop uids k'

  abbrev pub start : Counters
  start = record { new_proton = 0; deferred = 0 }

  -- The UIDs of both sides, in the order in which `range` visits them.
  abbrev pub all_uids : Sides → Sides → List String
  all_uids protons carddavs = s.lib.visit (add_all (keys carddavs) (add_all (keys protons) []))

  -- `reconcile`
  unfoldable pub reconcile : Exec (W s) (Unit {0})
  reconcile = do
    protons ← proton_by_uid s
    carddavs ← carddav_index s
    reconcile_loop protons carddavs (all_uids protons carddavs) start
    pure tt
