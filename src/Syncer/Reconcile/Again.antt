-- ===== src/Syncer/Reconcile/Again.antt =====
-- internal/syncer/syncer.go, reconcile: a run where nothing changed since the last one.
use proton_carddav_sync.Base.{◌≡◌, refl, sym, subst, String, [], string_eq}
use proton_carddav_sync.Base.Dict.{lookup}
use proton_carddav_sync.Base.Range.{IsRange}
use proton_carddav_sync.Base.Result.{ok}
use proton_carddav_sync.Base.Exec.Keeps.{Keeps, Keeps-bind, Keeps-pure, after_bind}
use proton_carddav_sync.Library.{Prints}
use proton_carddav_sync.Syncer.{Syncer}
use proton_carddav_sync.Syncer.Index.{Sides, W, proton_by_uid, carddav_index}
use proton_carddav_sync.Syncer.Reconcile.{reconcile_loop, reconcile, all_uids, start}
use proton_carddav_sync.Syncer.Reconcile.Listing.{
  world, Lists, ReadOnly, IsStill, proton_alone, carddav_alone, proton_by_uid-IsStill,
  carddav_index-IsStill,
}
use proton_carddav_sync.Syncer.Reconcile.Quiet.{SettledRow, IsCalm, reconcile_loop-IsCalm}
use proton_carddav_sync.VcardSync.Strings.Reparse.{Reparses}

-- The two sides are listed as given, and every contact is settled: each side that has it is as its
-- record says, and the records allow the merge to keep it so.
pub record IsSettledWorld (s : Syncer) (protons carddavs : Sides) (w : W s) : Type 0 where
  pub lists : Lists s w.proton w.carddav protons carddavs
  pub rows :
      (uid : String)
      → SettledRow s (lookup uid protons) (lookup uid carddavs) (lookup uid w.db.contacts)

module _ (s : Syncer) (range : IsRange s.lib.visit) (prints : Prints s.lib)
    (reparses : Reparses s.lib) (reads : ReadOnly s) (protons carddavs : Sides) (w : W s)
    (settled : IsSettledWorld s protons carddavs w) where
  abbrev Calm : W s → Type 0
  Calm = IsCalm s range prints reparses w.proton w.carddav protons carddavs

  IsCalm-still : (v : W s) → IsStill s w v → Calm v
  IsCalm-still v still = record {
    proton = still.proton;
    carddav = still.carddav;
    rows = λ uid. rw still.db (settled.rows uid);
  }

  same_protons : (found : Sides) → (proton_by_uid s w).0 ≡ ok found → found ≡ protons
  same_protons found h =
      cc (proton_alone s found w w.carddav w.db h, settled.lists.proton w.carddav w.db)

  same_carddavs :
      (v : W s) (found : Sides)
      → IsStill s w v
      → (carddav_index s v).0 ≡ ok found
      → found ≡ carddavs
  same_carddavs v found still h =
      let here : (carddav_index s (world v.proton w.carddav v.db [])).0 ≡ ok found =
        subst (λ c. (carddav_index s (world v.proton c v.db [])).0 ≡ ok found) still.carddav
          (carddav_alone s found v v.proton v.db h) in
      cc (here, settled.lists.carddav v.proton v.db)

  loop-IsCalm :
      (ps cs : Sides)
      → ps ≡ protons
      → cs ≡ carddavs
      → Keeps Calm (reconcile_loop s ps cs (all_uids s ps cs) (start s))
  loop-IsCalm ps cs e f =
      rw (e, f)
        (reconcile_loop-IsCalm s range prints reparses w.proton w.carddav protons carddavs _ _)

  reconcile-IsCalm : Calm (reconcile s w).1
  unfolding reconcile
  reconcile-IsCalm =
      let listed =
        (proton_by_uid-IsStill s reads w).at w
          (record { proton = refl; carddav = refl; db = refl }) in
      after_bind Calm _ _ w (IsCalm-still _ listed) (λ found h.
        let indexed = (carddav_index-IsStill s reads w).at _ listed in
        after_bind Calm _ _ _ (IsCalm-still _ indexed) (λ found' h'.
          (Keeps-bind _ _
              (loop-IsCalm found found' (same_protons found h) (same_carddavs _ found' listed h'))
              (λ k. Keeps-pure _)).at
            _ (IsCalm-still _ indexed)))

-- A run of reconcile where nothing changed since the last one leaves both accounts as they are, and
-- the next run finds nothing changed either, whatever the database and the context do. Nothing
-- changed means, for the contacts that uninterrupted listings give: where both sides have one, it
-- has a record, its four texts parse, each base is like its side's card, and CardDAV's card has a
-- VERSION and, under every other name that Proton's has, fields like Proton's; where one side lacks
-- it, it has a record. This takes that listing and fetching leave the accounts alone, that `range`
-- visits every name once, that the codec prints every card with a VERSION, that a card it parsed
-- has no name without a field, and that a card whose every group of fields was parsed under its
-- name, from one text or another, prints to a text that parses to these groups.
pub reconcile_settled :
    (s : Syncer)
    → IsRange s.lib.visit
    → Prints s.lib
    → Reparses s.lib
    → ReadOnly s
    → (protons carddavs : Sides) (w : W s) → IsSettledWorld s protons carddavs w
    → ((reconcile s w).1.proton ≡ w.proton)
      × ((reconcile s w).1.carddav ≡ w.carddav)
      × IsSettledWorld s protons carddavs (reconcile s w).1
reconcile_settled s range prints reparses reads protons carddavs w settled =
    let calm = reconcile-IsCalm s range prints reparses reads protons carddavs w settled in
    (
      calm.proton,
      calm.carddav,
      record {
        lists =
            subst (λ p. Lists s p (reconcile s w).1.carddav protons carddavs) (sym calm.proton)
              (subst (λ c. Lists s w.proton c protons carddavs) (sym calm.carddav) settled.lists);
        rows = calm.rows;
      },
    )
