-- ===== src/Syncer/Reconcile/Listing.antt =====
-- internal/syncer/syncer.go, protonByUID and carddavIndex: listings, and the states of the two
-- sides.
use proton_carddav_sync.Base.{◌≡◌, ◌∙◌, String, Bool, true, false, List, [], ◌∷◌, string_eq}
use proton_carddav_sync.Base.Result.{Result, ok, err}
use proton_carddav_sync.Base.Exec.{Exec, continue, pure, within, ◌>>=◌}
use proton_carddav_sync.Base.Exec.Keeps.{
  Keeps, Keeps-bind, Keeps-then, Keeps-attempt, Keeps-within, Keeps-pure,
}
use proton_carddav_sync.Db.{Db}
use proton_carddav_sync.Carddav.Interface.{AddressObject}
use proton_carddav_sync.Protonmail.Interface.{Contact}
use proton_carddav_sync.Syncer.{Syncer, World, on_proton, on_carddav, check_ctx}
use proton_carddav_sync.Syncer.Index.{
  Sides, W, fetch_all, proton_by_uid, carddav_index, index_objects,
}

abbrev pub world : {P C : Type 0} → P → C → Db → List Bool → World P C
world p c d cancels = record { proton = p; carddav = c; db = d; cancels = cancels }

module _ (s : Syncer) where
  -- The sides that are listed where nothing interrupts the listing.
  pub record Lists (p : s.proton.State) (c : s.carddav.State) (protons carddavs : Sides)
      : Type 0 where
    pub proton :
        (c' : s.carddav.State) (d : Db) → (proton_by_uid s (world p c' d [])).0 ≡ ok protons
    pub carddav :
        (p' : s.proton.State) (d : Db) → (carddav_index s (world p' c d [])).0 ≡ ok carddavs

  -- What a listing returns depends on the state of its side alone.
  fetch_all_alone :
      (cts : List Contact) (out sides : Sides) (p : s.proton.State) (c c' : s.carddav.State)
      (d d' : Db) (cancels : List Bool)
      → (fetch_all s cts out (world p c d cancels)).0 ≡ ok sides
      → (fetch_all s cts out (world p c' d' [])).0 ≡ ok sides
  unfolding fetch_all ◌>>=◌ check_ctx on_proton
  fetch_all_alone [] out sides p c c' d d' cancels h = h
  fetch_all_alone (ct ∷ cts) out sides p c c' d d' [] h =
      fetch_all_alone cts _ sides _ c c' d d' [] h
  fetch_all_alone (ct ∷ cts) out sides p c c' d d' (false ∷ cancels) h =
      fetch_all_alone cts _ sides _ c c' d d' cancels h
  fetch_all_alone (ct ∷ cts) out sides p c c' d d' (true ∷ cancels) h = cc h

  listed_alone :
      (r : Result (List Contact)) (sides : Sides) (p : s.proton.State) (c c' : s.carddav.State)
      (d d' : Db) (cancels : List Bool)
      → (continue r (λ cts. fetch_all s cts []) (world p c d cancels)).0 ≡ ok sides
      → (continue r (λ cts. fetch_all s cts []) (world p c' d' [])).0 ≡ ok sides
  listed_alone (ok cts) sides p c c' d d' cancels h =
      fetch_all_alone cts [] sides p c c' d d' cancels h
  listed_alone (err e) sides p c c' d d' cancels h = cc h

  pub proton_alone :
      (sides : Sides) (w : W s) (c' : s.carddav.State) (d' : Db)
      → (proton_by_uid s w).0 ≡ ok sides
      → (proton_by_uid s (world w.proton c' d' [])).0 ≡ ok sides
  unfolding proton_by_uid ◌>>=◌ on_proton within
  proton_alone sides w c' d' h = listed_alone _ sides _ w.carddav c' w.db d' w.cancels h

  indexed_alone :
      (r : Result (List AddressObject)) (sides : Sides) (v w : W s)
      → (continue r (λ objs. pure (index_objects s objs [])) w).0 ≡ ok sides
      → (continue r (λ objs. pure (index_objects s objs [])) v).0 ≡ ok sides
  unfolding pure
  indexed_alone (ok objs) sides v w h = h
  indexed_alone (err e) sides v w h = cc h

  pub carddav_alone :
      (sides : Sides) (w : W s) (p' : s.proton.State) (d' : Db)
      → (carddav_index s w).0 ≡ ok sides
      → (carddav_index s (world p' w.carddav d' [])).0 ≡ ok sides
  unfolding carddav_index ◌>>=◌ on_carddav within
  carddav_alone sides w p' d' h = indexed_alone _ sides _ _ h

  -- The accounts and the database are as they were.
  pub record IsStill (before w : W s) : Type 0 where
    pub proton : w.proton ≡ before.proton
    pub carddav : w.carddav ≡ before.carddav
    pub db : w.db ≡ before.db

  -- Listing and fetching leave the two accounts as they are.
  pub record ReadOnly : Type 0 where
    pub list : (p : s.proton.State) → (s.proton.list_contacts p).1 ≡ p
    pub fetch : (id : String) (p : s.proton.State) → (s.proton.get_contact_vcard id p).1 ≡ p
    pub query : (c : s.carddav.State) → (s.carddav.list_contacts c).1 ≡ c

  module _ (reads : ReadOnly) (before : W s) where
    on_proton-IsStill :
        {A : Type 0} (op : Exec s.proton.State A)
        → ((p : s.proton.State) → (op p).1 ≡ p)
        → Keeps (IsStill before) (on_proton op)
    unfolding on_proton
    on_proton-IsStill op same = record {
      at = λ w h. record { proton = same w.proton ∙ h.proton; carddav = h.carddav; db = h.db };
    }

    check_ctx-IsStill : Keeps (IsStill before) check_ctx
    unfolding check_ctx
    check_ctx-IsStill = record {
      at = λ w h. record { proton = h.proton; carddav = h.carddav; db = h.db };
    }

    fetch_all-IsStill :
        (cts : List Contact) (out : Sides) → Keeps (IsStill before) (fetch_all s cts out)
    unfolding fetch_all
    fetch_all-IsStill [] out = Keeps-pure _
    fetch_all-IsStill (ct ∷ cts) out = Keeps-then _ _ check_ctx-IsStill (
        Keeps-bind _ _ (Keeps-attempt _ (on_proton-IsStill _ (reads.fetch ct.id)))
          (λ got. fetch_all-IsStill cts _))

    pub proton_by_uid-IsStill : Keeps (IsStill before) (proton_by_uid s)
    unfolding proton_by_uid
    proton_by_uid-IsStill =
        Keeps-bind _ _ (Keeps-within _ _ (on_proton-IsStill _ reads.list))
          (λ cts. fetch_all-IsStill cts [])

    pub carddav_index-IsStill : Keeps (IsStill before) (carddav_index s)
    unfolding carddav_index on_carddav
    carddav_index-IsStill =
        Keeps-bind _ _
          (Keeps-within _ _ (record {
            at = λ w h. record {
              proton = h.proton;
              carddav = reads.query w.carddav ∙ h.carddav;
              db = h.db;
            };
          }))
          (λ objs. Keeps-pure _)
