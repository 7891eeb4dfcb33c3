-- ===== src/Syncer/Reconcile/Cap.antt =====
-- internal/syncer/syncer.go, reconcile: the cap on new Proton contacts.
use proton_carddav_sync.Base.{
  ◌≡◌, refl, ℕ, ◌+◌, ◌≤◌, ◌<◌, String, Bool, true, false, Option, none, some, List, [], ◌∷◌, arith,
  if◌then◌else◌, string_eq,
}
use proton_carddav_sync.Base.Dict.{lookup}
use proton_carddav_sync.Base.Result.{Error, Result, ok, err}
use proton_carddav_sync.Base.Exec.{Exec, pure, attempt, continue, ◌>>=◌, ◌>>◌}
use proton_carddav_sync.Base.Exec.Keeps.{Keeps}
use proton_carddav_sync.Db.Contacts.{ContactRecord}
use proton_carddav_sync.Syncer.{Syncer, ContactSide, on_proton}
use proton_carddav_sync.Syncer.Frame.{ProtonHas-check_ctx, ProtonHas-read_base}
use proton_carddav_sync.Syncer.Index.{Sides, W}
use proton_carddav_sync.Syncer.Reconcile.{
  Counters, only_proton, after_create, only_carddav, cap_reached, dispatch, reconcile_one,
  reconcile_loop, reconcile, all_uids, start,
}
use proton_carddav_sync.Syncer.Reconcile.Count.{
  IsCount, AtMost, save-AtMost, refetch-AtMost, reconcile_both-AtMost, only_proton-AtMost,
  proton_by_uid-AtMost, carddav_index-AtMost,
}

pub below_cap :
    (s : Syncer) (n : ℕ) → 0 < s.max_new_proton → cap_reached s n ≡ false → n < s.max_new_proton
below_cap s n pos e = ground arith

module _ (s : Syncer) (count : s.proton.State → ℕ) (counts : IsCount s count) (first : ℕ) where
  -- What the loop leaves: as many contacts more as its counter says, at most the cap, and where it
  -- fails no more than the cap.
  abbrev pub Left : Result Counters → W s → Type 0
  Left (ok k) w = (count w.proton ≤ first + k.new_proton) × (k.new_proton ≤ s.max_new_proton)
  Left (err e) w = count w.proton ≤ first + s.max_new_proton

  -- Code that leaves this where it starts with `n` contacts more.
  pub record Capped (n : ℕ) (m : Exec (W s) Counters) : Type 0 where
    pub at : (w : W s) → count w.proton ≤ first + n → n ≤ s.max_new_proton → Left (m w).0 (m w).1

  pub Capped-pure : (k : Counters) → Capped k.new_proton (pure k)
  unfolding pure
  Capped-pure k = record { at = λ w h b. (h, b) }

  pub Capped-deferred :
      (k : Counters) (d : ℕ) → Capped k.new_proton (pure (record k { deferred = d }))
  unfolding pure
  Capped-deferred k d = record { at = λ w h b. (h, b) }

  pub Capped-if :
      (n : ℕ) (b : Bool) (l r : Exec (W s) Counters)
      → (b ≡ true → Capped n l)
      → (b ≡ false → Capped n r)
      → Capped n (if b then l else r)
  Capped-if n true l r kl kr = kl refl
  Capped-if n false l r kl kr = kr refl

  Capped-continue :
      {A : Type 0} (n : ℕ) (r : Result A) (f : A → Exec (W s) Counters)
      → ((a : A) → Capped n (f a))
      → (w : W s) → count w.proton ≤ first + n
      → n ≤ s.max_new_proton
      → Left (continue r f w).0 (continue r f w).1
  Capped-continue n (ok a) f k w h b = (k a).at w h b
  Capped-continue n (err e) f k w h b = omega arith

  -- First code that does not raise the count, then code that is capped.
  pub Capped-after :
      {A : Type 0} (n : ℕ) (m : Exec (W s) A) (f : A → Exec (W s) Counters)
      → Keeps (AtMost s count counts (first + n)) m
      → ((a : A) → Capped n (f a))
      → Capped n (m >>= f)
  unfolding ◌>>=◌
  Capped-after n m f km kf = record {
    at = λ w h b.
        let (r, t) = m w in Capped-continue n r f kf t (km.at w (record { holds = h })).holds b;
  }

  Capped-next :
      (r : Result Counters) (f : Counters → Exec (W s) Counters)
      → ((k : Counters) → Capped k.new_proton (f k))
      → (w : W s) → Left r w
      → Left (continue r f w).0 (continue r f w).1
  Capped-next (ok k) f kf w l = (kf k).at w l.0 l.1
  Capped-next (err e) f kf w l = l

  -- First code that is capped, then code that is capped from where that leaves the counter.
  pub Capped-bind :
      (n : ℕ) (m : Exec (W s) Counters) (f : Counters → Exec (W s) Counters)
      → Capped n m
      → ((k : Counters) → Capped k.new_proton (f k))
      → Capped n (m >>= f)
  unfolding ◌>>=◌
  Capped-bind n m f km kf = record {
    at = λ w h b. let (r, t) = m w in Capped-next r f kf t (km.at w h b);
  }

  after_create-Capped :
      (id uid : String) (c : ContactSide) (k : Counters)
      → Capped (k.new_proton + 1) (after_create s (ok id) uid c k)
  unfolding after_create
  after_create-Capped id uid c k =
      Capped-after _ _ _ (refetch-AtMost s count counts _ id c.vcard) (λ base.
        Capped-after _ _ _ (save-AtMost s count counts _ _ _ _ _)
          (λ _. Capped-pure (record k { new_proton = k.new_proton + 1 })))

  failed-Left :
      (e : Error) (uid : String) (c : ContactSide) (k : Counters) (w : W s)
      → count w.proton ≤ first + k.new_proton
      → k.new_proton ≤ s.max_new_proton
      → Left (after_create s (err e) uid c k w).0 (after_create s (err e) uid c k w).1
  unfolding after_create
  failed-Left e uid c k w h b = (Capped-pure k).at w h b

  created-Left :
      (r : Result String) (uid : String) (c : ContactSide) (k : Counters) (w : W s)
      → count w.proton ≤ first + k.new_proton + 1
      → ((e : Error) → r ≡ err e → count w.proton ≤ first + k.new_proton)
      → k.new_proton < s.max_new_proton
      → Left (after_create s r uid c k w).0 (after_create s r uid c k w).1
  created-Left (ok id) uid c k w h g b =
      (after_create-Capped id uid c k).at w (omega arith) (omega arith)
  created-Left (err e) uid c k w h g b = failed-Left e uid c k w (g e refl) (omega arith)

  create-Left :
      (uid : String) (c : ContactSide) (k : Counters)
      → k.new_proton < s.max_new_proton
      → (w : W s) → count w.proton ≤ first + k.new_proton
      → let m =
          (attempt (on_proton (s.proton.create_contact c.vcard)) >>= λ r. after_create s r uid c k)
            w in
        Left m.0 m.1
  unfolding ◌>>=◌ on_proton
  create-Left uid c k b w h =
      let (r, p) = s.proton.create_contact c.vcard w.proton in
      created-Left r uid c k (record w { proton = p })
        (omega (arith, counts.create c.vcard w.proton))
        (λ e q. omega (arith, counts.create_failed c.vcard w.proton e q)) b

  only_carddav-Capped :
      0 < s.max_new_proton
      → (uid : String) (c : ContactSide) (rec : Option ContactRecord) (k : Counters)
      → Capped k.new_proton (only_carddav s uid c rec k)
  unfolding only_carddav
  only_carddav-Capped pos uid c (some rec) k = Capped-pure k
  only_carddav-Capped pos uid c none k =
      Capped-if _ _ _ _ (λ e. Capped-deferred k (k.deferred + 1))
        (λ e. record { at = λ w h b. create-Left uid c k (below_cap s k.new_proton pos e) w h })

  dispatch-Capped :
      0 < s.max_new_proton
      → (uid : String) (p c : Option ContactSide) (rec : Option ContactRecord) (k : Counters)
      → Capped k.new_proton (dispatch s uid p c rec k)
  unfolding dispatch only_proton
  dispatch-Capped pos uid (some p) (some c) rec k =
      Capped-after _ _ _ (reconcile_both-AtMost s count counts _ uid p c rec) (λ _. Capped-pure k)
  dispatch-Capped pos uid (some p) none (some rec) k = Capped-pure k
  dispatch-Capped pos uid (some p) none none k =
      Capped-after _ _ _ (only_proton-AtMost s count counts _ uid p) (λ _. Capped-pure k)
  dispatch-Capped pos uid none (some c) rec k = only_carddav-Capped pos uid c rec k
  dispatch-Capped pos uid none none rec k = Capped-pure k

  loop-Capped :
      0 < s.max_new_proton
      → (protons carddavs : Sides) (uids : List String) (k : Counters)
      → Capped k.new_proton (reconcile_loop s protons carddavs uids k)
  unfolding reconcile_loop reconcile_one
  loop-Capped pos protons carddavs [] k = Capped-pure k
  loop-Capped pos protons carddavs (uid ∷ uids) k =
      Capped-bind _ _ _
        (Capped-after _ _ _ ProtonHas-check_ctx (λ _.
          Capped-after _ _ _ (ProtonHas-read_base uid)
            (λ rec. dispatch-Capped pos uid (lookup uid protons) (lookup uid carddavs) rec k)))
        (λ k'. loop-Capped pos protons carddavs uids k')

  -- Code that leaves at most the cap more than there were first.
  pub record Bounded {A : Type 0} (m : Exec (W s) A) : Type 0 where
    pub at : (w : W s) → count w.proton ≤ first → count (m w).1.proton ≤ first + s.max_new_proton

  Bounded-continue :
      {A B : Type 0} (r : Result A) (f : A → Exec (W s) B) (w : W s)
      → ((a : A) → Bounded (f a))
      → count w.proton ≤ first
      → count (continue r f w).1.proton ≤ first + s.max_new_proton
  Bounded-continue (ok a) f w k h = (k a).at w h
  Bounded-continue (err e) f w k h = omega arith

  pub Bounded-after :
      {A B : Type 0} (m : Exec (W s) A) (f : A → Exec (W s) B)
      → Keeps (AtMost s count counts first) m
      → ((a : A) → Bounded (f a))
      → Bounded (m >>= f)
  unfolding ◌>>=◌
  Bounded-after m f km kf = record {
    at =
        λ w h. let (r, t) = m w in Bounded-continue r f t kf (km.at w (record { holds = h })).holds;
  }

  Left-count :
      (r : Result Counters) (w : W s)
      → Left r w
      → count (continue r (λ _. pure tt) w).1.proton ≤ first + s.max_new_proton
  unfolding pure
  Left-count (ok k) w l = omega (arith, l.0, l.1)
  Left-count (err e) w l = l

  pub Bounded-loop : (m : Exec (W s) Counters) → Capped 0 m → Bounded (m >> pure tt)
  unfolding ◌>>=◌
  Bounded-loop m k = record {
    at = λ w h. let (r, t) = m w in Left-count r t (k.at w (omega arith) (omega arith));
  }

  pub reconcile-Bounded : 0 < s.max_new_proton → Bounded (reconcile s)
  unfolding reconcile
  reconcile-Bounded pos = Bounded-after _ _ (proton_by_uid-AtMost s count counts first) (λ protons.
      Bounded-after _ _ (carddav_index-AtMost s count counts first) (λ carddavs.
        Bounded-loop _ (loop-Capped pos protons carddavs (all_uids s protons carddavs) (start s))))

-- Where a cap is set, one run of `reconcile` leaves at most that many contacts more in Proton's
-- account than it found, whether it ends or fails and whatever the two sides, the database and the
-- context do. The account is any state with a count that reads and updates do not raise and that a
-- create raises by at most one, and not where the create fails.
pub reconcile_cap :
    (s : Syncer) (count : s.proton.State → ℕ)
    → IsCount s count
    → 0 < s.max_new_proton
    → (w : W s) → count (reconcile s w).1.proton ≤ count w.proton + s.max_new_proton
reconcile_cap s count counts pos w =
    (reconcile-Bounded s count counts (count w.proton) pos).at w (omega arith)
