-- ===== src/Syncer/OneWay/Recreates/Run.antt =====
-- internal/syncer/syncer.go, syncProtonToCardDAV: a run where no request fails, over any client.
use proton_carddav_sync.Base.{
  ◌≡◌, refl, sym, ap, String, Option, none, some, List, [], ◌∷◌, ◌++◌, string_eq,
}
use proton_carddav_sync.Base.Dict.{lookup}
use proton_carddav_sync.Base.Result.{wrap, Result, ok, err}
use proton_carddav_sync.Base.Exec.{attempt, within}
use proton_carddav_sync.Base.Exec.Keeps.{Keeps}
use proton_carddav_sync.Base.Exec.Yields.{
  Yields, Yields-bind, Yields-map, Yields-pure, Yields-within,
}
use proton_carddav_sync.Carddav.Interface.{AddressObject}
use proton_carddav_sync.Db.{statement}
use proton_carddav_sync.Db.Contacts.{upsert_contact}
use proton_carddav_sync.Protonmail.Interface.{Contact}
use proton_carddav_sync.Syncer.{Syncer, on_proton, on_carddav, on_db, check_ctx, extract_uid}
use proton_carddav_sync.Syncer.Index.{W}
use proton_carddav_sync.Syncer.OneWay.{
  Texts, save_hash, index_texts, carddav_by_uid, text_to_put, put_text, push_fetched, push_all,
}
use proton_carddav_sync.Syncer.OneWay.Parsable.{IsParsable, PrintsParsable, text_to_put-IsParsable}
use proton_carddav_sync.Syncer.Reconcile.Listing.{ReadOnly}

-- A statement about an address book that a write of the contact makes true, and that no write makes
-- false; a write of a text that parses is served.
pub record IsServed (s : Syncer) (Q : s.carddav.State → Type 0) (uid text : String) : Type 0 where
  pub served :
      (u t : String) (c : s.carddav.State)
      → IsParsable s.lib t
      → (s.carddav.put_contact u t c).0 ≡ ok tt
  pub written : (c : s.carddav.State) → Q (s.carddav.put_contact uid text c).1
  pub kept : (u t : String) → Keeps Q (s.carddav.put_contact u t)

module _ (s : Syncer) (prints : PrintsParsable s.lib) (reads : ReadOnly s)
    (Q : s.carddav.State → Type 0) (uid text : String) (book : IsServed s Q uid text) (start : W s)
    (parsable : (id vcard : String)
      → (s.proton.get_contact_vcard id start.proton).0 ≡ ok vcard
      → IsParsable s.lib vcard) where
  check_ctx-Yields : (w : W s) → w.cancels ≡ [] → Yields (λ _ v. v ≡ w) (check_ctx w)
  unfolding check_ctx
  check_ctx-Yields w h = record { value = tt; returned = rw h refl; holds = rw h refl }

  pub record Good (w : W s) : Type 0 where
    proton : w.proton ≡ start.proton
    faults : w.db.faults ≡ []
    cancels : w.cancels ≡ []

  saved-Yields :
      (u t : String) (w : W s)
      → Good w
      → Yields (λ _ v. Good v × (v.carddav ≡ w.carddav)) (save_hash s u "" t w)
  unfolding on_db upsert_contact statement within
  saved-Yields u t w good = record {
    value = tt;
    returned = rw (good.faults) refl;
    holds = (
      record { proton = good.proton; faults = rw (good.faults) refl; cancels = good.cancels },
      refl,
    );
  }

  put-Yields :
      (u t : String) (w : W s)
      → IsParsable s.lib t
      → Good w
      → Yields
          (λ _ v. Good v × (v.carddav ≡ (s.carddav.put_contact u t w.carddav).1))
          (put_text s u (some t) w)
  unfolding put_text on_carddav
  put-Yields u t w parses good =
      let there = record w { carddav = (s.carddav.put_contact u t w.carddav).1 } in
      Yields-bind (λ _ v. v ≡ there) _ _ w
        (Yields-within _ _ w
          (record { value = tt; returned = book.served u t w.carddav parses; holds = refl }))
        (λ _ e. rw e (
          saved-Yields u t there
            (record { proton = good.proton; faults = good.faults; cancels = good.cancels })))

  text_kept-Yields :
      (u : String) (to_put : Option String) (w : W s)
      → ((t : String) → to_put ≡ some t → IsParsable s.lib t)
      → Good w
      → Yields (λ _ v. Good v × (Q w.carddav → Q v.carddav)) (put_text s u to_put w)
  unfolding put_text
  text_kept-Yields u none w parses good = Yields-pure tt w (good, λ q. q)
  text_kept-Yields u (some t) w parses good =
      Yields-map _ _ (put-Yields u t w (parses t refl) good)
        (λ _ v h. (h.0, λ q. rw (h.1) ((book.kept u t).at w.carddav q)))

  kept-Yields :
      (existing : Texts) (ct : Contact) (got : Result String) (w : W s)
      → got ≡ (s.proton.get_contact_vcard ct.id start.proton).0
      → Good w
      → Yields (λ _ v. Good v × (Q w.carddav → Q v.carddav)) (push_fetched s existing ct got w)
  unfolding push_fetched
  kept-Yields existing ct (err e) w gave good = Yields-pure tt w (good, λ q. q)
  kept-Yields existing ct (ok vcard) w gave good =
      text_kept-Yields _ _ w
        (λ t. text_to_put-IsParsable s prints _ vcard t (parsable ct.id vcard (sym gave))) good

  fetched-Yields :
      (id : String) (w : W s)
      → Good w
      → Yields
          (λ r v. (r ≡ (s.proton.get_contact_vcard id start.proton).0) × (v ≡ w))
          (attempt (on_proton (s.proton.get_contact_vcard id)) w)
  unfolding attempt on_proton
  fetched-Yields id w good = record {
    value = (s.proton.get_contact_vcard id w.proton).0;
    returned = refl;
    holds = (
      ap (λ p. (s.proton.get_contact_vcard id p).0) good.proton,
      ap (λ p. record w { proton = p }) (reads.fetch id w.proton),
    );
  }

  -- The contacts that follow.
  after-Yields :
      (existing : Texts) (cts : List Contact) (w : W s)
      → Good w
      → Q w.carddav
      → Yields (λ _ v. Q v.carddav) (push_all s existing cts w)
  unfolding push_all
  after-Yields existing [] w good here = Yields-pure tt w here
  after-Yields existing (ct ∷ cts) w good here =
      Yields-bind (λ _ v. v ≡ w) _ _ w (check_ctx-Yields w good.cancels)
        (λ _ e. rw e (
          Yields-bind _ _ _ w (fetched-Yields ct.id w good) (λ got f. rw (f.1) (
            Yields-bind _ _ _ w (kept-Yields existing ct got w f.0 good)
              (λ _ k. after-Yields existing cts _ k.0 (k.1 here))))))

  module _ (existing : Texts) (missing : lookup uid existing ≡ none) (ct : Contact)
      (fetched : (s.proton.get_contact_vcard ct.id start.proton).0 ≡ ok text)
      (named : extract_uid s.lib text ct.id ≡ uid) (later : List Contact) where
    pushed-Yields :
        (w : W s)
        → Good w
        → Yields (λ _ v. Good v × Q v.carddav) (push_fetched s existing ct (ok text) w)
    unfolding push_fetched text_to_put
    pushed-Yields w good =
        rw (named, missing)
          (Yields-map _ _ (put-Yields uid text w (parsable ct.id text fetched) good)
            (λ _ v h. (h.0, rw (h.1) (book.written w.carddav))))

    -- The contacts before it, itself, and the contacts that follow.
    pub push_all-Yields :
        (earlier : List Contact) (w : W s)
        → Good w
        → Yields (λ _ v. Q v.carddav) (push_all s existing (earlier ++ ct ∷ later) w)
    unfolding push_all
    push_all-Yields [] w good =
        Yields-bind (λ _ v. v ≡ w) _ _ w (check_ctx-Yields w good.cancels)
          (λ _ e. rw e (
            Yields-bind _ _ _ w (fetched-Yields ct.id w good) (λ got f.
              rw (f.0, f.1, fetched)
                (Yields-bind _ _ _ w (pushed-Yields w good)
                  (λ _ k. after-Yields existing later _ k.0 k.1)))))
    push_all-Yields (other ∷ earlier) w good =
        Yields-bind (λ _ v. v ≡ w) _ _ w (check_ctx-Yields w good.cancels)
          (λ _ e. rw e (
            Yields-bind _ _ _ w (fetched-Yields other.id w good) (λ got f. rw (f.1) (
              Yields-bind _ _ _ w (kept-Yields existing other got w f.0 good)
                (λ _ k. push_all-Yields earlier _ k.0)))))

  module _ (sound : start.db.faults ≡ []) (going : start.cancels ≡ []) where
    pub at_start : Good start
    at_start = record { proton = refl; faults = sound; cancels = going }

    pub listed-Yields :
        (cts : List Contact)
        → (s.proton.list_contacts start.proton).0 ≡ ok cts
        → Yields
            (λ r v. (r ≡ cts) × (v ≡ start))
            (within (wrap "list proton contacts") (on_proton s.proton.list_contacts) start)
    unfolding on_proton
    listed-Yields cts listed = Yields-within _ _ start (record {
      value = cts;
      returned = listed;
      holds = (refl, ap (λ p. record start { proton = p }) (reads.list start.proton));
    })

    pub index-Yields :
        (objs : List AddressObject)
        → (s.carddav.list_contacts start.carddav).0 ≡ ok objs
        → Yields (λ r v. (r ≡ index_texts s objs []) × (v ≡ start)) (carddav_by_uid s start)
    unfolding carddav_by_uid on_carddav
    index-Yields objs listed =
        Yields-bind (λ r v. (r ≡ objs) × (v ≡ start)) _ _ start
          (Yields-within _ _ start (record {
            value = objs;
            returned = listed;
            holds = (refl, ap (λ c. record start { carddav = c }) (reads.query start.carddav));
          }))
          (λ found e. rw (e.0, e.1) (Yields-pure _ start (refl, refl)))
