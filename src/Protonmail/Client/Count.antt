-- ===== src/Protonmail/Client/Count.antt =====
-- What the client's calls do to the number of contacts of the account.
use proton_carddav_sync.Base.{
  ℕ, ◌+◌, ◌≤◌, String, Option, List, [], ◌∷◌, ◌==◌, nat_eq, length, arith, if◌then◌else◌,
}
use proton_carddav_sync.Base.Result.{Error, wrap, Result, ok, err, map_err}
use proton_carddav_sync.Base.Exec.{Exec, continue, lift, ◌>>=◌}
use proton_carddav_sync.Base.Exec.Keeps.{Keeps, Keeps-bind, Keeps-lift, Keeps-within}
use proton_carddav_sync.Protonmail.Cards.{ProtonCard, Keyring}
use proton_carddav_sync.Protonmail.Client.{
  CreateResponse, Api, success_code, keyring, build_cards, list_contacts, get_contact_vcard,
  created, create_contact, update_contact,
}
use proton_carddav_sync.Vcard.{Codec}

-- What holds of a failure and of what comes after a success holds of both in one.
continue-holds :
    {S A B : Type 0} (P : Result B × S → Type 0) (r : Result A) (f : A → Exec S B) (p : S)
    → ((e : Error) → P (err e, p))
    → ((a : A) → P (f a p))
    → P (continue r f p)
continue-holds P (err e) f p failed went_on = failed e
continue-holds P (ok a) f p failed went_on = went_on a

-- How many items of an answer were accepted.
unfoldable pub accepted : List CreateResponse → ℕ
accepted [] = 0
accepted (r ∷ rs) = (if r.code == success_code then 1 else 0) + accepted rs

abbrev pub gained : Result (List CreateResponse) → ℕ
gained (err e) = 0
gained (ok rs) = accepted rs

abbrev pub answered : Result (List CreateResponse) → ℕ
answered (err e) = 0
answered (ok rs) = length rs

-- What the API says of the number of contacts: reads and updates do not raise it, and a request to
-- create raises it by the items it accepts at most; an answer has no more items than the request.
pub record ApiCounts (api : Api) (count : api.State → ℕ) : Type 0 where
  pub list : (p : api.State) → count (api.get_all_contacts p).1 ≤ count p
  pub fetch : (id : String) (p : api.State) → count (api.get_contact id p).1 ≤ count p
  pub update :
      (id : String) (cards : List ProtonCard) (p : api.State)
      → count (api.update_contact id cards p).1 ≤ count p
  pub create :
      (contacts : List (List ProtonCard)) (p : api.State)
      → count (api.create_contacts contacts p).1
        ≤ count p + gained (api.create_contacts contacts p).0
  pub answers :
      (contacts : List (List ProtonCard)) (p : api.State)
      → answered (api.create_contacts contacts p).0 ≤ length contacts

abbrev pub one_if_ok : Result String → ℕ
one_if_ok (ok id) = 1
one_if_ok (err e) = 0

module _ (api : Api) where
  abbrev decide : Result (List CreateResponse) → api.State → Result String × api.State
  decide r p = continue (map_err (wrap "create proton contact") r) (λ rs. lift (created rs)) p

  module _ (count : api.State → ℕ) where
    decide-count :
        (r : Result (List CreateResponse)) (before : ℕ) (p : api.State)
        → count p ≤ before + gained r
        → answered r ≤ 1
        → count (decide r p).1 ≤ before + one_if_ok (decide r p).0
    unfolding lift created accepted
    decide-count (err e) before p h one = omega (arith, h)
    decide-count (ok []) before p h one = omega (arith, h)
    decide-count (ok (r ∷ [])) before p h one = ground (arith, h)
    decide-count (ok (r ∷ q ∷ rs)) before p h one = omega (arith, one)

  module _ (codec : Codec) (session : Option Keyring) (count : api.State → ℕ)
      (counts : ApiCounts api count) where
    abbrev Raised : api.State → Result String × api.State → Type 0
    Raised p (r, q) = count q ≤ count p + one_if_ok r

    -- A create raises the count by one at most, and not where it fails.
    pub create-count :
        (v : String) (p : api.State)
        → count (create_contact codec api session v p).1
          ≤ count p + one_if_ok (create_contact codec api session v p).0
    unfolding create_contact ◌>>=◌ lift keyring build_cards
    create-count v p =
        continue-holds (Raised p) (keyring codec api session) _ p (λ e. omega arith)
          (λ _.
            continue-holds (Raised p) (build_cards codec api session v) _ p (λ e. omega arith)
              (λ cards.
                decide-count count (api.create_contacts (cards ∷ []) p).0 (count p)
                  (api.create_contacts (cards ∷ []) p).1 (counts.create (cards ∷ []) p)
                  (counts.answers (cards ∷ []) p)))

    abbrev AtMost : ℕ → api.State → Type 0
    AtMost n p = count p ≤ n

    list-AtMost : (n : ℕ) → Keeps (AtMost n) (list_contacts codec api session)
    unfolding list_contacts
    list-AtMost n =
        Keeps-bind _ _ (Keeps-lift _)
          (λ _. Keeps-within _ _ (record { at = λ p h. omega (arith, counts.list p) }))

    fetch-AtMost : (n : ℕ) (id : String) → Keeps (AtMost n) (get_contact_vcard codec api session id)
    unfolding get_contact_vcard
    fetch-AtMost n id = Keeps-bind _ _ (Keeps-lift _) (λ ring.
        Keeps-bind _ _ (Keeps-within _ _ (record { at = λ p h. omega (arith, counts.fetch id p) }))
          (λ cards. Keeps-bind _ _ (Keeps-lift _) (λ card. Keeps-lift _)))

    update-AtMost :
        (n : ℕ) (id v : String) → Keeps (AtMost n) (update_contact codec api session id v)
    unfolding update_contact
    update-AtMost n id v = Keeps-bind _ _ (Keeps-lift _) (λ _.
        Keeps-bind _ _ (Keeps-lift _) (λ cards.
          Keeps-within _ _ (record { at = λ p h. omega (arith, counts.update id cards p) })))

    pub list-count : (p : api.State) → count (list_contacts codec api session p).1 ≤ count p
    list-count p = (list-AtMost (count p)).at p (omega arith)

    pub fetch-count :
        (id : String) (p : api.State) → count (get_contact_vcard codec api session id p).1 ≤ count p
    fetch-count id p = (fetch-AtMost (count p) id).at p (omega arith)

    pub update-count :
        (id v : String) (p : api.State)
        → count (update_contact codec api session id v p).1 ≤ count p
    update-count id v p = (update-AtMost (count p) id v).at p (omega arith)
