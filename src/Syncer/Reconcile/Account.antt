-- ===== src/Syncer/Reconcile/Account.antt =====
-- internal/syncer/syncer.go, reconcile, over the client of internal/protonmail/contacts.go: the cap on
-- new contacts at the account itself.
use proton_carddav_sync.Base.{◌≡◌, ℕ, ◌≤◌, Option, String, arith}
use proton_carddav_sync.Base.Result.{Error, Result, ok, err}
use proton_carddav_sync.Protonmail.Cards.{Keyring}
use proton_carddav_sync.Protonmail.Client.{Api, client, create_contact}
use proton_carddav_sync.Protonmail.Client.Count.{
  ApiCounts, one_if_ok, create-count, list-count, fetch-count, update-count,
}
use proton_carddav_sync.Syncer.{Syncer}
use proton_carddav_sync.Syncer.Reconcile.Count.{IsCount}

-- `syncer.New` over a client of the account
abbrev pub over : Syncer → Api → Option Keyring → Syncer
over s api session = record s { proton = client s.lib.codec api session }

none_if_err : (r : Result String) (e : Error) → r ≡ err e → one_if_ok r ≡ 0
none_if_err (ok id) e h = cc h
none_if_err (err d) e h = omega arith

at_most_one : (r : Result String) → one_if_ok r ≤ 1
at_most_one (ok id) = omega arith
at_most_one (err e) = omega arith

pub client-IsCount :
    (s : Syncer) (api : Api) (session : Option Keyring) (count : api.State → ℕ)
    → ApiCounts api count
    → IsCount (over s api session) count
client-IsCount s api session count counts = record {
  list = list-count api s.lib.codec session count counts;
  fetch = fetch-count api s.lib.codec session count counts;
  update = update-count api s.lib.codec session count counts;
  create = λ v p.
      let (r, q) = create_contact s.lib.codec api session v p in
      omega (arith, create-count api s.lib.codec session count counts v p, at_most_one r);
  create_failed = λ v p e h.
      let (r, q) = create_contact s.lib.codec api session v p in
      omega (arith, create-count api s.lib.codec session count counts v p, none_if_err r e h);
}
