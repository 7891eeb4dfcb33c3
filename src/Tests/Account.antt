-- ===== src/Tests/Account.antt =====
-- A client of a small account.
use proton_carddav_sync.Base.{◌+◌, ◌≤◌, List, [], ◌∷◌, length, arith}
use proton_carddav_sync.Base.Result.{failure, Result, ok, err}
use proton_carddav_sync.Protonmail.Cards.{ProtonCard, Keyring}
use proton_carddav_sync.Protonmail.Client.{CreateResponse, Api, success_code}
use proton_carddav_sync.Protonmail.Client.Count.{accepted, gained, answered, ApiCounts}

abbrev pub Stored : Type 0
Stored = List (List ProtonCard)

abbrev taken_in : CreateResponse
taken_in = record { code = success_code; message = ""; id = "new" }

abbrev store_first : Stored → Stored → Result (List CreateResponse) × Stored
store_first [] a = (ok [], a)
store_first (c ∷ cs) a = (ok (taken_in ∷ []), c ∷ a)

-- An account that holds sealed cards and lists none.
abbrev pub small_api : Api
small_api = record {
  State = Stored;
  get_all_contacts = λ a. (ok [], a);
  get_contact = λ id a. (err (failure "no such contact"), a);
  create_contacts = store_first;
  update_contact = λ id cards a. (err (failure "no such contact"), a);
  delete_contacts = λ ids a. (ok tt, a);
  merge = λ ring cards. err (failure "no cards");
}

abbrev pub small_ring : Keyring
small_ring = record { sign = λ text. ok text; encrypt = λ text. ok text }

stored-create :
    (cs a : Stored) → length (store_first cs a).1 ≤ length a + gained (store_first cs a).0
unfolding accepted
stored-create [] a = omega arith
stored-create (c ∷ cs) a = ground arith

stored-answers : (cs a : Stored) → answered (store_first cs a).0 ≤ length cs
stored-answers [] a = omega arith
stored-answers (c ∷ cs) a = omega arith

pub length-ApiCounts : ApiCounts small_api length
length-ApiCounts = record {
  list = λ a. omega arith;
  fetch = λ id a. omega arith;
  update = λ id cards a. omega arith;
  create = stored-create;
  answers = stored-answers;
}
