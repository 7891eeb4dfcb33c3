-- ===== src/Tests/Secrets.antt =====
-- The stored secrets, with a small cipher: the tag is the length of the key.
use proton_carddav_sync.Base.{
  ◌≡◌, refl, ℕ, zero, suc, Option, none, some, [], ◌∷◌, ◌++◌, ◌==◌, nat_eq, length, arith,
  if◌then◌else◌,
}
use proton_carddav_sync.Base.Result.{ok}
use proton_carddav_sync.Base.Exec
use proton_carddav_sync.Crypto.{Bytes, Ciphers, derive_key, derive_key_with_salt, encrypt, decrypt}
use proton_carddav_sync.Crypto.Laws.{Opens, Reads, decrypt-encrypt}
use proton_carddav_sync.Db.{Credentials, Db, statement}
use proton_carddav_sync.Db.Secrets.{load_credentials}
use proton_carddav_sync.Session.{
  Secrets, Random, Draws, seal_secrets, open_with, open_secrets, decrypt_field,
}
use proton_carddav_sync.Session.RoundTrip.{AllRead, load-store_secrets}
use proton_carddav_sync.Session.Rotation.{load-on_refresh}
use proton_carddav_sync.Session.Store.{
  store_secrets, load_decrypted_credentials, encrypt_refresh_token, on_refresh,
}
use proton_carddav_sync.Tests.Fixtures.{empty_db}

abbrev pub zeros : ℕ → Bytes
zeros zero = []
zeros (suc n) = 0 ∷ zeros n

abbrev small_unseal : Bytes → Bytes → Option Bytes
small_unseal key [] = none
small_unseal key (tag ∷ plaintext) = if tag == length key then some plaintext else none

abbrev pub small_ciphers : Ciphers
small_ciphers = record {
  valid_key = λ key. length key == 32;
  seal = λ key nonce plaintext. length key ∷ plaintext;
  unseal = λ key nonce ciphertext. small_unseal key ciphertext;
  pbkdf2 = λ password salt iterations n. zeros n;
}

pub small_ciphers-Opens : Opens small_ciphers
small_ciphers-Opens = record { unseal-seal = λ key nonce plaintext. ground arith }

abbrev pub small_random : Random
small_random n = ok (zeros n)

length-zeros : (n : ℕ) → length (zeros n) ≡ n
length-zeros zero = refl
length-zeros (suc n) = omega (arith, length-zeros n)

pub small_random-Reads : Reads small_random
small_random-Reads = record { length-random = λ n bytes h. read n bytes h }
  where
    read : (n : ℕ) (bytes : Bytes) → small_random n ≡ ok bytes → length bytes ≡ n
    read n bytes h = cc (h, length-zeros n)

abbrev pub small_draws : Draws
small_draws = record {
  salt = small_random;
  uid = small_random;
  refresh = small_random;
  key_pass = small_random;
  carddav = small_random;
}

pub small_draws-AllRead : AllRead small_draws
small_draws-AllRead = record {
  uid = small_random-Reads;
  refresh = small_random-Reads;
  key_pass = small_random-Reads;
  carddav = small_random-Reads;
}

abbrev stored_row : Credentials
stored_row = record {
  salt = zeros 32;
  proton_uid_enc = zeros 12 ++ 32 ∷ 1 ∷ [];
  proton_refresh_enc = zeros 12 ++ 32 ∷ 2 ∷ [];
  proton_keypass_enc = zeros 12 ++ 32 ∷ 3 ∷ [];
  carddav_password_enc = zeros 12 ++ 32 ∷ 4 ∷ [];
}

abbrev secrets : Secrets
secrets = record {
  session_uid = 1 ∷ [];
  refresh_token = 2 ∷ [];
  key_pass = 3 ∷ [];
  carddav_pass = 4 ∷ [];
  key = zeros 32;
}

decrypt-encrypt_example : decrypt small_ciphers (zeros 32) (zeros 12 ++ 32 ∷ 1 ∷ []) ≡ ok (1 ∷ [])
unfolding encrypt nat_eq
decrypt-encrypt_example =
    decrypt-encrypt small_ciphers small_ciphers-Opens small_random small_random-Reads (zeros 32)
      (1 ∷ []) (zeros 12 ++ 32 ∷ 1 ∷ []) refl

load-store_secrets_example :
    (load_decrypted_credentials small_ciphers
      (7 ∷ [])
      (store_secrets small_ciphers small_draws
        (7 ∷ [])
        (1 ∷ [])
        (2 ∷ [])
        (3 ∷ [])
        (4 ∷ [])
        empty_db).1).0
    ≡ ok secrets
unfolding seal_secrets derive_key derive_key_with_salt encrypt nat_eq
load-store_secrets_example =
    load-store_secrets small_ciphers small_ciphers-Opens small_draws small_draws-AllRead (7 ∷ [])
      (1 ∷ []) (2 ∷ []) (3 ∷ []) (4 ∷ []) (zeros 32) stored_row empty_db refl refl refl

abbrev stored_db : Db
stored_db = record empty_db { credentials = some stored_row }

load-on_refresh_example :
    (load_decrypted_credentials small_ciphers
      (7 ∷ [])
      (on_refresh small_ciphers small_random secrets (9 ∷ []) stored_db).1).0
    ≡ ok (record secrets { refresh_token = 9 ∷ [] })
unfolding load_decrypted_credentials Exec.◌>>=◌ load_credentials statement open_secrets open_with
    decrypt_field decrypt derive_key_with_salt encrypt_refresh_token encrypt nat_eq
load-on_refresh_example =
    load-on_refresh small_ciphers small_ciphers-Opens small_random small_random-Reads (7 ∷ [])
      (9 ∷ []) (zeros 12 ++ 32 ∷ 9 ∷ []) secrets stored_db refl refl refl refl
