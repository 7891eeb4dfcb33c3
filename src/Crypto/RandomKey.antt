-- ===== src/Crypto/RandomKey.antt =====
-- internal/crypto/crypto.go, NewRandomKey: a key for PCS_ENCRYPTION_KEY.
use proton_carddav_sync.Base.{
  ◌≡◌, refl, subst, ℕ, ◌+◌, ◌-◌, ◌*◌, ◌/◌, ◌%◌, ◌==◌, nat_eq, ltb, [], ◌∷◌, length, arith,
  if◌then◌else◌,
}
use proton_carddav_sync.Base.Result.{wrap, Result, ok, err, ◌>>=◌, map_err}
use proton_carddav_sync.Crypto.{Bytes, key_len}
use proton_carddav_sync.Crypto.Laws.{Reads}

-- The alphabet of `base64.RawURLEncoding`.
abbrev digit : ℕ → ℕ
digit n =
    if ltb n 26
    then n + b'A'
    else if ltb n 52
    then n - 26 + b'a'
    else if ltb n 62
    then n - 52 + b'0'
    else if n == 62
    then b'-'
    else b'_'

-- `base64.RawURLEncoding.EncodeToString`
unfoldable pub encode_base64 : Bytes → Bytes
encode_base64 [] = []
encode_base64 (a ∷ []) = digit (a / 4) ∷ digit (a % 4 * 16) ∷ []
encode_base64 (a ∷ b ∷ []) = digit (a / 4) ∷ digit (a % 4 * 16 + b / 16) ∷ digit (b % 16 * 4) ∷ []
encode_base64 (a ∷ b ∷ c ∷ rest) =
    digit (a / 4)
    ∷ digit (a % 4 * 16 + b / 16)
    ∷ digit (b % 16 * 4 + c / 64)
    ∷ digit (c % 64)
    ∷ encode_base64 rest

-- `NewRandomKey`, the text as its bytes; `random` is what the random reader gives.
unfoldable pub new_random_key : (ℕ → Result Bytes) → Result Bytes
new_random_key random = do
  buf ← map_err (wrap "generate random key") (random key_len)
  ok (encode_base64 buf)

abc_key :
    encode_base64 (b'a' ∷ b'b' ∷ b'c' ∷ b'd' ∷ []) ≡ b'Y' ∷ b'W' ∷ b'J' ∷ b'j' ∷ b'Z' ∷ b'A' ∷ []
unfolding encode_base64 nat_eq
abc_key = refl

Cons : Bytes → Type 0
Cons key = (b : ℕ) × (bs : Bytes) × (key ≡ b ∷ bs)

encode_base64-Cons : (bytes : Bytes) → length bytes ≡ key_len → Cons (encode_base64 bytes)
unfolding Cons encode_base64
encode_base64-Cons [] h = absurd (omega (arith, h))
encode_base64-Cons (a ∷ []) h = (_, _, refl)
encode_base64-Cons (a ∷ b ∷ []) h = (_, _, refl)
encode_base64-Cons (a ∷ b ∷ c ∷ rest) h = (_, _, refl)

drawn-Cons :
    (drawn : Result Bytes) (key : Bytes)
    → ((bytes : Bytes) → drawn ≡ ok bytes → length bytes ≡ key_len)
    → (map_err (wrap "generate random key") drawn >>= λ buf. ok (encode_base64 buf)) ≡ ok key
    → Cons key
drawn-Cons (ok bytes) key read h = subst Cons (cc h) (encode_base64-Cons bytes (read bytes refl))
drawn-Cons (err e) key read h = cc h

-- A new key is not empty.
pub new_random_key-cons :
    (random : ℕ → Result Bytes) (key : Bytes)
    → Reads random
    → new_random_key random ≡ ok key
    → (b : ℕ) × (bs : Bytes) × (key ≡ b ∷ bs)
unfolding new_random_key Cons
new_random_key-cons random key reads h =
    drawn-Cons (random key_len) key (λ bytes. reads.length-random key_len bytes) h
