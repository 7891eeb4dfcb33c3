-- ===== src/Tests/Requests.antt =====
-- A request to an address book with credentials.
use proton_carddav_sync.Base.{◌≡◌, refl, ℕ, nat_eq, string_eq, [], ◌∷◌, arith}
use proton_carddav_sync.Base.Base64.{AreBytes, encode_std}
use proton_carddav_sync.Base.Dict.{insert}
use proton_carddav_sync.Base.Exec.{Exec}
use proton_carddav_sync.Crypto.{Bytes}
use proton_carddav_sync.Carddav.Transport.{HttpRequest, new_http_client, with_basic_auth, send}
use proton_carddav_sync.Carddav.Transport.Credentials.{
  basic_auth, credentials, IsRequest, send-credentials,
}

abbrev ann : Bytes
ann = b'a' ∷ b'n' ∷ b'n' ∷ []

abbrev secret : Bytes
secret = b's' ∷ b':' ∷ b'3' ∷ []

abbrev query : HttpRequest ℕ
query = record { headers = ("Depth", b'1' ∷ []) ∷ []; rest = 7 }

-- `Basic YW5uOnM6Mw==`
header_example :
    (with_basic_auth (record { username = ann; password = secret }) query).headers
    ≡ ("Depth", b'1' ∷ [])
      ∷ (
        "Authorization",
        b'B' ∷ b'a' ∷ b's' ∷ b'i' ∷ b'c' ∷ b' ' ∷ b'Y' ∷ b'W' ∷ b'5' ∷ b'u' ∷ b'O' ∷ b'n' ∷ b'M'
            ∷ b'6' ∷ b'M' ∷ b'w' ∷ b'=' ∷ b'=' ∷ [],
      )
      ∷ []
unfolding with_basic_auth encode_std insert nat_eq string_eq
header_example = refl

ann-AreBytes : AreBytes ann
ann-AreBytes =
    AreBytes.byte (omega arith)
      (AreBytes.byte (omega arith) (AreBytes.byte (omega arith) AreBytes.none_left))

secret-AreBytes : AreBytes secret
secret-AreBytes =
    AreBytes.byte (omega arith)
      (AreBytes.byte (omega arith) (AreBytes.byte (omega arith) AreBytes.none_left))

send-credentials_example :
    (sent : HttpRequest ℕ) × ((base : HttpRequest ℕ → Exec ℕ ℕ) (n : ℕ)
      → send base (new_http_client ann secret) query n ≡ base sent n)
    × (basic_auth sent ≡ credentials ann secret (basic_auth query))
    × IsRequest query sent
unfolding nat_eq
send-credentials_example = send-credentials ann secret query ann-AreBytes secret-AreBytes refl
