-- ===== src/Carddav/Transport.antt =====
-- internal/carddav/client.go, basicAuthTransport: how a client of an address book sends its requests.
pub mod Credentials
use proton_carddav_sync.Base.{
  ◌≡◌, refl, ◌∙◌, sym, ap, ℕ, String, Bool, true, false, Option, none, some, List, [], ◌∷◌, ◌++◌,
  ◌==◌, string_eq, nat_eq, arith, contains, if◌then◌else◌,
}
use proton_carddav_sync.Base.Base64.{encode_std}
use proton_carddav_sync.Base.Dict.{Dict, insert}
use proton_carddav_sync.Base.Exec.{Exec}
use proton_carddav_sync.Crypto.{Bytes}

-- A request: its headers, by their canonical names, and the rest of it.
pub record HttpRequest (R : Type 0) : Type 0 where
  pub headers : Dict String Bytes
  pub rest : R

-- `basicAuthTransport`, less the transport below it; texts are their bytes.
pub record BasicAuthTransport : Type 0 where
  pub username : Bytes
  pub password : Bytes

-- The part of `New` that builds the client of HTTP.
unfoldable pub new_http_client : (username password : Bytes) → Option BasicAuthTransport
new_http_client [] password = none
new_http_client (b ∷ bs) password = some (record { username = b ∷ bs; password = password })

-- "Basic "
abbrev pub scheme : Bytes
scheme = b'B' ∷ b'a' ∷ b's' ∷ b'i' ∷ b'c' ∷ b' ' ∷ []

abbrev pub colon : ℕ
colon = b':'

module _ {R : Type 0} where
  -- `SetBasicAuth`, on the copy of a request; the request itself stays as it is.
  unfoldable pub with_basic_auth : BasicAuthTransport → HttpRequest R → HttpRequest R
  with_basic_auth t req = record req {
    headers =
        insert "Authorization" (scheme ++ encode_std (t.username ++ colon ∷ t.password))
          req.headers;
  }

  -- `RoundTrip`, over the transport below
  unfoldable pub basic_round_trip :
      {N A : Type 0} → (HttpRequest R → Exec N A) → BasicAuthTransport → HttpRequest R → Exec N A
  basic_round_trip base t req = base (with_basic_auth t req)

  -- What the client of HTTP does with a request: without a transport of its own, it has the default one.
  unfoldable pub send :
      {N A : Type 0}
      → (HttpRequest R → Exec N A)
      → Option BasicAuthTransport
      → HttpRequest R
      → Exec N A
  send base none req = base req
  send base (some t) req = basic_round_trip base t req
