-- ===== src/Carddav/Transport/Credentials.antt =====
-- internal/carddav/client.go, basicAuthTransport: the credentials that arrive at the server.
use proton_carddav_sync.Base.{
  ◌≡◌, refl, ℕ, String, false, Option, none, some, [], ◌∷◌, ◌++◌, ◌==◌, string_eq, nat_eq, arith,
  contains, if◌then◌else◌,
}
use proton_carddav_sync.Base.Base64.{decode_std, decode_std-encode_std, AreBytes}
use proton_carddav_sync.Base.Dict.{Dict, lookup, insert, lookup-insert}
use proton_carddav_sync.Base.Exec.{Exec}
use proton_carddav_sync.Crypto.{Bytes}
use proton_carddav_sync.Carddav.Transport.{
  HttpRequest, BasicAuthTransport, new_http_client, scheme, colon, with_basic_auth,
  basic_round_trip, send,
}

-- The credentials that a server reads from a request, by RFC 7617.
unfoldable without_scheme : Bytes → Bytes → Option Bytes
without_scheme [] s = some s
without_scheme (c ∷ p) [] = none
without_scheme (c ∷ p) (d ∷ s) = let rest = without_scheme p s in if c == d then rest else none

abbrev before_rest : ℕ → Option (Bytes × Bytes) → Option (Bytes × Bytes)
before_rest c none = none
before_rest c (some (u, p)) = some (c ∷ u, p)

unfoldable cut_colon : Bytes → Option (Bytes × Bytes)
cut_colon [] = none
cut_colon (c ∷ s) =
    let rest = cut_colon s in if colon == c then some ([], s) else before_rest c rest

abbrev chain : {A B : Type 0} → Option A → (A → Option B) → Option B
chain none f = none
chain (some a) f = f a

unfoldable pub basic_auth : {R : Type 0} → HttpRequest R → Option (Bytes × Bytes)
unfolding without_scheme cut_colon
basic_auth req =
    chain (lookup "Authorization" req.headers)
      (λ v. chain (without_scheme scheme v) (λ e. chain (decode_std e) cut_colon))

AreBytes-append : (s t : Bytes) → AreBytes s → AreBytes t → AreBytes (s ++ t)
AreBytes-append [] t h k = k
AreBytes-append (b ∷ s) t (AreBytes.byte p h) k = AreBytes.byte p (AreBytes-append s t h k)

cut_colon-append :
    (username password : Bytes)
    → contains username colon ≡ false
    → cut_colon (username ++ colon ∷ password) ≡ some (username, password)
unfolding cut_colon nat_eq
cut_colon-append [] password h = refl
cut_colon-append (c ∷ s) password h = rw (cut_colon-append s password (ground arith)) (ground arith)

basic_auth-with :
    {R : Type 0} (t : BasicAuthTransport) (req : HttpRequest R)
    → AreBytes t.username
    → AreBytes t.password
    → contains t.username colon ≡ false
    → basic_auth (with_basic_auth t req) ≡ some (t.username, t.password)
unfolding basic_auth with_basic_auth without_scheme nat_eq string_eq
basic_auth-with t req h k clear =
    rw
      (
        lookup-insert "Authorization" "Authorization" _ req.headers,
        decode_std-encode_std (t.username ++ colon ∷ t.password)
            (AreBytes-append _ _ h (AreBytes.byte (omega arith) k)),
      )
      (cut_colon-append t.username t.password clear)

-- The same request, but for its Authorization header.
pub record IsRequest {R : Type 0} (req sent : HttpRequest R) : Type 0 where
  pub rest : sent.rest ≡ req.rest
  pub headers :
      (name : String)
      → lookup name sent.headers
        ≡ (if name == "Authorization" then lookup name sent.headers else lookup name req.headers)

-- What the server reads where there are credentials, and where there are none.
abbrev pub credentials : Bytes → Bytes → Option (Bytes × Bytes) → Option (Bytes × Bytes)
credentials [] password own = own
credentials (b ∷ bs) password own = some (b ∷ bs, password)

same-IsRequest : {R : Type 0} (req : HttpRequest R) → IsRequest req req
same-IsRequest req = record { rest = refl; headers = λ name. ground arith }

others-insert :
    (name key : String) (v : Bytes) (m : Dict String Bytes)
    → lookup name (insert key v m)
      ≡ (if name == key then lookup name (insert key v m) else lookup name m)
others-insert name key v m = ground (arith, lookup-insert name key v m)

with_basic_auth-IsRequest :
    {R : Type 0} (t : BasicAuthTransport) (req : HttpRequest R)
    → IsRequest req (with_basic_auth t req)
unfolding with_basic_auth
with_basic_auth-IsRequest t req = record {
  rest = refl;
  headers = λ name. others-insert name "Authorization" _ req.headers;
}

-- Whatever the transport below is, it gets the request with the credentials: a server that reads them
-- by RFC 7617 finds the user name and the password, where both are bytes and the user name has no
-- colon, and what the request had itself where the user name is empty. Everything else is as before.
pub send-credentials :
    {N R A : Type 0} (username password : Bytes) (req : HttpRequest R)
    → AreBytes username
    → AreBytes password
    → contains username colon ≡ false
    → (sent : HttpRequest R) × ((base : HttpRequest R → Exec N A) (n : N)
        → send base (new_http_client username password) req n ≡ base sent n)
      × (basic_auth sent ≡ credentials username password (basic_auth req))
      × IsRequest req sent
unfolding send new_http_client basic_round_trip
send-credentials [] password req h k clear = (req, λ base n. refl, refl, same-IsRequest req)
send-credentials (b ∷ bs) password req h k clear =
    let t : BasicAuthTransport = record { username = b ∷ bs; password = password } in
    (
      with_basic_auth t req,
      λ base n. refl,
      basic_auth-with t req h k clear,
      with_basic_auth-IsRequest t req,
    )
