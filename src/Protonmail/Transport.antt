-- ===== src/Protonmail/Transport.antt =====
-- internal/protonmail/client.go, protonTransport: how a client of a Proton account sends its requests.
use proton_carddav_sync.Base.{String, Option, ◌==◌, string_eq, if◌then◌else◌}
use proton_carddav_sync.Base.Dict.{Dict, insert}
use proton_carddav_sync.Base.Int.{ℤ}
use proton_carddav_sync.Base.Result.{Result, ok, err}
use proton_carddav_sync.Base.Exec.{Exec}
use proton_carddav_sync.Protonmail.Limiter.{Limiter, Call, new_rate_limiter, wait}

-- A request: its headers, by their canonical names, and the rest of it.
pub record Request (R : Type 0) : Type 0 where
  pub headers : Dict String String
  pub rest : R

-- `protonTransport`, less the transport below it
pub record Transport : Type 0 where
  pub limiter : Option Limiter
  pub ua : String

abbrev pub default_user_agent : String
default_user_agent = "Mozilla/5.0 (X11; Linux x86_64; rv:128.0) Gecko/20100101 Firefox/128.0"

abbrev pub proton_api_version : String
proton_api_version = "3"

-- The part of `NewClient` that builds the transport; the first argument is PCS_PROTON_USER_AGENT.
unfoldable pub new_transport : (user_agent : String) (max_requests_per_minute : ℤ) → Transport
new_transport user_agent max_requests_per_minute = record {
  limiter = new_rate_limiter max_requests_per_minute;
  ua = if user_agent == "" then default_user_agent else user_agent;
}

-- The copy of a request that is sent; the request itself stays as it is.
unfoldable pub with_headers : {R : Type 0} → Transport → Request R → Request R
with_headers t req = record req {
  headers = insert "X-Pm-Apiversion" proton_api_version (insert "User-Agent" t.ua req.headers);
}

module _ {N R A : Type 0} (base : Request R → Exec N A) where
  -- Once the wait is over.
  unfoldable pub sent : {T : Type 0} → Result T → Transport → Request R → Exec N A
  sent (ok time) t req n = base (with_headers t req) n
  sent (err e) t req n = (err e, n)

  -- `RoundTrip`: what it returns, the transport after it, and the network.
  unfoldable pub round_trip : Call → Transport → Request R → N → Result A × Transport × N
  round_trip call t req n =
      let (waited, limiter) = wait call t.limiter in
      let (answer, after) = sent waited t req n in (answer, record t { limiter = limiter }, after)
