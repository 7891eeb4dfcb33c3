-- ===== src/Protonmail/Login.antt =====
-- internal/protonmail/client.go: the session of a client of a Proton account. The calls of go-proton-api
-- are a parameter; user names and tokens are bytes, as in Session.
pub mod Outside
pub mod Resume
use proton_carddav_sync.Base.{
  ℕ, ◌%◌, ◌/◌, String, Bool, true, false, Option, none, some, ◌==◌, nat_eq, if◌then◌else◌,
}
use proton_carddav_sync.Base.Result.{Error, failure, wrap, wrap_at, Result, ok, err, map_err}
use proton_carddav_sync.Base.Exec.{Exec, pure, fail, lift, attempt, within, ◌>>=◌, ◌>>◌}
use proton_carddav_sync.Crypto.{Bytes}
use proton_carddav_sync.Protonmail.Cards.{Keyring}
use proton_carddav_sync.Protonmail.Client.{not_logged_in}

-- What the client reads of a `proton.Auth`.
pub record Auth : Type 0 where
  pub uid : Bytes
  pub refresh_token : Bytes
  -- `TwoFA.Enabled`
  pub two_fa : ℕ

-- The calls of a manager and of the client that it gives, over whatever state the server has.
pub record AuthApi (S : Type 0) : Type 1 where
  pub User : Type 0
  pub Salts : Type 0
  -- a user name and a password
  pub new_client_with_login : String → Bytes → Exec S Auth
  -- a UID and a refresh token
  pub new_client_with_refresh : Bytes → Bytes → Exec S Auth
  -- the code of an error that is a `proton.APIError`
  pub api_code : Error → Option ℕ
  pub auth_2fa : String → Exec S (Unit {0})
  pub get_user : Exec S User
  pub get_salts : Exec S Salts
  -- the password, and the id of the user's primary key
  pub salt_for_key : Salts → Bytes → User → Result Bytes
  -- `user.Keys.Unlock`
  pub unlock_keys : User → Bytes → Result Keyring
  pub auth_delete : Exec S (Unit {0})

-- `Session`
pub record Session : Type 0 where
  pub uid : Bytes
  pub refresh_token : Bytes
  pub key_pass : Bytes

-- `Client`: whether `client` is set, and the key ring, if one is unlocked.
pub record Connection : Type 0 where
  pub client : Bool
  pub keyring : Option Keyring

-- `NewClient`
abbrev pub new_connection : Connection
new_connection = record { client = false; keyring = none }

-- The state of a program that holds a client; `outside` is what the callback of ResumeSession changes.
pub record Online (S T : Type 0) : Type 0 where
  pub server : S
  pub connection : Connection
  pub outside : T

abbrev pub human_verification_required : ℕ
human_verification_required = 9001

-- `proton.HasTOTP`, the lowest bit
abbrev pub has_totp : ℕ → Bool
has_totp enabled = enabled % 2 == 1

abbrev pub session_expired_text : String
session_expired_text = "proton session expired: re-run 'proton-carddav-sync init'"

abbrev pub human_verification_text : String
human_verification_text =
    "proton requires human verification (CAPTCHA) at login; this is Proton anti-abuse, not a wrong password (see the README Troubleshooting section)"

module _ {S T : Type 0} where
  unfoldable pub call : {A : Type 0} → Exec S A → Exec (Online S T) A
  call op o = let (r, s) = op o.server in (r, record o { server = s })

  unfoldable pub set_client : Bool → Exec (Online S T) (Unit {0})
  set_client b o = (ok tt, record o { connection = record o.connection { client = b } })

  unfoldable pub set_keyring : Keyring → Exec (Online S T) (Unit {0})
  set_keyring kr o = (ok tt, record o { connection = record o.connection { keyring = some kr } })

abbrev pub login_error : {S : Type 0} → AuthApi S → String → Error → Error
login_error api username e = elim (api.api_code e) [
  | none ↦ wrap_at "proton login for" username e
  | some code ↦
      if code == human_verification_required
      then wrap human_verification_text e
      else wrap_at "proton login for" username e
]

module _ {S T : Type 0} (api : AuthApi S) where
  -- The second factor; `totp` is what the callback gives, if there is one.
  unfoldable pub second_factor : Option (Result String) → Exec (Online S T) (Unit {0})
  second_factor none = fail (failure "proton account requires TOTP but no code was provided")
  second_factor (some answer) = do
    code ← lift (map_err (wrap "read totp code") answer)
    within (wrap "proton 2fa") (call (api.auth_2fa code))

  -- `unlock`
  unfoldable pub unlock : Bytes → Exec (Online S T) Bytes
  unlock password = do
    user ← within (wrap "get user") (call api.get_user)
    salts ← within (wrap "get key salts") (call api.get_salts)
    key_pass ← lift (map_err (wrap "derive key password") (api.salt_for_key salts password user))
    kr ← lift (map_err (wrap "unlock keyring") (api.unlock_keys user key_pass))
    set_keyring kr
    pure key_pass

  -- `LoginWithPassword`
  unfoldable pub login_with_password :
      (username : String) (password : Bytes) → Option (Result String) → Exec (Online S T) Session
  login_with_password username password totp = do
    auth ← within (login_error api username) (call (api.new_client_with_login username password))
    set_client true
    if has_totp auth.two_fa then second_factor totp else pure tt
    key_pass ← unlock password
    pure (record { uid = auth.uid; refresh_token = auth.refresh_token; key_pass = key_pass })

  -- `ResumeSession`; `on_refresh` is the callback, which does not return an error. The callback is also
  -- the handler of the tokens that later calls rotate.
  unfoldable pub resume_session :
      Session → (on_refresh : Bytes → Exec (Online S T) (Unit {0})) → Exec (Online S T) (Unit {0})
  resume_session session on_refresh = do
    auth ←
        within (wrap session_expired_text)
          (call (api.new_client_with_refresh session.uid session.refresh_token))
    set_client true
    on_refresh auth.refresh_token
    user ← within (wrap "get user") (call api.get_user)
    kr ← lift (map_err (wrap "unlock keyring") (api.unlock_keys user session.key_pass))
    set_keyring kr

  -- `Close`: the session stays valid on the server.
  unfoldable pub close : Exec (Online S T) (Unit {0})
  close = set_client false

  unfoldable pub logout_if : Bool → Exec (Online S T) (Unit {0})
  logout_if false = pure tt
  logout_if true = do within (wrap "proton logout") (call api.auth_delete); set_client false

  -- `Logout`
  unfoldable pub logout : Exec (Online S T) (Unit {0})
  logout o = logout_if o.connection.client o

-- `Keyring` and `Raw`: a client that is set may have no key ring, where unlocking it failed.
unfoldable pub get_keyring : Connection → Result (Option Keyring)
get_keyring c = if c.client then ok c.keyring else err not_logged_in

-- The session of the module Client, for a client with its key ring.
abbrev pub session_of : Connection → Option Keyring
session_of c = if c.client then c.keyring else none
