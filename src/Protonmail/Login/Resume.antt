-- ===== src/Protonmail/Login/Resume.antt =====
-- internal/protonmail/client.go: a login, and the resumption of its session.
use proton_carddav_sync.Base.{
  ◌≡◌, refl, ap, subst, String, Bool, true, false, Option, none, some, nat_eq, if◌then◌else◌,
}
use proton_carddav_sync.Base.Result.{wrap, Result, ok, err}
use proton_carddav_sync.Base.Exec.{Exec, pure, lift, within, ◌>>=◌}
use proton_carddav_sync.Base.Exec.Ensures.{Ensures, Ensures-bind, map_err-inv}
use proton_carddav_sync.Crypto.{Bytes}
use proton_carddav_sync.Protonmail.Cards.{Keyring}
use proton_carddav_sync.Protonmail.Login.{
  Auth, AuthApi, Session, Connection, Online, has_totp, call, set_client, set_keyring,
  second_factor, unlock, login_error, login_with_password, resume_session,
}

-- The server answered a login with this UID and this refresh token.
abbrev pub Granted : {S : Type 0} → AuthApi S → S → (uid refresh_token : Bytes) → Type 0
Granted api server uid refresh_token =
    (username : String) × (password : Bytes) × (auth : Auth) × ((api.new_client_with_login username
        password server).0
      ≡ ok auth)
    × (uid ≡ auth.uid)
    × (refresh_token ≡ auth.refresh_token)

module _ {S T : Type 0} (api : AuthApi S) where
  returned-Granted :
      (server : S) (auth : Auth) (key_pass : Bytes) (o : Online S T)
      → Granted api server auth.uid auth.refresh_token
      → Ensures
          (λ (session : Session) _. Granted api server session.uid session.refresh_token)
          (pure
            (record { uid = auth.uid; refresh_token = auth.refresh_token; key_pass = key_pass })
            o)
  unfolding pure
  returned-Granted server auth key_pass o granted = record {
    at = λ session e.
        let made : Session = record {
          uid = auth.uid;
          refresh_token = auth.refresh_token;
          key_pass = key_pass;
        } in
        let same : made ≡ session = cc e in
        subst (λ (s : Session). Granted api server s.uid s.refresh_token) same granted;
  }

  -- The session of a login has what the server answered.
  pub login-Granted :
      (username : String) (password : Bytes) (totp : Option (Result String)) (o : Online S T)
      → Ensures
          (λ (session : Session) _. Granted api o.server session.uid session.refresh_token)
          (login_with_password api username password totp o)
  unfolding login_with_password call within
  login-Granted username password totp o =
      let P = λ (session : Session) (_ : Online S T).
        Granted api o.server session.uid session.refresh_token in
      Ensures-bind P _ _ o (λ auth got. Ensures-bind P _ _ _ (λ _ _. Ensures-bind P _ _ _ (λ _ _.
        Ensures-bind P _ _ _ (λ key_pass _. returned-Granted o.server auth key_pass _ (
          username,
          password,
          auth,
          map_err-inv (login_error api username)
              (api.new_client_with_login username password o.server).0 auth got,
          refl,
          refl,
        )))))

module _ {S T : Type 0} (api : AuthApi S) (u : api.User)
    (same_user : (s : S) → (api.get_user s).0 ≡ ok u) where
  -- What holds of a program after it unlocked the key ring with a key password.
  abbrev pub Unlocked : Bool → Bytes → Online S T → Type 0
  Unlocked client key_pass o =
      (kr : Keyring) × (api.unlock_keys u key_pass ≡ ok kr)
      × (o.connection ≡ record { client = client; keyring = some kr })

  Unlocked-by :
      (client : Bool) (key_pass : Bytes) (kr : Keyring) (o : Online S T)
      → api.unlock_keys u key_pass ≡ ok kr
      → o.connection ≡ record { client = client; keyring = some kr }
      → Ensures (λ k. Unlocked client k) (pure key_pass o)
  unfolding pure
  Unlocked-by client key_pass kr o found set = record { at = λ k e. (kr, cc (e, found), set) }

  unlock-Unlocked :
      (password : Bytes) (o : Online S T)
      → Ensures (λ k. Unlocked o.connection.client k) (unlock api password o)
  unfolding unlock call set_keyring lift within
  unlock-Unlocked password o =
      let P = λ (k : Bytes). Unlocked o.connection.client k in
      Ensures-bind P _ _ o (λ v got. Ensures-bind P _ _ _ (λ salts _.
        Ensures-bind P _ _ _ (λ key_pass _. Ensures-bind P _ _ _ (λ kr found.
          Ensures-bind P _ _ _ (λ _ _.
            let same = map_err-inv (wrap "get user") (api.get_user o.server).0 v got in
            let opened =
              map_err-inv (wrap "unlock keyring") (api.unlock_keys v key_pass) kr found in
            Unlocked-by o.connection.client key_pass kr _ (cc (same, opened, same_user o.server))
              refl)))))

  second_factor-connection :
      (totp : Option (Result String)) (o : Online S T)
      → (second_factor api totp o).1.connection ≡ o.connection
  unfolding second_factor ◌>>=◌ call
  second_factor-connection none o = refl
  second_factor-connection (some (ok code)) o = refl
  second_factor-connection (some (err e)) o = refl

  step-connection :
      (b : Bool) (totp : Option (Result String)) (o : Online S T)
      → ((if b then second_factor api totp else pure tt) o).1.connection ≡ o.connection
  unfolding pure
  step-connection true totp o = second_factor-connection totp o
  step-connection false totp o = refl

  with_session :
      (client : Bool) (auth : Auth) (key_pass : Bytes) (o : Online S T)
      → client ≡ true
      → Unlocked client key_pass o
      → Ensures
          (λ (session : Session). Unlocked true session.key_pass)
          (pure
            (record { uid = auth.uid; refresh_token = auth.refresh_token; key_pass = key_pass })
            o)
  unfolding pure
  with_session client auth key_pass o is_set (kr, found, connected) = record {
    at = λ session e. (kr, cc (e, found), cc (is_set, connected));
  }

  -- A login that returns a session has its key ring unlocked by the key password of the session.
  pub login-Unlocked :
      (username : String) (password : Bytes) (totp : Option (Result String)) (o : Online S T)
      → Ensures
          (λ (session : Session). Unlocked true session.key_pass)
          (login_with_password api username password totp o)
  unfolding login_with_password set_client
  login-Unlocked username password totp o =
      let P = λ (session : Session). Unlocked true session.key_pass in
      Ensures-bind P _ _ o (λ auth _. Ensures-bind P _ _ _ (λ _ _. Ensures-bind P _ _ _ (λ _ _.
        Ensures-bind P _ _ _ (λ key_pass unlocked.
          with_session _ auth key_pass _
            (ap (λ (c : Connection). c.client) (step-connection (has_totp auth.two_fa) totp _))
            ((unlock-Unlocked password _).at key_pass unlocked)))))

  -- A callback that returns no error and leaves the client alone.
  pub record Leaves (on_refresh : Bytes → Exec (Online S T) (Unit {0})) : Type 0 where
    pub fine : (token : Bytes) (o : Online S T) → (on_refresh token o).0 ≡ ok tt
    pub connection :
        (token : Bytes) (o : Online S T) → (on_refresh token o).1.connection ≡ o.connection

  pub resume-Unlocked :
      (session : Session) (on_refresh : Bytes → Exec (Online S T) (Unit {0})) (auth : Auth)
      (kr : Keyring) (o : Online S T)
      → Leaves on_refresh
      → (api.new_client_with_refresh session.uid session.refresh_token o.server).0 ≡ ok auth
      → api.unlock_keys u session.key_pass ≡ ok kr
      → ((resume_session api session on_refresh o).0 ≡ ok tt)
        × ((resume_session api session on_refresh o).1.connection
            ≡ record { client = true; keyring = some kr })
  unfolding resume_session ◌>>=◌ call set_client set_keyring
  resume-Unlocked session on_refresh auth kr o leaves accepted found =
      rw (accepted, leaves.fine, same_user, found) (refl, rw leaves.connection refl)
