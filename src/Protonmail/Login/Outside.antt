-- ===== src/Protonmail/Login/Outside.antt =====
-- internal/protonmail/client.go, LoginWithPassword: what is outside the client.
use proton_carddav_sync.Base.{String, Bool, Option, none, some, nat_eq}
use proton_carddav_sync.Base.Result.{Result}
use proton_carddav_sync.Base.Exec.{Exec}
use proton_carddav_sync.Base.Exec.Keeps.{Keeps, keeps_rules}
use proton_carddav_sync.Crypto.{Bytes}
use proton_carddav_sync.Protonmail.Login.{
  AuthApi, Online, call, set_client, set_keyring, second_factor, unlock, login_with_password,
}
use proton_carddav_sync.Protonmail.Cards.{Keyring}

module _ {S T : Type 0} (Q : T → Type 0) where
  abbrev pub OutsideHas : Online S T → Type 0
  OutsideHas o = Q o.outside

  call-Keeps : {A : Type 0} (op : Exec S A) → Keeps OutsideHas (call op)
  unfolding call
  call-Keeps op = record { at = λ o h. h }

  set_client-Keeps : (b : Bool) → Keeps OutsideHas (set_client b)
  unfolding set_client
  set_client-Keeps b = record { at = λ o h. h }

  set_keyring-Keeps : (kr : Keyring) → Keeps OutsideHas (set_keyring kr)
  unfolding set_keyring
  set_keyring-Keeps kr = record { at = λ o h. h }

  ruleset session_rules = (call-Keeps, set_client-Keeps, set_keyring-Keeps)

  module _ (api : AuthApi S) where
    second_factor-Keeps :
        (totp : Option (Result String)) → Keeps OutsideHas (second_factor api totp)
    unfolding second_factor
    second_factor-Keeps none = search keeps_rules
    second_factor-Keeps (some answer) = search (keeps_rules, session_rules)

    unlock-Keeps : (password : Bytes) → Keeps OutsideHas (unlock api password)
    unfolding unlock
    unlock-Keeps password = search (keeps_rules, session_rules) depth 12

    pub login-Keeps :
        (username : String) (password : Bytes) (totp : Option (Result String))
        → Keeps OutsideHas (login_with_password api username password totp)
    unfolding login_with_password
    login-Keeps username password totp =
        search (keeps_rules, session_rules, second_factor-Keeps, unlock-Keeps) depth 12
