-- ===== src/Auth/Accounts/Requests.antt =====
-- Sequences of requests that make, link and use accounts (modules/auth/service.py).
use electronic_shop.Base.{ℕ, String, ◌≢◌, none, List, [], ◌∷◌}
use electronic_shop.Base.Table.{lookup}
use electronic_shop.Auth.Models.{Account, Accounts}
use electronic_shop.Auth.Service.{Crypto, request}
use electronic_shop.Auth.Accounts.{
  RegisterRequest, register, authenticate, request_password_reset, login_or_register_with_google,
  link_google_account,
}
use electronic_shop.Integrations.GoogleOauth.{GoogleIdentity}
use electronic_shop.Auth.Accounts.Unique.{IsSound}
use electronic_shop.Auth.Accounts.Kept.{
  register-IsSound, authenticate-IsSound, request_password_reset-IsSound,
  link_google_account-IsSound, login_or_register_with_google-IsSound,
}

pub data AccountCall : Type 0 where
  registering : ℕ → ℕ → ℕ → RegisterRequest → ℕ → AccountCall
  authenticating : String → ℕ → ℕ → AccountCall
  resetting : ℕ → ℕ → String → ℕ → AccountCall
  signing_in : ℕ → GoogleIdentity → ℕ → AccountCall
  linking : ℕ → Account → GoogleIdentity → AccountCall

module _ (lower : String → String) (c : Crypto) where
  abbrev pub perform : AccountCall → Accounts → Accounts
  perform (AccountCall.registering id token_id token_hash fields now) a =
      (request (register lower c id token_id token_hash fields now) a).1
  perform (AccountCall.authenticating email password now) a =
      (request (authenticate lower c email password now) a).1
  perform (AccountCall.resetting token_id token_hash email now) a =
      (request (request_password_reset lower token_id token_hash email now) a).1
  perform (AccountCall.signing_in id identity now) a =
      (request (login_or_register_with_google lower id identity now) a).1
  perform (AccountCall.linking user_id user identity) a =
      (request (link_google_account lower user_id user identity) a).1

  -- A link is made for a user who is there.
  abbrev pub IsPresent : AccountCall → Accounts → Type 0
  IsPresent (AccountCall.registering id token_id token_hash fields now) a = Unit
  IsPresent (AccountCall.authenticating email password now) a = Unit
  IsPresent (AccountCall.resetting token_id token_hash email now) a = Unit
  IsPresent (AccountCall.signing_in id identity now) a = Unit
  IsPresent (AccountCall.linking user_id user identity) a = lookup user_id a.users ≢ none

  unfoldable pub perform_all : List AccountCall → Accounts → Accounts
  perform_all [] a = a
  perform_all (call ∷ calls) a = perform_all calls (perform call a)

  unfoldable pub ArePresent : List AccountCall → Accounts → Type 0
  ArePresent [] a = Unit
  ArePresent (call ∷ calls) a = IsPresent call a × ArePresent calls (perform call a)

  perform-IsSound :
      (call : AccountCall) (a : Accounts) → IsPresent call a → IsSound a → IsSound (perform call a)
  perform-IsSound (AccountCall.registering id token_id token_hash fields now) a there h =
      register-IsSound lower c a h id token_id token_hash fields now
  perform-IsSound (AccountCall.authenticating email password now) a there h =
      authenticate-IsSound lower c a h email password now
  perform-IsSound (AccountCall.resetting token_id token_hash email now) a there h =
      request_password_reset-IsSound lower c a h token_id token_hash email now
  perform-IsSound (AccountCall.signing_in id identity now) a there h =
      login_or_register_with_google-IsSound lower c a h id identity now
  perform-IsSound (AccountCall.linking user_id user identity) a there h =
      link_google_account-IsSound lower c a h user_id user identity there

-- Whatever sequence of registrations, logins, sign-ins with Google, links of a Google account to a user
-- who is there and requests for a password reset is served, from accounts in which no two users have one
-- identifier, one e-mail address or one user name, no Google identity is linked twice and each link's
-- user is there, all this holds again.
pub accounts_unique :
    (lower : String → String) (c : Crypto) (calls : List AccountCall) (a : Accounts)
    → ArePresent lower c calls a
    → IsSound a
    → IsSound (perform_all lower c calls a)
unfolding perform_all ArePresent
accounts_unique lower c [] a there h = h
accounts_unique lower c (call ∷ calls) a there h =
    accounts_unique lower c calls (perform lower c call a) there.1
      (perform-IsSound lower c call a there.0 h)
