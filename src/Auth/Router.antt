-- ===== src/Auth/Router.antt =====
-- The Google routes of backend/app/modules/auth/router.py. Redis keeps the state of a started sign-in for
-- a time, and what is written there is not taken back when a request raises. Random texts, the
-- PKCE pair and the time in seconds are arguments; the redirections and cookies are left out.
pub mod Callback
use electronic_shop.Base.{
  ℕ, ◌+◌, String, Bool, true, false, Option, none, some, List, [], ◌∷◌, ltb, same_text,
  if◌then◌else◌,
}
use electronic_shop.Base.Table.{lookup}
use electronic_shop.Base.Exec.{
  Exec, Result, ok, err, conflict, unauthorized, internal_error, pure, gets, or_raise, ◌>>=◌, ◌>>◌,
}
use electronic_shop.Users.Models.{UserRole}
use electronic_shop.Integrations.GoogleOauth.{
  GoogleIdentity, Google, Outcome, returned, refused, failed, exchange_code, verify_id_token,
}
use electronic_shop.Auth.Models.{Account, Accounts, Session}
use electronic_shop.Auth.Service.{request, issue_token_pair}
use electronic_shop.Auth.Accounts.{login_or_register_with_google, link_google_account}

abbrev pub oauth_state_ttl_seconds : ℕ
oauth_state_ttl_seconds = 600

pub data Action : Type 0 where
  login : Action
  link : ℕ → Action

pub record OauthSession : Type 0 where
  pub nonce : String
  pub verifier : String
  pub action : Action
  pub expires_at : ℕ

-- The database and the keys `oauth:google:…` of redis.
pub record Site : Type 0 where
  pub accounts : Accounts
  pub states : List (String × OauthSession)

-- `redis.get`, which does not find a key that has expired.
unfoldable pub find_state : String → ℕ → List (String × OauthSession) → Option OauthSession
find_state state now [] = none
find_state state now ((key, session) ∷ rest) =
    let others = find_state state now rest in
    if same_text key state
    then if ltb now session.expires_at then some session else none
    else others

-- `redis.delete`
unfoldable pub delete_state : String → List (String × OauthSession) → List (String × OauthSession)
delete_state state [] = []
delete_state state ((key, session) ∷ rest) =
    let others = delete_state state rest in
    if same_text key state then others else (key, session) ∷ others

-- `redis.set` with an expiry
abbrev pub set_state : String → OauthSession → Site → Site
set_state state session site = record site {
  states = (state, session) ∷ delete_state state site.states;
}

-- `google_login`, and `google_link_start` with the user's link as the action.
unfoldable pub start_sign_in :
    Google → Action → String → String → String → ℕ → Site → Result (Unit {0}) × Site
start_sign_in google action state nonce verifier now site =
    if google.is_configured
    then (
      ok tt,
      set_state state
          (record {
            nonce = nonce;
            verifier = verifier;
            action = action;
            expires_at = now + oauth_state_ttl_seconds;
          })
          site,
    )
    else (err conflict, site)

abbrev pub checked : Google → String → Outcome String → Outcome GoogleIdentity
checked google nonce (returned raw_id_token) = verify_id_token google raw_id_token nonce
checked google nonce refused = refused
checked google nonce failed = failed

-- The body of the first `try` of `google_callback`.
abbrev pub identify : Google → String → OauthSession → Outcome GoogleIdentity
identify google code session =
    checked google session.nonce (exchange_code google code session.verifier)

-- The fresh identifiers, digest and time of a request, and the lifetime of its refresh token.
pub record Fresh : Type 0 where
  pub user_id : ℕ
  pub token_id : ℕ
  pub token_hash : ℕ
  pub family_id : ℕ
  pub lifetime : ℕ
  pub now : ℕ

module _ (lower : String → String) (google : Google) where
  -- What the callback does with an identity, in the request's transaction: the user whose session it
  -- makes, or none for a link.
  abbrev pub finish : Action → GoogleIdentity → Fresh → Exec Session (Option ℕ)
  finish (Action.link user_id) identity fresh = do
    user ← or_raise (← gets (λ s. lookup user_id s.working.users)) unauthorized
    link_google_account lower user_id user identity
    pure none
  finish Action.login identity fresh = do
    (id, user) ← login_or_register_with_google lower fresh.user_id identity fresh.now
    issue_token_pair fresh.lifetime fresh.token_id fresh.token_hash fresh.family_id id user.role
        fresh.now
    pure (some id)

  abbrev pub conclude :
      Outcome GoogleIdentity → Action → Fresh → Accounts → Result (Option ℕ) × Accounts
  conclude (returned identity) action fresh accounts =
      request (finish action identity fresh) accounts
  conclude refused action fresh accounts = (err conflict, accounts)
  conclude failed action fresh accounts = (err internal_error, accounts)

  abbrev pub callback_for :
      Option OauthSession → String → String → Fresh → Site → Result (Option ℕ) × Site
  callback_for none code state fresh site = (err unauthorized, site)
  callback_for (some session) code state fresh site =
      let (result, accounts) =
        conclude (identify google code session) session.action fresh site.accounts in
      (result, record { accounts = accounts; states = delete_state state site.states })

  unfoldable pub google_callback : String → String → Fresh → Site → Result (Option ℕ) × Site
  google_callback code state fresh site =
      callback_for (find_state state fresh.now site.states) code state fresh site
