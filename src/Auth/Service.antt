-- ===== src/Auth/Service.antt =====
-- backend/app/modules/auth/service.py, class AuthService, over repository.py: refresh tokens,
-- passwords and one-time tokens. Fresh tokens, identifiers and the time in seconds are arguments.
pub mod Lookup
pub mod Parts
pub mod Families
pub mod Requests
pub mod Reuse
use electronic_shop.Base.{
  ℕ, ◌+◌, Bool, true, false, not, ◌||◌, Option, none, some, List, [], ◌∷◌, ltb, ◌==◌, if◌then◌else◌,
  is_none,
}
use electronic_shop.Base.Table.{Table, lookup, insert}
use electronic_shop.Base.Exec.{
  Exec, Result, ok, err, unauthorized, not_found, internal_error, pure, raise, gets, or_raise,
  raise_if, modify, when, ◌>>=◌, ◌>>◌,
}
use electronic_shop.Users.Models.{UserRole}
use electronic_shop.Auth.Models.{Account, RefreshToken, OneTimeToken, Accounts, Session}

-- security/password.py: the password hashes of a library.
pub record Crypto : Type 0 where
  pub hash_password : ℕ → ℕ
  pub verify_password : ℕ → ℕ → Bool

-- `session.commit()` within a request
abbrev pub commit : Exec Session (Unit {0})
commit = modify (λ s. record s { committed = s.working })

-- A request: committed when it returns, and taken back to the last commit when it raises.
unfoldable pub request : {A : Type 0} → Exec Session A → Accounts → Result A × Accounts
request m a =
    let (r, s) = m (record { working = a; committed = a }) in
    elim r [ ok x ↦ (ok x, s.working) | err e ↦ (err e, s.committed) ]

abbrev pub change : (Accounts → Accounts) → Exec Session (Unit {0})
change f = modify (λ s. record s { working = f s.working })

-- `RefreshTokenRepository.get_by_hash`: the token with its identifier (`token_hash` is unique).
unfoldable pub get_by_hash : ℕ → Table RefreshToken → Option (ℕ × RefreshToken)
get_by_hash h [] = none
get_by_hash h ((id, token) ∷ rest) =
    if h == token.token_hash then some (id, token) else get_by_hash h rest

abbrev pub is_live : RefreshToken → Bool
is_live token = is_none token.revoked_at

abbrev pub revoked : ℕ → RefreshToken → RefreshToken
revoked now token = record token { revoked_at = some now }

-- The loop of both revoking queries, over the live tokens that `chosen` selects.
unfoldable pub revoke_where : (RefreshToken → Bool) → ℕ → Table RefreshToken → Table RefreshToken
revoke_where chosen now [] = []
revoke_where chosen now ((id, token) ∷ rest) =
    let tokens = revoke_where chosen now rest in
    if is_live token
    then if chosen token then (id, revoked now token) ∷ tokens else (id, token) ∷ tokens
    else (id, token) ∷ tokens

abbrev pub revoke_family : ℕ → ℕ → Accounts → Accounts
revoke_family family_id now a = record a {
  refresh_tokens = revoke_where (λ token. token.family_id == family_id) now a.refresh_tokens;
}

abbrev pub revoke_all_for_user : ℕ → ℕ → Accounts → Accounts
revoke_all_for_user user_id now a = record a {
  refresh_tokens = revoke_where (λ token. token.user_id == user_id) now a.refresh_tokens;
}

abbrev pub set_token : ℕ → RefreshToken → Accounts → Accounts
set_token id token a = record a { refresh_tokens = insert id token a.refresh_tokens }

-- `AuthService._issue_refresh_token`, for a fresh token of digest `token_hash`: a digest that another
-- token has is refused by the unique constraint. The access token is what it claims.
abbrev pub issue_refresh_token : ℕ → ℕ → ℕ → ℕ → ℕ → UserRole → ℕ → Exec Session (ℕ × UserRole)
issue_refresh_token lifetime id token_hash family_id user_id role now = do
  known ← gets (λ s. get_by_hash token_hash s.working.refresh_tokens)
  raise_if (not (is_none known)) internal_error
  change (
      set_token id (record {
        user_id = user_id;
        token_hash = token_hash;
        family_id = family_id;
        replaced_by_id = none;
        revoked_at = none;
        expires_at = now + lifetime;
        created_at = now;
      }))
  pure (user_id, role)

unfoldable pub issue_token_pair : ℕ → ℕ → ℕ → ℕ → ℕ → UserRole → ℕ → Exec Session (ℕ × UserRole)
issue_token_pair lifetime id token_hash family_id user_id role now =
    issue_refresh_token lifetime id token_hash family_id user_id role now

-- A token that is presented again after its rotation: its family is revoked for good.
abbrev pub punish : ℕ → ℕ → Exec Session (Unit {0})
punish family_id now = do change (revoke_family family_id now); commit; raise unauthorized

-- `AuthService.rotate_refresh_token`, of the token whose digest is `presented`.
unfoldable pub rotate_refresh_token : ℕ → ℕ → ℕ → ℕ → ℕ → Exec Session (ℕ × UserRole)
rotate_refresh_token lifetime presented id token_hash now = do
  (stored_id, stored) ←
      or_raise (← gets (λ s. get_by_hash presented s.working.refresh_tokens)) unauthorized
  when (not (is_live stored)) (punish stored.family_id now)
  raise_if (ltb stored.expires_at now) unauthorized
  user ← or_raise (← gets (λ s. lookup stored.user_id s.working.users)) unauthorized
  raise_if (not user.is_active) unauthorized
  change (set_token stored_id (revoked now stored))
  access ← issue_refresh_token lifetime id token_hash stored.family_id stored.user_id user.role now
  change (set_token stored_id (record (revoked now stored) { replaced_by_id = some id }))
  pure access

abbrev pub logout_found : Option (ℕ × RefreshToken) → ℕ → Exec Session (Unit {0})
logout_found none now = pure tt
logout_found (some (id, stored)) now =
    when (is_live stored) (change (set_token id (revoked now stored)))

unfoldable pub logout : ℕ → ℕ → Exec Session (Unit {0})
logout presented now = do
  stored ← gets (λ s. get_by_hash presented s.working.refresh_tokens)
  logout_found stored now

abbrev pub set_user : ℕ → Account → Accounts → Accounts
set_user id user a = record a { users = insert id user a.users }

abbrev pub password_is : Crypto → Option ℕ → ℕ → Bool
password_is c none password = false
password_is c (some hash) password = c.verify_password password hash

-- The user is the one that the request's access token names.
unfoldable pub change_password : Crypto → ℕ → Account → ℕ → ℕ → ℕ → Exec Session (Unit {0})
change_password c user_id user current_password new_password now = do
  raise_if (not (password_is c user.hashed_password current_password)) unauthorized
  change (set_user user_id (record user { hashed_password = some (c.hash_password new_password) }))
  change (revoke_all_for_user user_id now)

-- `PasswordResetRepository.get_by_hash` and `EmailVerificationRepository.get_by_hash`
unfoldable pub one_time_by_hash : ℕ → Table OneTimeToken → Option (ℕ × OneTimeToken)
one_time_by_hash h [] = none
one_time_by_hash h ((id, token) ∷ rest) =
    if h == token.token_hash then some (id, token) else one_time_by_hash h rest

abbrev pub is_spent : OneTimeToken → ℕ → Bool
is_spent token now = not (is_none token.used_at) || ltb token.expires_at now

unfoldable pub confirm_password_reset : Crypto → ℕ → ℕ → ℕ → Exec Session (Unit {0})
confirm_password_reset c presented new_password now = do
  (id, token) ←
      or_raise (← gets (λ s. one_time_by_hash presented s.working.password_resets)) unauthorized
  raise_if (is_spent token now) unauthorized
  user ← or_raise (← gets (λ s. lookup token.user_id s.working.users)) not_found
  change (
      set_user token.user_id
        (record user { hashed_password = some (c.hash_password new_password) }))
  change λ a. record a {
    password_resets = insert id (record token { used_at = some now }) a.password_resets;
  }
  change (revoke_all_for_user token.user_id now)

unfoldable pub confirm_email_verification : ℕ → ℕ → Exec Session (Unit {0})
confirm_email_verification presented now = do
  (id, token) ←
      or_raise (← gets (λ s. one_time_by_hash presented s.working.email_verifications)) unauthorized
  raise_if (is_spent token now) unauthorized
  user ← or_raise (← gets (λ s. lookup token.user_id s.working.users)) not_found
  change (set_user token.user_id (record user { is_verified = true }))
  change λ a. record a {
    email_verifications = insert id (record token { used_at = some now }) a.email_verifications;
  }
