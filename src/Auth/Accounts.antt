-- ===== src/Auth/Accounts.antt =====
-- backend/app/modules/auth/service.py, class AuthService, over repository.py: registration, login by
-- password and by Google, and the requests for one-time tokens. `str.lower` is a parameter; fresh
-- identifiers and tokens, and the time in seconds, are arguments; the e-mails are left out.
pub mod Usernames
pub mod Unique
pub mod Kept
pub mod Requests
pub mod Login
pub mod Google
use Prim.Native.Char.{Char, code}
use Prim.Native.String as Text
use electronic_shop.Base.{
  ℕ, zero, suc, ◌+◌, String, Bool, true, false, not, Option, none, some, List, [], ◌∷◌, ◌==◌,
  same_text, decimal, if◌then◌else◌, is_none, length,
}
use electronic_shop.Base.Table.{Table, lookup, insert}
use electronic_shop.Base.Exec.{
  Exec, conflict, unauthorized, internal_error, pure, gets, or_raise, raise, raise_if, ◌>>=◌, ◌>>◌,
}
use electronic_shop.Users.Models.{UserRole}
use electronic_shop.Integrations.GoogleOauth.{GoogleIdentity}
use electronic_shop.Auth.Models.{
  Account, OneTimeToken, OAuthProvider, OAuthAccount, Accounts, Session,
}
use electronic_shop.Auth.Service.{
  Crypto, change, set_user, password_is, one_time_by_hash, issue_token_pair,
}

abbrev pub password_reset_ttl : ℕ
password_reset_ttl = 3600

abbrev pub email_verification_ttl : ℕ
email_verification_ttl = 172800

pub record RegisterRequest : Type 0 where
  pub email : String
  pub username : String
  pub password : ℕ
  pub first_name : String
  pub last_name : String

-- The row whose e-mail address is this one, lowered already.
unfoldable pub with_email : String → Table Account → Option (ℕ × Account)
with_email email [] = none
with_email email ((id, user) ∷ rest) =
    if same_text user.email email then some (id, user) else with_email email rest

unfoldable pub get_by_username : String → Table Account → Option (ℕ × Account)
get_by_username username [] = none
get_by_username username ((id, user) ∷ rest) =
    if same_text user.username username then some (id, user) else get_by_username username rest

-- The query of `get_by_oauth`. There is one provider.
unfoldable pub linked_account : String → List OAuthAccount → Option OAuthAccount
linked_account subject [] = none
linked_account subject (account ∷ rest) =
    if same_text account.provider_user_id subject then some account else linked_account subject rest

abbrev pub row_of : Table Account → Option OAuthAccount → Option (ℕ × Account)
row_of users none = none
row_of users (some account) = elim (lookup account.user_id users) [
  | none ↦ none
  | some user ↦ some (account.user_id, user)
]

abbrev pub get_by_oauth : String → Accounts → Option (ℕ × Account)
get_by_oauth subject a = row_of a.users (linked_account subject a.oauth_accounts)

abbrev pub one_time : ℕ → ℕ → ℕ → ℕ → OneTimeToken
one_time user_id token_hash ttl now = record {
  user_id = user_id;
  token_hash = token_hash;
  expires_at = now + ttl;
  used_at = none;
  created_at = now;
}

-- A digest that another token has is refused by the unique constraint.
abbrev pub issue_email_verification : ℕ → ℕ → ℕ → ℕ → Exec Session (Unit {0})
issue_email_verification id token_hash user_id now = do
  known ← gets (λ s. one_time_by_hash token_hash s.working.email_verifications)
  raise_if (not (is_none known)) internal_error
  change λ a. record a {
    email_verifications =
        insert id (one_time user_id token_hash email_verification_ttl now) a.email_verifications;
  }

abbrev pub issue_password_reset : ℕ → ℕ → ℕ → ℕ → Exec Session (Unit {0})
issue_password_reset id token_hash user_id now = do
  known ← gets (λ s. one_time_by_hash token_hash s.working.password_resets)
  raise_if (not (is_none known)) internal_error
  change λ a. record a {
    password_resets =
        insert id (one_time user_id token_hash password_reset_ttl now) a.password_resets;
  }

-- The text before the first `@`, and the first characters of a text.
before_at : String → String
before_at Text.[] = Text.[]
before_at (Text.◌∷◌ c s) = if code c == 64 then Text.[] else Text.◌∷◌ c (before_at s)

first : ℕ → String → String
first zero s = Text.[]
first (suc n) Text.[] = Text.[]
first (suc n) (Text.◌∷◌ c s) = Text.◌∷◌ c (first n s)

abbrev or_user : String → String
or_user Text.[] = "user"
or_user (Text.◌∷◌ c s) = Text.◌∷◌ c s

unfoldable pub base_username : String → String
unfolding before_at first
base_username email = or_user (first 40 (before_at email))

-- The user name that the loop tries at a suffix.
unfoldable pub candidate : String → ℕ → String
candidate base zero = base
candidate base (suc n) = Text.◌++◌ base (decimal (suc n))

-- The `while` loop of `login_or_register_with_google`, on fuel.
unfoldable pub free_username : ℕ → String → ℕ → Table Account → Option String
free_username zero base suffix users = none
free_username (suc fuel) base suffix users =
    let next = free_username fuel base (suc suffix) users in
    if is_none (get_by_username (candidate base suffix) users)
    then some (candidate base suffix)
    else next

module _ (lower : String → String) (c : Crypto) where
  abbrev pub get_by_email : String → Table Account → Option (ℕ × Account)
  get_by_email email users = with_email (lower email) users

  abbrev pub registered : RegisterRequest → Account
  registered fields = record {
    email = lower fields.email;
    username = fields.username;
    hashed_password = some (c.hash_password fields.password);
    first_name = fields.first_name;
    last_name = fields.last_name;
    avatar = none;
    role = UserRole.customer;
    is_active = true;
    is_verified = false;
    last_login = none;
  }

  unfoldable pub register : ℕ → ℕ → ℕ → RegisterRequest → ℕ → Exec Session Account
  register id token_id token_hash fields now = do
    known ← gets (λ s. get_by_email fields.email s.working.users)
    raise_if (not (is_none known)) conflict
    taken ← gets (λ s. get_by_username fields.username s.working.users)
    raise_if (not (is_none taken)) conflict
    change (set_user id (registered fields))
    issue_email_verification token_id token_hash id now
    pure (registered fields)

  unfoldable pub authenticate : String → ℕ → ℕ → Exec Session (ℕ × Account)
  authenticate email password now = do
    (id, user) ← or_raise (← gets (λ s. get_by_email email s.working.users)) unauthorized
    raise_if (not (password_is c user.hashed_password password)) unauthorized
    raise_if (not user.is_active) unauthorized
    change (set_user id (record user { last_login = some now }))
    pure (id, record user { last_login = some now })

module _ (lower : String → String) where
  abbrev pub request_reset_of : Option (ℕ × Account) → ℕ → ℕ → ℕ → Exec Session (Unit {0})
  request_reset_of none token_id token_hash now = pure tt
  request_reset_of (some (id, user)) token_id token_hash now =
      issue_password_reset token_id token_hash id now

  unfoldable pub request_password_reset : ℕ → ℕ → String → ℕ → Exec Session (Unit {0})
  request_password_reset token_id token_hash email now = do
    found ← gets (λ s. with_email (lower email) s.working.users)
    request_reset_of found token_id token_hash now

  abbrev pub google_user : GoogleIdentity → String → ℕ → Account
  google_user identity username now = record {
    email = lower identity.email;
    username = username;
    hashed_password = none;
    first_name = identity.name;
    last_name = "";
    avatar = identity.picture;
    role = UserRole.customer;
    is_active = true;
    is_verified = identity.email_verified;
    last_login = some now;
  }

  abbrev pub add_oauth_account : ℕ → GoogleIdentity → Accounts → Accounts
  add_oauth_account user_id identity a = record a {
    oauth_accounts =
        record {
          user_id = user_id;
          provider = OAuthProvider.google;
          provider_user_id = identity.subject;
          email = identity.email;
        }
        ∷ a.oauth_accounts;
  }

  -- The part of `login_or_register_with_google` for an identity that no account is linked with.
  unfoldable pub register_with_google : ℕ → GoogleIdentity → ℕ → Exec Session (ℕ × Account)
  register_with_google id identity now = do
    existing_local ← gets (λ s. with_email (lower identity.email) s.working.users)
    raise_if (not (is_none existing_local)) conflict
    found ← gets (λ s.
        free_username (suc (length s.working.users)) (base_username identity.email) 0
          s.working.users)
    username ← or_raise found internal_error
    change (set_user id (google_user identity username now))
    change (add_oauth_account id identity)
    pure (id, google_user identity username now)

  abbrev pub login_or_register_from :
      Option (ℕ × Account) → ℕ → GoogleIdentity → ℕ → Exec Session (ℕ × Account)
  login_or_register_from none id identity now = register_with_google id identity now
  login_or_register_from (some (user_id, user)) id identity now = do
    change (set_user user_id (record user { last_login = some now }))
    pure (user_id, record user { last_login = some now })

  unfoldable pub login_or_register_with_google : ℕ → GoogleIdentity → ℕ → Exec Session (ℕ × Account)
  login_or_register_with_google id identity now = do
    existing_via_oauth ← gets (λ s. get_by_oauth identity.subject s.working)
    login_or_register_from existing_via_oauth id identity now

  unfoldable pub link_google_account : ℕ → Account → GoogleIdentity → Exec Session (Unit {0})
  link_google_account user_id user identity = do
    raise_if (not (same_text (lower identity.email) (lower user.email))) conflict
    existing ← gets (λ s. get_by_oauth identity.subject s.working)
    raise_if (not (is_none existing)) conflict
    change (add_oauth_account user_id identity)
