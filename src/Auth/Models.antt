-- ===== src/Auth/Models.antt =====
-- The rows of backend/app/modules/users/models.py that the authentication works on. Passwords and
-- the hashes of tokens and passwords are only compared, and are numbers; `user_agent` and `ip_address` of a token are
-- left out, since they are stored only.
use electronic_shop.Base.{ℕ, String, Bool, Option, List}
use electronic_shop.Base.Table.{Table}
use electronic_shop.Users.Models.{UserRole}

pub data OAuthProvider : Type 0 where
  google : OAuthProvider

pub record Account : Type 0 where
  pub email : String
  pub username : String
  pub hashed_password : Option ℕ
  pub first_name : String
  pub last_name : String
  pub avatar : Option String
  pub role : UserRole
  pub is_active : Bool
  pub is_verified : Bool
  pub last_login : Option ℕ

pub record OAuthAccount : Type 0 where
  pub user_id : ℕ
  pub provider : OAuthProvider
  pub provider_user_id : String
  pub email : String

pub record RefreshToken : Type 0 where
  pub user_id : ℕ
  pub token_hash : ℕ
  pub family_id : ℕ
  pub replaced_by_id : Option ℕ
  pub revoked_at : Option ℕ
  pub expires_at : ℕ
  pub created_at : ℕ

-- A password reset token or an e-mail verification token.
pub record OneTimeToken : Type 0 where
  pub user_id : ℕ
  pub token_hash : ℕ
  pub expires_at : ℕ
  pub used_at : Option ℕ
  pub created_at : ℕ

pub record Accounts : Type 0 where
  pub users : Table Account
  pub oauth_accounts : List OAuthAccount
  pub refresh_tokens : Table RefreshToken
  pub password_resets : Table OneTimeToken
  pub email_verifications : Table OneTimeToken

-- A session that can commit on its own: what it sees, and what stays if its request raises.
pub record Session : Type 0 where
  pub working : Accounts
  pub committed : Accounts
