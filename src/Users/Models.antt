-- ===== src/Users/Models.antt =====
-- backend/app/modules/users/models.py: roles and users. Texts that the program only compares
-- (e-mail addresses, password hashes) are numbers.
use electronic_shop.Base.{ℕ, Bool}

pub data UserRole : Type 0 where
  customer support admin super_admin : UserRole

pub record User : Type 0 where
  pub id : ℕ
  pub role : UserRole
  pub is_active : Bool
