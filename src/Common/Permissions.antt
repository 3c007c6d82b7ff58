-- ===== src/Common/Permissions.antt =====
-- backend/app/security/permissions.py: the permissions of the roles. A permission's text is its
-- constructor, with `_` for a dot; the union of two sets is the concatenation of their lists.
pub mod Roles
use electronic_shop.Base.{ℕ, Bool, List, [], ◌∷◌, ◌++◌, contains}
use electronic_shop.Base.Exec.{Exec, permission_denied, raise_if, ◌>>◌, pure}
use electronic_shop.Users.Models.{UserRole, User}

pub data Permission : Type 0 where
  product_read category_read order_read_own order_create_own wallet_read_own : Permission
  ticket_read_own ticket_create_own : Permission
  ticket_read ticket_respond ticket_manage order_read user_read : Permission
  product_create product_update product_delete category_manage order_manage : Permission
  user_manage wallet_manage payment_read payment_manage report_read audit_read : Permission
  user_role_manage : Permission

-- The texts, numbered to be compared.
abbrev pub number : Permission → ℕ
number Permission.product_read = 0
number Permission.category_read = 1
number Permission.order_read_own = 2
number Permission.order_create_own = 3
number Permission.wallet_read_own = 4
number Permission.ticket_read_own = 5
number Permission.ticket_create_own = 6
number Permission.ticket_read = 7
number Permission.ticket_respond = 8
number Permission.ticket_manage = 9
number Permission.order_read = 10
number Permission.user_read = 11
number Permission.product_create = 12
number Permission.product_update = 13
number Permission.product_delete = 14
number Permission.category_manage = 15
number Permission.order_manage = 16
number Permission.user_manage = 17
number Permission.wallet_manage = 18
number Permission.payment_read = 19
number Permission.payment_manage = 20
number Permission.report_read = 21
number Permission.audit_read = 22
number Permission.user_role_manage = 23

abbrev pub numbers : List Permission → List ℕ
numbers [] = []
numbers (p ∷ ps) = number p ∷ numbers ps

abbrev pub customer_permissions : List Permission
customer_permissions =
    Permission.product_read ∷ Permission.category_read ∷ Permission.order_read_own
    ∷ Permission.order_create_own ∷ Permission.wallet_read_own ∷ Permission.ticket_read_own
    ∷ Permission.ticket_create_own ∷ []

abbrev pub support_permissions : List Permission
support_permissions =
    customer_permissions
    ++ Permission.ticket_read ∷ Permission.ticket_respond ∷ Permission.ticket_manage
      ∷ Permission.order_read ∷ Permission.user_read ∷ []

abbrev pub admin_permissions : List Permission
admin_permissions =
    support_permissions
    ++ Permission.product_create ∷ Permission.product_update ∷ Permission.product_delete
      ∷ Permission.category_manage ∷ Permission.order_manage ∷ Permission.user_manage
      ∷ Permission.wallet_manage ∷ Permission.payment_read ∷ Permission.payment_manage
      ∷ Permission.report_read ∷ Permission.audit_read ∷ []

abbrev pub super_admin_permissions : List Permission
super_admin_permissions = admin_permissions ++ Permission.user_role_manage ∷ []

abbrev pub role_permissions : UserRole → List Permission
role_permissions UserRole.customer = customer_permissions
role_permissions UserRole.support = support_permissions
role_permissions UserRole.admin = admin_permissions
role_permissions UserRole.super_admin = super_admin_permissions

unfoldable pub role_has_permission : UserRole → Permission → Bool
role_has_permission role permission = contains (number permission) (numbers (role_permissions role))
