-- ===== src/Common/Permissions/Roles.antt =====
-- The roles of security/permissions.py against each other.
use electronic_shop.Base.{ℕ, ◌≤◌, ◌≡◌, ◌↔◌, true, arith}
use electronic_shop.Users.Models.{UserRole}
use electronic_shop.Common.Permissions.{Permission, role_has_permission}

abbrev pub rank : UserRole → ℕ
rank UserRole.customer = 0
rank UserRole.support = 1
rank UserRole.admin = 2
rank UserRole.super_admin = 3

-- Each role has every permission of the roles below it, in the order customer, support, admin, super
-- admin, and only a super admin may manage roles.
pub permissions_increase :
    ((r s : UserRole) (p : Permission)
      → rank r ≤ rank s
      → role_has_permission r p ≡ true
      → role_has_permission s p ≡ true)
    × ((r : UserRole)
        → (role_has_permission r Permission.user_role_manage ≡ true) ↔ (r ≡ UserRole.super_admin))
unfolding role_has_permission
permissions_increase = (λ r s p le h. ground arith, λ r. (λ h. ground arith, λ h. ground arith))
