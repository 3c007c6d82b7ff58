-- ===== src/Shop/Guards.antt =====
-- The theorems on guards and on the administration of users at two users.
use text.Mathlib.TextLemmas.{cons-ne-nil}
use electronic_shop.Base.{
  ℕ, String, ◌≡◌, ◌↔◌, refl, true, false, none, some, List, [], ◌∷◌, arith, if◌then◌else◌, ◌==◌,
}
use electronic_shop.Base.Table.{lookup}
use electronic_shop.Base.Exec.{ok}
use electronic_shop.Users.Models.{UserRole}
use electronic_shop.Users.Admin.{Staff, AdminUserUpdate, update_user, patch_user}
use electronic_shop.Users.Admin.Updates.{updated, role_rows, update_user_outcome}
use electronic_shop.Users.Admin.Managers.{
  IsManaged, RoleRequest, any_quits, serve_all, managers_remain, admin_sets_roles,
}
use electronic_shop.Auth.Access.{
  Payload, Jwt, Headers, access_payload, token_of, require_permission,
}
use electronic_shop.Auth.Access.Granted.{IsCurrent, require_permission_granted}
use electronic_shop.Common.Permissions.{Permission, role_has_permission}
use electronic_shop.Common.Csrf.{
  generate_csrf_token, Method, csrf_protection_middleware, csrf_tokens_match, is_valid_csrf_token,
  split_dot, is_ascii,
}
use electronic_shop.Common.Csrf.Checked.{csrf_passed}
use electronic_shop.Shop.Members.{boss, ali, users}

-- A library that takes every token for the administrator's.
abbrev payload : Payload
payload = access_payload 15 1 UserRole.admin 6 0

abbrev jwt : Jwt
jwt = record { encode = λ p. "t"; decode = λ now token. some payload }

abbrev headers : Headers
headers = record { access_token = some "t"; authorization = none }

abbrev staff : Staff
staff = record { users = users; audit_logs = [] }

boss-IsCurrent : IsCurrent (λ (s : Staff). s.users) jwt 9 headers staff 1 boss
unfolding token_of
boss-IsCurrent = ("t", payload, refl, refl, refl, refl, refl, refl)

require_permission_granted_example :
    (require_permission (λ (s : Staff). s.users) Permission.user_manage jwt 9 headers staff
      ≡ (ok (1, boss), staff))
    ↔ (IsCurrent (λ (s : Staff). s.users) jwt 9 headers staff 1 boss
        × (role_has_permission boss.role Permission.user_manage ≡ true))
require_permission_granted_example =
    require_permission_granted (λ (s : Staff). s.users) Permission.user_manage jwt 9 headers staff 1
      boss

abbrev to_support : AdminUserUpdate
to_support = record { role = some UserRole.support; is_active = none }

update_user_outcome_example :
    ((update_user 2 to_support 1 staff).0 ≡ ok (updated to_support ali))
    × ((j : ℕ)
        → lookup j (update_user 2 to_support 1 staff).1.users
          ≡ (if j == 2 then some (updated to_support ali) else lookup j users))
    × ((update_user 2 to_support 1 staff).1.audit_logs ≡ role_rows 2 1 to_support ali)
update_user_outcome_example = update_user_outcome 2 1 to_support ali staff refl

managed : IsManaged users
unfolding role_has_permission
managed = (1, boss, refl, refl, refl)

abbrev role_requests : List RoleRequest
role_requests =
    (9, headers, 2, record { role = some UserRole.support; is_active = some false })
    ∷ (9, headers, 1, to_support)
    ∷ []

managers_remain_example : IsManaged (serve_all jwt role_requests staff).users
unfolding any_quits token_of
managers_remain_example = managers_remain jwt role_requests staff refl managed

admin_sets_roles_example :
    ((patch_user jwt 9 headers 2
        (record { role = some UserRole.super_admin; is_active = none })
        staff).0
      ≡ ok (record ali { role = UserRole.super_admin }))
    × (lookup 2
          (patch_user jwt 9 headers 2
            (record { role = some UserRole.super_admin; is_active = none })
            staff).1.users
        ≡ some (record ali { role = UserRole.super_admin }))
    × (role_has_permission boss.role Permission.user_role_manage ≡ false)
admin_sets_roles_example =
    admin_sets_roles jwt 9 headers 2 1 UserRole.super_admin boss ali staff boss-IsCurrent refl
      (λ e. omega (arith, e)) refl

-- A digest that is the nonce.
abbrev mac : String → String
mac nonce = nonce

abbrev sent : String
sent = "n.n"

csrf_passed_example :
    (some sent ≡ some sent) × ((nonce : String) × (sent ≡ generate_csrf_token mac nonce))
unfolding csrf_protection_middleware csrf_tokens_match is_valid_csrf_token split_dot is_ascii
csrf_passed_example = csrf_passed mac Method.post sent (some sent) refl (cons-ne-nil "n" ".n") refl
