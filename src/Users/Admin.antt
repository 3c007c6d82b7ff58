-- ===== src/Users/Admin.antt =====
-- backend/app/modules/users/admin_service.py, class UsersAdminService, with the guarded route of
-- router.py, and the audit rows of modules/audit/service.py that it writes.
pub mod Updates
pub mod Managers
use electronic_shop.Base.{
  ℕ, String, Bool, true, false, not, Option, none, some, List, [], ◌∷◌, ◌==◌, if◌then◌else◌,
  same_bool,
}
use electronic_shop.Base.Table.{Table, lookup, insert}
use electronic_shop.Base.Exec.{
  Exec, conflict, not_found, pure, gets, or_raise, raise_if, modify, when, ◌>>=◌, ◌>>◌,
}
use electronic_shop.Users.Models.{UserRole}
use electronic_shop.Auth.Models.{Account}
use electronic_shop.Auth.Access.{Jwt, Headers, require_permission}
use electronic_shop.Common.Permissions.{Permission}

pub record AuditLog : Type 0 where
  pub actor_id : Option ℕ
  pub action : String
  pub resource_type : String
  pub resource_id : Option ℕ
  pub audit_metadata : Option (UserRole × UserRole)

-- The newest audit row comes first.
pub record Staff : Type 0 where
  pub users : Table Account
  pub audit_logs : List AuditLog

pub record AdminUserUpdate : Type 0 where
  pub role : Option UserRole
  pub is_active : Option Bool

abbrev pub write_audit_log :
    Option ℕ → String → String → Option ℕ → Option (UserRole × UserRole) → Exec Staff (Unit {0})
write_audit_log actor_id action resource_type resource_id metadata = modify λ s. record s {
  audit_logs =
      record {
        actor_id = actor_id;
        action = action;
        resource_type = resource_type;
        resource_id = resource_id;
        audit_metadata = metadata;
      }
      ∷ s.audit_logs;
}

abbrev pub rank : UserRole → ℕ
rank UserRole.customer = 0
rank UserRole.support = 1
rank UserRole.admin = 2
rank UserRole.super_admin = 3

-- `data.role is not None and data.role != user.role`
abbrev pub changes_role : Option UserRole → UserRole → Bool
changes_role none role = false
changes_role (some new) role = not (rank new == rank role)

abbrev pub changes_active : Option Bool → Bool → Bool
changes_active none active = false
changes_active (some new) active = not (same_bool new active)

abbrev pub get_user : ℕ → Exec Staff Account
get_user id = do or_raise (← gets (λ s. lookup id s.users)) not_found

abbrev pub set_user : ℕ → Account → Exec Staff (Unit {0})
set_user id user = modify (λ s. record s { users = insert id user s.users })

-- The first `if` of `update_user`: the user with the role changed.
abbrev pub update_role : ℕ → Account → Option UserRole → ℕ → Exec Staff Account
update_role id user none actor_id = pure user
update_role id user (some role) actor_id = elim (changes_role (some role) user.role) [
  | false ↦ pure user
  | true ↦ do
    raise_if (id == actor_id) conflict
    write_audit_log (some actor_id) "user.role_changed" "user" (some id) (some (user.role, role))
    set_user id (record user { role = role })
    pure (record user { role = role })
]

-- The second one: the user with the activity changed.
abbrev pub update_active : ℕ → Account → Option Bool → ℕ → Exec Staff Account
update_active id user none actor_id = pure user
update_active id user (some is_active) actor_id =
    elim (changes_active (some is_active) user.is_active) [
      | false ↦ pure user
      | true ↦ do
        write_audit_log (some actor_id) (if is_active then "user.activated" else "user.deactivated")
            "user" (some id) none
        set_user id (record user { is_active = is_active })
        pure (record user { is_active = is_active })
    ]

unfoldable pub update_user : ℕ → AdminUserUpdate → ℕ → Exec Staff Account
update_user id fields actor_id = do
  user ← get_user id
  renamed ← update_role id user fields.role actor_id
  update_active id renamed fields.is_active actor_id

-- `PATCH /admin/users/{user_id}`
unfoldable pub patch_user : Jwt → ℕ → Headers → ℕ → AdminUserUpdate → Exec Staff Account
patch_user jwt now headers id fields = do
  (actor_id, actor) ← require_permission (λ s. s.users) Permission.user_manage jwt now headers
  update_user id fields actor_id
