-- ===== src/Users/Admin/Managers.antt =====
-- Sequences of the administration's requests on users (modules/users/router.py).
use electronic_shop.Base.{
  ℕ, ◌≡◌, ◌≢◌, inl, inr, refl, Bool, true, false, Bool-cases, Option-cases, none, some, List, [],
  ◌∷◌, ◌==◌, arith, String, Option, not, ◌||◌, if◌then◌else◌, get_or,
}
use electronic_shop.Base.Table.{Table, lookup}
use electronic_shop.Base.Exec.{Result-cases, ok, transaction, transaction_rule}
use electronic_shop.Users.Models.{UserRole}
use electronic_shop.Auth.Models.{Account}
use electronic_shop.Auth.Access.{Payload, Jwt, Headers, token_of, require_permission}
use electronic_shop.Auth.Access.Granted.{
  IsCurrent, require_permission_granted, require_permission_state,
}
use electronic_shop.Common.Permissions.{Permission, role_has_permission}
use electronic_shop.Users.Admin.{Staff, AdminUserUpdate, changes_role, update_user, patch_user}
use electronic_shop.Users.Admin.Updates.{updated, update_user_outcome, same_role}

abbrev pub is_manager : Account → Bool
is_manager user = role_has_permission user.role Permission.user_manage

-- Somebody who is active may manage the users.
abbrev pub IsManaged : Table Account → Type 0
IsManaged users =
    (id : ℕ) × (user : Account) × (lookup id users ≡ some user)
    × (is_manager user ≡ true)
    × (user.is_active ≡ true)

-- The update deactivates its user.
abbrev pub deactivates : Option Bool → Bool
deactivates none = false
deactivates (some is_active) = not is_active

update_missing :
    (id actor_id : ℕ) (fields : AdminUserUpdate) (s : Staff) {x : Account}
    → lookup id s.users ≡ none
    → (update_user id fields actor_id s).0 ≢ ok x
unfolding update_user
update_missing id actor_id fields s gone e = ground arith

stays_active :
    (given : Option Bool) (is_active : Bool)
    → deactivates given ≡ false
    → is_active ≡ true
    → get_or given is_active ≡ true
stays_active none is_active kept active = active
stays_active (some new) is_active kept active = ground arith

-- Whoever updates a user, unless they deactivate themselves, can still manage the users after it.
update_keeps_actor :
    (id actor_id : ℕ) (actor : Account) (fields : AdminUserUpdate) (s : Staff) {x : Account}
    → lookup actor_id s.users ≡ some actor
    → is_manager actor ≡ true
    → actor.is_active ≡ true
    → (id ≡ actor_id → deactivates fields.is_active ≡ false)
    → (update_user id fields actor_id s).0 ≡ ok x
    → IsManaged (update_user id fields actor_id s).1.users
update_keeps_actor id actor_id actor fields s there manager active spared e =
    elim (Option-cases (lookup id s.users)) [
      | inl gone ↦ absurd (update_missing id actor_id fields s gone e)
      | inr (user, found) ↦
          let (returned, users, rows) = update_user_outcome id actor_id fields user s found in
          elim (Bool-cases (id == actor_id)) [
            | inl same ↦
                let keeps : changes_role fields.role user.role ≡ false = ground arith in
                (
                  actor_id,
                  updated fields user,
                  ground (arith, users actor_id),
                  ground (arith, same_role fields.role user.role keeps),
                  stays_active fields.is_active user.is_active (spared (ground arith))
                      (ground arith),
                )
            | inr other ↦ (actor_id, actor, ground (arith, users actor_id), manager, active)
          ]
    ]

abbrev pub RoleRequest : Type 0
RoleRequest = ℕ × Headers × ℕ × AdminUserUpdate

-- The payload of the access token that the request sends.
abbrev pub sent_payload : Jwt → ℕ → Option String → Option Payload
sent_payload jwt now none = none
sent_payload jwt now (some token) = jwt.decode now token

abbrev pub names : Option Payload → ℕ → Bool
names none id = false
names (some payload) id = payload.sub == id

module _ (jwt : Jwt) where
  -- The request deactivates the user who sends it.
  abbrev pub quits : RoleRequest → Bool
  quits (now, headers, id, fields) =
      if names (sent_payload jwt now (token_of headers)) id
      then deactivates fields.is_active
      else false

  unfoldable pub any_quits : List RoleRequest → Bool
  any_quits [] = false
  any_quits (r ∷ rs) = quits r || any_quits rs

  abbrev pub serve : RoleRequest → Staff → Staff
  serve (now, headers, id, fields) s = (transaction (patch_user jwt now headers id fields) s).1

  unfoldable pub serve_all : List RoleRequest → Staff → Staff
  serve_all [] s = s
  serve_all (r ∷ rs) s = serve_all rs (serve r s)

  serve-IsManaged :
      (r : RoleRequest) (s : Staff)
      → quits r ≡ false
      → IsManaged s.users
      → IsManaged (serve r s).users
  unfolding patch_user
  serve-IsManaged (now, headers, id, fields) s kept h =
      transaction_rule (λ s'. IsManaged s'.users) (patch_user jwt now headers id fields) s h
        λ x e.
          elim (Result-cases
            (require_permission (λ u. u.users) Permission.user_manage jwt now headers s).0) [
              | inl (y, refused) ↦ absurd (ground arith)
              | inr ((actor_id, actor), passed) ↦
                  let same =
                    require_permission_state (λ u. u.users) Permission.user_manage jwt now headers
                      s in
                  let through : require_permission (λ u. u.users) Permission.user_manage jwt now
                        headers s
                      ≡ (ok (actor_id, actor), s) =
                    ground arith in
                  let (current, manager) =
                    (require_permission_granted (λ u. u.users) Permission.user_manage jwt now
                        headers s actor_id actor).0
                      through in
                  let after : patch_user jwt now headers id fields s
                      ≡ update_user id fields actor_id s =
                    ground arith in
                  let (token, payload, sent, decoded, access, sub, there, active) = current in
                  let returned : (update_user id fields actor_id s).0 ≡ ok x = ground arith in
                  rw after (
                    update_keeps_actor id actor_id actor fields s there manager active
                      (λ own. ground arith) returned)
            ]

-- From users of whom an active one may manage the users, any sequence of requests to update users, by
-- whomever, none of which deactivates the user whose token it sends, leads to users of whom an
-- active one may manage the users.
pub managers_remain :
    (jwt : Jwt) (rs : List RoleRequest) (s : Staff)
    → any_quits jwt rs ≡ false
    → IsManaged s.users
    → IsManaged (serve_all jwt rs s).users
unfolding serve_all any_quits
managers_remain jwt [] s kept h = h
managers_remain jwt (r ∷ rs) s kept h =
    managers_remain jwt rs (serve jwt r s) (ground arith) (serve-IsManaged jwt r s (ground arith) h)

admin_lacks_role_manage :
    (r : UserRole)
    → r ≡ UserRole.admin
    → (role_has_permission r Permission.user_manage ≡ true)
      × (role_has_permission r Permission.user_role_manage ≡ false)
unfolding role_has_permission
admin_lacks_role_manage r h = rw h (refl, refl)

-- An active administrator, who does not have the permission to manage roles, sets the role of any other
-- user to any role, that of a super administrator included: the request returns the user with it, and
-- it is the stored user's role afterwards.
pub admin_sets_roles :
    (jwt : Jwt) (now : ℕ) (headers : Headers) (id actor_id : ℕ) (new : UserRole)
    (actor user : Account) (s : Staff)
    → IsCurrent (λ u. u.users) jwt now headers s actor_id actor
    → actor.role ≡ UserRole.admin
    → id ≢ actor_id
    → lookup id s.users ≡ some user
    → ((patch_user jwt now headers id (record { role = some new; is_active = none }) s).0
        ≡ ok (record user { role = new }))
      × (lookup id
            (patch_user jwt now headers id (record { role = some new; is_active = none }) s).1.users
          ≡ some (record user { role = new }))
      × (role_has_permission actor.role Permission.user_role_manage ≡ false)
unfolding patch_user
admin_sets_roles jwt now headers id actor_id new actor user s current admin other found =
    let (manages, lacks) = admin_lacks_role_manage actor.role admin in
    let fields : AdminUserUpdate = record { role = some new; is_active = none } in
    let through =
      (require_permission_granted (λ u. u.users) Permission.user_manage jwt now headers s actor_id
          actor).1
        (current, manages) in
    let (returned, users, rows) = update_user_outcome id actor_id fields user s found in
    (ground arith, ground (arith, users id), lacks)
