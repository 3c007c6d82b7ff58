-- ===== src/Users/Admin/Updates.antt =====
-- What the administration's update of a user (modules/users/admin_service.py) writes, and whom it leaves.
use electronic_shop.Base.{
  ℕ, ◌≡◌, ◌≢◌, ◌⊎◌, inl, inr, refl, sym, Bool, true, false, Bool-cases, Option, none, some, List,
  [], ◌∷◌, ◌++◌, ◌==◌, if◌then◌else◌, get_or, arith,
}
use electronic_shop.Base.Table.{lookup, insert, lookup-insert}
use electronic_shop.Base.Exec.{Result, ok, err, conflict}
use electronic_shop.Users.Models.{UserRole}
use electronic_shop.Auth.Models.{Account}
use electronic_shop.Users.Admin.{
  AuditLog, Staff, AdminUserUpdate, rank, changes_role, changes_active, update_user,
}

-- The user after an update.
abbrev pub updated : AdminUserUpdate → Account → Account
updated fields user = record user {
  role = get_or fields.role user.role;
  is_active = get_or fields.is_active user.is_active;
}

-- The audit rows of an update: of a changed role with both roles, and of a changed activity.
abbrev pub role_rows : ℕ → ℕ → AdminUserUpdate → Account → List AuditLog
role_rows id actor_id fields user =
    if changes_role fields.role user.role
    then record {
      actor_id = some actor_id;
      action = "user.role_changed";
      resource_type = "user";
      resource_id = some id;
      audit_metadata = some (user.role, get_or fields.role user.role);
    }
      ∷ []
    else []

abbrev pub active_rows : ℕ → ℕ → AdminUserUpdate → Account → List AuditLog
active_rows id actor_id fields user =
    if changes_active fields.is_active user.is_active
    then record {
      actor_id = some actor_id;
      action =
          if get_or fields.is_active user.is_active then "user.activated" else "user.deactivated";
      resource_type = "user";
      resource_id = some id;
      audit_metadata = none;
    }
      ∷ []
    else []

rank_injective : (r q : UserRole) → rank r ≡ rank q → r ≡ q
rank_injective r q e = ground arith

-- An update by the user themself that would change their role is refused with a conflict, and nothing
-- is changed.
own_role_refused :
    (id : ℕ) (fields : AdminUserUpdate) (user : Account) (s : Staff)
    → lookup id s.users ≡ some user
    → changes_role fields.role user.role ≡ true
    → update_user id fields id s ≡ (err conflict, s)
unfolding update_user
own_role_refused id fields user s found changes = ground arith

pub same_role :
    (new : Option UserRole) (role : UserRole)
    → changes_role new role ≡ false
    → get_or new role ≡ role
same_role none role h = refl
same_role (some new) role h = rank_injective new role (ground arith)

same_active :
    (new : Option Bool) (active : Bool)
    → changes_active new active ≡ false
    → get_or new active ≡ active
same_active none active h = refl
same_active (some new) active h = ground arith

module _ (id actor_id : ℕ) (fields : AdminUserUpdate) (user : Account) (s : Staff) where
  -- The outcome of an update that is granted.
  abbrev pub IsApplied : Type 0
  IsApplied =
      ((update_user id fields actor_id s).0 ≡ ok (updated fields user))
      × ((j : ℕ)
          → lookup j (update_user id fields actor_id s).1.users
            ≡ (if j == id then some (updated fields user) else lookup j s.users))
      × ((update_user id fields actor_id s).1.audit_logs
          ≡ active_rows id actor_id fields user
            ++ role_rows id actor_id fields user
            ++ s.audit_logs)

  abbrev result : Result Account × Staff
  result = update_user id fields actor_id s

  abbrev new : Account
  new = updated fields user

  abbrev renamed : Account
  renamed = record user { role = get_or fields.role user.role }

  users_once :
      result.1.users ≡ insert id new s.users
      → (j : ℕ) → lookup j result.1.users ≡ (if j == id then some new else lookup j s.users)
  users_once e j = rw e (lookup-insert id j new s.users)

  users_twice :
      result.1.users ≡ insert id new (insert id renamed s.users)
      → (j : ℕ) → lookup j result.1.users ≡ (if j == id then some new else lookup j s.users)
  users_twice e j =
      rw (e, lookup-insert id j new (insert id renamed s.users), lookup-insert id j renamed s.users)
        (ground arith)

  update_applies :
      lookup id s.users ≡ some user
      → (id ≢ actor_id) ⊎ (changes_role fields.role user.role ≡ false)
      → IsApplied
  unfolding update_user
  update_applies found granted =
      let role = same_role fields.role user.role in
      let active = same_active fields.is_active user.is_active in
      elim (Bool-cases (changes_role fields.role user.role)) [
        | inl r ↦ elim (Bool-cases (changes_active fields.is_active user.is_active)) [
          | inl t ↦ (ground arith, users_twice (ground arith), rw (r, t) (ground arith))
          | inr t ↦ (ground arith, users_once (ground arith), rw (r, t) (ground arith))
        ]
        | inr r ↦ elim (Bool-cases (changes_active fields.is_active user.is_active)) [
          | inl t ↦ (ground arith, users_once (ground arith), rw (r, t) (ground arith))
          | inr t ↦ (ground arith, λ j. ground arith, rw (r, t) (ground arith))
        ]
      ]

-- The update would change the actor's own role.
abbrev pub is_own : ℕ → ℕ → AdminUserUpdate → Account → Bool
is_own id actor_id fields user =
    if id == actor_id then changes_role fields.role user.role else false

other_granted :
    (id actor_id : ℕ) (fields : AdminUserUpdate) (user : Account)
    → is_own id actor_id fields user ≡ false
    → (id ≢ actor_id) ⊎ (changes_role fields.role user.role ≡ false)
other_granted id actor_id fields user other = elim (Bool-cases (id == actor_id)) [
  | inl same ↦ inr (ground arith)
  | inr apart ↦ inl (λ e. ground arith)
]

-- An update, by an actor, of a user who is there is refused with a conflict, and nothing is changed, if
-- it would change the actor's own role. Any other returns the user with the given role and activity,
-- writes them, keeps what is not given and every other user, and writes one audit row for a role that
-- changes, with both roles, and one for an activity that changes.
pub update_user_outcome :
    (id actor_id : ℕ) (fields : AdminUserUpdate) (user : Account) (s : Staff)
    → lookup id s.users ≡ some user
    → ((update_user id fields actor_id s).0
        ≡ (if is_own id actor_id fields user then err conflict else ok (updated fields user)))
      × ((j : ℕ)
          → lookup j (update_user id fields actor_id s).1.users ≡ (
              if is_own id actor_id fields user
              then lookup j s.users
              else if j == id
              then some (updated fields user)
              else lookup j s.users))
      × ((update_user id fields actor_id s).1.audit_logs ≡ (
          if is_own id actor_id fields user
          then s.audit_logs
          else active_rows id actor_id fields user
            ++ role_rows id actor_id fields user
            ++ s.audit_logs))
update_user_outcome id actor_id fields user s found =
    elim (Bool-cases (is_own id actor_id fields user)) [
      | inl own ↦
          let same : id ≡ actor_id = ground arith in
          let refused : update_user id fields actor_id s ≡ (err conflict, s) =
            rw (sym same) (own_role_refused id fields user s found (ground arith)) in
          rw (own, refused) (refl, λ j. refl, refl)
      | inr other ↦
          let (returned, users, rows) =
            update_applies id actor_id fields user s found
              (other_granted id actor_id fields user other) in
          rw other (returned, users, rows)
    ]
