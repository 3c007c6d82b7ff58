-- ===== src/Auth/Access/Granted.antt =====
-- Whom `require_permission` (modules/auth/dependencies.py) lets through.
use Prim.Native.String as Text
use electronic_shop.Base.{
  ℕ, ◌≡◌, ◌≢◌, ◌↔◌, refl, String, true, Option, Option-cases, none, some, same_text-eq, arith, inl,
  inr,
}
use electronic_shop.Base.Table.{Table, lookup}
use electronic_shop.Base.Exec.{Result-cases, ok}
use electronic_shop.Users.Models.{UserRole}
use electronic_shop.Auth.Models.{Account}
use electronic_shop.Common.Permissions.{Permission, role_has_permission}
use electronic_shop.Auth.Access.{
  Payload, Jwt, Headers, access_payload, create_access_token, checked, decode_access_token,
  token_of, get_current_user, require_permission, nonempty,
}

nonempty_lem : (t : String) → t ≢ Text.[] → nonempty (some t) ≡ some t
nonempty_lem Text.[] h = absurd (h refl)
nonempty_lem (Text.◌∷◌ c s) h = refl

checked_lem :
    (p : Option Payload) (payload : Payload)
    → (checked p ≡ some payload) ↔ ((p ≡ some payload) × (payload.type ≡ "access"))
checked_lem none payload = ground arith
checked_lem (some q) payload = ground (arith, same_text-eq q.type "access")

module _ {S : Type 0} (users_of : S → Table Account) (jwt : Jwt) (now : ℕ) (headers : Headers)
    (s : S) where
  -- The access token of the request names an active user.
  abbrev pub IsCurrent : ℕ → Account → Type 0
  IsCurrent id user =
      (token : String) × (payload : Payload) × (token_of headers ≡ some token)
      × (jwt.decode now token ≡ some payload)
      × (payload.type ≡ "access")
      × (payload.sub ≡ id)
      × (lookup id (users_of s) ≡ some user)
      × (user.is_active ≡ true)

  current_from :
      (id : ℕ) (user : Account)
      → IsCurrent id user
      → get_current_user users_of jwt now headers s ≡ (ok (id, user), s)
  unfolding get_current_user decode_access_token
  current_from id user (token, payload, sent, decoded, access, sub, found, active) =
      let fits = checked_lem (jwt.decode now token) payload in ground arith

  get_current_user_parts :
      (id : ℕ) (user : Account)
      → (get_current_user users_of jwt now headers s).0 ≡ ok (id, user)
      → IsCurrent id user
  unfolding get_current_user decode_access_token
  get_current_user_parts id user h = elim (Option-cases (token_of headers)) [
    | inl none_sent ↦ absurd (ground arith)
    | inr (token, sent) ↦ elim (Option-cases (checked (jwt.decode now token))) [
      | inl refused ↦ absurd (ground arith)
      | inr (payload, accepted) ↦
          let (decoded, access) = (checked_lem (jwt.decode now token) payload).0 accepted in
          elim (Option-cases (lookup payload.sub (users_of s))) [
            | inl missing ↦ absurd (ground arith)
            | inr (row, found) ↦
                (token, payload, sent, decoded, access, ground arith, ground arith, ground arith)
          ]
    ]
  ]

-- A guard writes nothing.
pub require_permission_state :
    {S : Type 0} (users_of : S → Table Account) (permission : Permission) (jwt : Jwt) (now : ℕ)
    (headers : Headers) (s : S)
    → (require_permission users_of permission jwt now headers s).1 ≡ s
unfolding require_permission get_current_user
require_permission_state users_of permission jwt now headers s =
    elim (Option-cases (token_of headers)) [
      | inl none_sent ↦ ground arith
      | inr (token, sent) ↦ elim (Option-cases (decode_access_token jwt now token)) [
        | inl refused ↦ ground arith
        | inr (payload, accepted) ↦ elim (Option-cases (lookup payload.sub (users_of s))) [
          | inl missing ↦ ground arith
          | inr (row, found) ↦ ground arith
        ]
      ]
    ]

-- A guarded route goes on for a user, with nothing changed, if and only if the request sent an access
-- token that the library decodes now, of the type for access, that names an identifier which is this
-- active user's in the table, and the role in the table, not the one in the token, has the permission.
pub require_permission_granted :
    {S : Type 0} (users_of : S → Table Account) (permission : Permission) (jwt : Jwt) (now : ℕ)
    (headers : Headers) (s : S) (id : ℕ) (user : Account)
    → (require_permission users_of permission jwt now headers s ≡ (ok (id, user), s)) ↔ (
        IsCurrent users_of jwt now headers s id user
        × (role_has_permission user.role permission ≡ true))
unfolding require_permission
require_permission_granted users_of permission jwt now headers s id user = (
  λ h. elim (Result-cases (get_current_user users_of jwt now headers s).0) [
    | inl (x, refused) ↦ absurd (ground arith)
    | inr ((i, u), current) ↦
        let same : (get_current_user users_of jwt now headers s).0 ≡ ok (id, user) = ground arith in
        (get_current_user_parts users_of jwt now headers s id user same, ground arith)
  ],
  λ (current, allowed).
      let e = current_from users_of jwt now headers s id user current in ground arith,
)

-- A token that was made for a user, sent as the request's cookie while the library decodes it to what
-- was encoded, gets the request through as that user, as long as the user is there and active.
pub current-create_access_token :
    {S : Type 0} (users_of : S → Table Account) (jwt : Jwt) (minutes id jti made now : ℕ)
    (role : UserRole) (authorization : Option String) (s : S) (user : Account)
    → create_access_token jwt minutes id role jti made ≢ Text.[]
    → jwt.decode now (create_access_token jwt minutes id role jti made)
      ≡ some (access_payload minutes id role jti made)
    → lookup id (users_of s) ≡ some user
    → user.is_active ≡ true
    → get_current_user users_of jwt now
        (record {
          access_token = some (create_access_token jwt minutes id role jti made);
          authorization = authorization;
        })
        s
      ≡ (ok (id, user), s)
unfolding token_of
current-create_access_token users_of jwt minutes id jti made now role authorization s user full
      decoded found active =
    let token = create_access_token jwt minutes id role jti made in
    let headers : Headers = record { access_token = some token; authorization = authorization } in
    let sent : token_of headers ≡ some token = rw (nonempty_lem token full) refl in
    current_from users_of jwt now headers s id user
      (token, access_payload minutes id role jti made, sent, decoded, refl, refl, found, active)
