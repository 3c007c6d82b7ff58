-- ===== src/Auth/Accounts/Google.antt =====
-- `login_or_register_with_google` (modules/auth/service.py): what it does with each identity.
use electronic_shop.Base.{ℕ, String, ◌≡◌, ◌≢◌, ◌⊎◌, inl, inr, Option-cases, none, some, arith}
use electronic_shop.Base.Table.{insert}
use electronic_shop.Base.Exec.{ok, err, conflict}
use electronic_shop.Auth.Models.{Account, Accounts, Session}
use electronic_shop.Auth.Accounts.{
  with_email, get_by_username, get_by_oauth, register_with_google, login_or_register_with_google,
  google_user, add_oauth_account, base_username,
}
use electronic_shop.Integrations.GoogleOauth.{GoogleIdentity}
use electronic_shop.Auth.Accounts.Usernames.{username_found}

abbrev pub start : Accounts → Session
start a = record { working = a; committed = a }

-- The accounts with the row of one user written.
abbrev pub with_user : ℕ → Account → Accounts → Accounts
with_user id user a = record a { users = insert id user a.users }

module _ (lower : String → String) (id : ℕ) (identity : GoogleIdentity) (now : ℕ)
    (a : Accounts) where
  -- A linked identity logs its user in.
  abbrev pub IsLogin : Type 0
  IsLogin =
      (user_id : ℕ) × (user : Account) × (get_by_oauth identity.subject a ≡ some (user_id, user))
      × (login_or_register_with_google lower id identity now (start a) ≡ (
        ok (user_id, record user { last_login = some now }),
        record {
          working = with_user user_id (record user { last_login = some now }) a;
          committed = a;
        },
      ))

  -- An identity whose e-mail address is a user's is refused.
  abbrev pub IsRefusal : Type 0
  IsRefusal =
      (get_by_oauth identity.subject a ≡ none)
      × (with_email (lower identity.email) a.users ≢ none)
      × (login_or_register_with_google lower id identity now (start a) ≡ (err conflict, start a))

  -- Any other gets an account of its own.
  abbrev pub IsRegistration : Type 0
  IsRegistration =
      (username : String) × (get_by_oauth identity.subject a ≡ none)
      × (with_email (lower identity.email) a.users ≡ none)
      × (get_by_username username a.users ≡ none)
      × (login_or_register_with_google lower id identity now (start a) ≡ (
        ok (id, google_user lower identity username now),
        record {
          working =
              add_oauth_account lower id identity
                (with_user id (google_user lower identity username now) a);
          committed = a;
        },
      ))

  registration :
      get_by_oauth identity.subject a ≡ none
      → with_email (lower identity.email) a.users ≡ none
      → IsRegistration
  unfolding login_or_register_with_google register_with_google
  registration unlinked unknown =
      let (username, found, free) = username_found (base_username identity.email) a.users in
      (username, unlinked, unknown, free, ground arith)

  pub google_outcome : (IsLogin ⊎ IsRefusal) ⊎ IsRegistration
  unfolding login_or_register_with_google register_with_google
  google_outcome = elim (Option-cases (get_by_oauth identity.subject a)) [
    | inl unlinked ↦ elim (Option-cases (with_email (lower identity.email) a.users)) [
      | inl unknown ↦ inr (registration unlinked unknown)
      | inr (local, known) ↦ inl (inr (unlinked, ground arith, ground arith))
    ]
    | inr ((user_id, user), linked) ↦ inl (inl (user_id, user, linked, ground arith))
  ]
