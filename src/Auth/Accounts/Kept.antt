-- ===== src/Auth/Accounts/Kept.antt =====
-- What each method of modules/auth/service.py that makes, links or uses accounts keeps.
use electronic_shop.Base.{
  ℕ, String, ◌≡◌, ◌≢◌, refl, inl, inr, Option-cases, none, some, List, arith,
}
use electronic_shop.Base.Table.{Table, lookup, insert, lookup-insert_self}
use electronic_shop.Base.Exec.{Exec, Result-cases, AppError, ok, err}
use electronic_shop.Auth.Models.{Account, OAuthAccount, Accounts, Session}
use electronic_shop.Auth.Service.{Crypto, request}
use electronic_shop.Auth.Accounts.{
  with_email, linked_account, get_by_oauth, RegisterRequest, register, authenticate,
  request_password_reset, login_or_register_with_google, link_google_account, registered,
  google_user, add_oauth_account,
}
use electronic_shop.Integrations.GoogleOauth.{GoogleIdentity}
use electronic_shop.Auth.Accounts.Google.{start, google_outcome}
use electronic_shop.Auth.Accounts.Unique.{
  IsUnique, IsLinked, IsSound, insert_new-IsUnique, insert_same-IsUnique, insert-IsLinked,
  with_email-some, linked_account-some,
}

-- A method that does not commit, and that keeps a property where it returns.
request_rule :
    {A : Type 0} (P : Accounts → Type 0) (m : Exec Session A) (a : Accounts)
    → P a
    → (m (start a)).1.committed ≡ a
    → ((x : A) → (m (start a)).0 ≡ ok x → P (m (start a)).1.working)
    → P (request m a).1
unfolding request
request_rule P m a h stays k = elim (Result-cases (m (start a)).0) [
  | inl (x, e) ↦ rw (e, request) (rw stays h)
  | inr (x, e) ↦ rw (e, request) (k x e)
]

-- A method that is known to return, and one that is known to raise before it commits.
request_at :
    {A : Type 0} (P : Accounts → Type 0) (m : Exec Session A) (a : Accounts) {x : A} {b : Accounts}
    → m (start a) ≡ (ok x, record { working = b; committed = a })
    → P b
    → P (request m a).1
unfolding request
request_at P m a {b} e p = let after : (request m a).1 ≡ b = ground arith in rw after p

request_refused :
    {A : Type 0} (P : Accounts → Type 0) (m : Exec Session A) (a : Accounts) {x : AppError}
    → m (start a) ≡ (err x, start a)
    → P a
    → P (request m a).1
unfolding request
request_refused P m a e p = let after : (request m a).1 ≡ a = ground arith in rw after p

working-IsSound :
    (a b : Accounts) (users : Table Account) (accounts : List OAuthAccount)
    → b.users ≡ users
    → b.oauth_accounts ≡ accounts
    → IsUnique users
    → IsLinked users accounts
    → IsSound b
working-IsSound a b users accounts e f u l = rw (e, f) (u, l)

module _ (lower : String → String) (c : Crypto) (a : Accounts) (h : IsSound a) where
  pub register-IsSound :
      (id token_id token_hash : ℕ) (fields : RegisterRequest) (now : ℕ)
      → IsSound (request (register lower c id token_id token_hash fields now) a).1
  unfolding register
  register-IsSound id token_id token_hash fields now =
      let m = register lower c id token_id token_hash fields now in
      let user = registered lower c fields in
      request_rule IsSound m a h (ground arith) λ x e.
        working-IsSound a (m (start a)).1.working (insert id user a.users) a.oauth_accounts
          (ground arith) (ground arith)
          (insert_new-IsUnique a.users h.0 id user (ground arith) (ground arith))
          (insert-IsLinked a.users id user a.oauth_accounts h.1)

  pub authenticate-IsSound :
      (email : String) (password now : ℕ)
      → IsSound (request (authenticate lower c email password now) a).1
  unfolding authenticate
  authenticate-IsSound email password now =
      let m = authenticate lower c email password now in
      request_rule IsSound m a h (ground arith) λ (id, user) e.
        elim (Option-cases (with_email (lower email) a.users)) [
          | inl none_found ↦ absurd (ground arith)
          | inr ((j, old), found) ↦
              let (there, same) = with_email-some (lower email) a.users j old h.0.keyed found in
              let seen = record old { last_login = some now } in
              working-IsSound a (m (start a)).1.working (insert j seen a.users) a.oauth_accounts
                (ground arith) (ground arith)
                (insert_same-IsUnique a.users h.0 j seen old there refl refl)
                (insert-IsLinked a.users j seen a.oauth_accounts h.1)
        ]

  pub request_password_reset-IsSound :
      (token_id token_hash : ℕ) (email : String) (now : ℕ)
      → IsSound (request (request_password_reset lower token_id token_hash email now) a).1
  unfolding request_password_reset
  request_password_reset-IsSound token_id token_hash email now =
      let m = request_password_reset lower token_id token_hash email now in
      request_rule IsSound m a h (ground arith) λ x e.
        working-IsSound a (m (start a)).1.working a.users a.oauth_accounts (ground arith)
          (ground arith) h.0 h.1

  linked_account-none :
      (subject : String)
      → get_by_oauth subject a ≡ none
      → linked_account subject a.oauth_accounts ≡ none
  linked_account-none subject e = elim (Option-cases (linked_account subject a.oauth_accounts)) [
    | inl free ↦ free
    | inr (account, found) ↦
        absurd
          (linked_account-some a.users subject a.oauth_accounts account h.1 found (ground arith))
  ]

  link_google_account_parts :
      (user_id : ℕ) (user : Account) (identity : GoogleIdentity) {x : Unit {0}}
      → (link_google_account lower user_id user identity (start a)).0 ≡ ok x
      → (linked_account identity.subject a.oauth_accounts ≡ none)
        × ((link_google_account lower user_id user identity (start a)).1.working
            ≡ add_oauth_account lower user_id identity a)
  unfolding link_google_account
  link_google_account_parts user_id user identity e =
      (linked_account-none identity.subject (ground arith), ground arith)

  pub link_google_account-IsSound :
      (user_id : ℕ) (user : Account) (identity : GoogleIdentity)
      → lookup user_id a.users ≢ none
      → IsSound (request (link_google_account lower user_id user identity) a).1
  unfolding link_google_account
  link_google_account-IsSound user_id user identity there =
      let m = link_google_account lower user_id user identity in
      request_rule IsSound m a h (ground arith) λ x e.
        let (unlinked, after) = link_google_account_parts user_id user identity e in
        rw after (h.0, (unlinked, there, h.1))

  get_by_oauth-some :
      (subject : String) (id : ℕ) (user : Account)
      → get_by_oauth subject a ≡ some (id, user)
      → lookup id a.users ≡ some user
  get_by_oauth-some subject id user e = ground arith

  pub login_or_register_with_google-IsSound :
      (id : ℕ) (identity : GoogleIdentity) (now : ℕ)
      → IsSound (request (login_or_register_with_google lower id identity now) a).1
  login_or_register_with_google-IsSound id identity now =
      let m = login_or_register_with_google lower id identity now in
      elim (google_outcome lower id identity now a) [
        | inl (inl (user_id, old, found, e)) ↦
            let seen = record old { last_login = some now } in
            request_at IsSound m a e (
              insert_same-IsUnique a.users h.0 user_id seen old
                  (get_by_oauth-some identity.subject user_id old found) refl refl,
              insert-IsLinked a.users user_id seen a.oauth_accounts h.1,
            )
        | inl (inr (unlinked, known, e)) ↦ request_refused IsSound m a e h
        | inr (username, unlinked, unknown, free, e) ↦
            let user = google_user lower identity username now in
            request_at IsSound m a e (
              insert_new-IsUnique a.users h.0 id user unknown free,
              (
                linked_account-none identity.subject unlinked,
                (λ gone. ground (arith, lookup-insert_self id user a.users)),
                insert-IsLinked a.users id user a.oauth_accounts h.1,
              ),
            )
      ]
