-- ===== src/Auth/Accounts/Unique.antt =====
-- Which accounts the methods of modules/auth/service.py let exist beside each other.
use electronic_shop.Base.{
  ℕ, String, ◌≡◌, ◌≢◌, inl, inr, Bool-cases, none, some, List, [], ◌∷◌, same_text, same_text-eq,
  arith,
}
use electronic_shop.Base.Table.{Table, lookup, insert, lookup-insert, IsKeyed, insert-IsKeyed}
use electronic_shop.Auth.Models.{Account, OAuthAccount, Accounts}
use electronic_shop.Auth.Accounts.{with_email, get_by_username, linked_account}

-- No two users have one identifier, one e-mail address or one user name.
pub record IsUnique (users : Table Account) : Type 0 where
  pub keyed : IsKeyed users
  pub emails :
      (i j : ℕ) (u v : Account)
      → lookup i users ≡ some u
      → lookup j users ≡ some v
      → u.email ≡ v.email
      → i ≡ j
  pub usernames :
      (i j : ℕ) (u v : Account)
      → lookup i users ≡ some u
      → lookup j users ≡ some v
      → u.username ≡ v.username
      → i ≡ j

-- No Google identity is linked twice, and a linked account's user is there.
abbrev pub IsLinked : Table Account → List OAuthAccount → Type 0
IsLinked users [] = Unit
IsLinked users (account ∷ rest) =
    (linked_account account.provider_user_id rest ≡ none)
    × (lookup account.user_id users ≢ none)
    × IsLinked users rest

abbrev pub IsSound : Accounts → Type 0
IsSound a = IsUnique a.users × IsLinked a.users a.oauth_accounts

pub with_email-none :
    (email : String) (t : Table Account) (j : ℕ) (u : Account)
    → with_email email t ≡ none
    → lookup j t ≡ some u
    → u.email ≢ email
unfolding with_email
with_email-none email [] j u h e = cc
with_email-none email ((id, user) ∷ t) j u h e =
    ground (arith, with_email-none email t j u, same_text-eq user.email email)

pub with_email-some :
    (email : String) (t : Table Account) (id : ℕ) (user : Account)
    → IsKeyed t
    → with_email email t ≡ some (id, user)
    → (lookup id t ≡ some user) × (user.email ≡ email)
unfolding with_email
with_email-some email [] id user keyed h = cc
with_email-some email ((j, other) ∷ t) id user keyed h =
    ground (arith, with_email-some email t id user keyed.1, same_text-eq other.email email)

pub linked_account-some :
    (users : Table Account) (subject : String) (accounts : List OAuthAccount)
    (account : OAuthAccount)
    → IsLinked users accounts
    → linked_account subject accounts ≡ some account
    → lookup account.user_id users ≢ none
unfolding linked_account
linked_account-some users subject [] account h e = cc
linked_account-some users subject (other ∷ rest) account h e =
    elim (Bool-cases (same_text other.provider_user_id subject)) [
      | inl same ↦ ground arith
      | inr different ↦ linked_account-some users subject rest account h.2 (ground arith)
    ]

get_by_username-none :
    (username : String) (t : Table Account) (j : ℕ) (u : Account)
    → get_by_username username t ≡ none
    → lookup j t ≡ some u
    → u.username ≢ username
unfolding get_by_username
get_by_username-none username [] j u h e = cc
get_by_username-none username ((id, user) ∷ t) j u h e =
    ground (arith, get_by_username-none username t j u, same_text-eq user.username username)

module _ (users : Table Account) (h : IsUnique users) (id : ℕ) (user : Account) where
  pub insert_new-IsUnique :
      with_email user.email users ≡ none
      → get_by_username user.username users ≡ none
      → IsUnique (insert id user users)
  insert_new-IsUnique e n = record {
    keyed = insert-IsKeyed id user users h.keyed;
    emails = λ i j u v f g same. ground (
      arith,
      lookup-insert id i user users,
      lookup-insert id j user users,
      h.emails i j u v,
      with_email-none user.email users i u,
      with_email-none user.email users j v,
    );
    usernames = λ i j u v f g same. ground (
      arith,
      lookup-insert id i user users,
      lookup-insert id j user users,
      h.usernames i j u v,
      get_by_username-none user.username users i u,
      get_by_username-none user.username users j v,
    );
  }

  -- A changed account that keeps its e-mail address and its user name.
  pub insert_same-IsUnique :
      (old : Account)
      → lookup id users ≡ some old
      → old.email ≡ user.email
      → old.username ≡ user.username
      → IsUnique (insert id user users)
  insert_same-IsUnique old found e n = record {
    keyed = insert-IsKeyed id user users h.keyed;
    emails = λ i j u v f g same. ground (
      arith,
      lookup-insert id i user users,
      lookup-insert id j user users,
      h.emails i j u v,
      h.emails i j old v,
      h.emails i j u old,
    );
    usernames = λ i j u v f g same. ground (
      arith,
      lookup-insert id i user users,
      lookup-insert id j user users,
      h.usernames i j u v,
      h.usernames i j old v,
      h.usernames i j u old,
    );
  }

pub insert-IsLinked :
    (users : Table Account) (id : ℕ) (user : Account) (accounts : List OAuthAccount)
    → IsLinked users accounts
    → IsLinked (insert id user users) accounts
insert-IsLinked users id user [] h = tt
insert-IsLinked users id user (account ∷ rest) (fresh, there, linked) = (
  fresh,
  λ e. there (ground (arith, lookup-insert id account.user_id user users)),
  insert-IsLinked users id user rest linked,
)
