-- ===== src/Auth/Service/Requests.antt =====
-- Sequences of the requests of modules/auth, and the live refresh tokens of a family after them.
use electronic_shop.Base.{
  ℕ, ◌+◌, ◌≤◌, ◌≡◌, inl, inr, Bool, Bool-cases, Option-cases, none, List, [], ◌∷◌, arith,
}
use electronic_shop.Base.Table.{
  lookup, insert, sum-insert_old, sum-insert_new, IsKeyed, insert-IsKeyed,
}
use electronic_shop.Base.Exec.{Result-cases}
use electronic_shop.Users.Models.{UserRole}
use electronic_shop.Auth.Models.{Account, RefreshToken, Accounts}
use electronic_shop.Auth.Service.{
  Crypto, request, get_by_hash, is_live, revoked, revoke_where, revoke_all_for_user,
  rotate_refresh_token, issue_token_pair, logout, change_password, confirm_password_reset,
  one_time_by_hash, password_is, confirm_email_verification,
}
use electronic_shop.Auth.Service.Lookup.{lookup-get_by_hash}
use electronic_shop.Auth.Service.Parts.{rotate_raises}
use electronic_shop.Auth.Service.Families.{
  live_of, of_family, of_user, live_in, sum-revoke_where, revoke_where-IsKeyed, rotate_keeps,
}

-- The books of the refresh tokens: no identifier twice, and at most one live token of a family.
pub record IsSingle (a : Accounts) : Type 0 where
  pub keyed : IsKeyed a.refresh_tokens
  pub single : (f : ℕ) → live_in f a ≤ 1

same_tokens : (b a : Accounts) → b.refresh_tokens ≡ a.refresh_tokens → IsSingle a → IsSingle b
same_tokens b a e h = record { keyed = rw e h.keyed; single = λ f. rw e (h.single f) }

module _ (a : Accounts) (h : IsSingle a) where
  revoke_where-IsSingle :
      (chosen : RefreshToken → Bool) (now : ℕ)
      → IsSingle (record a { refresh_tokens = revoke_where chosen now a.refresh_tokens })
  revoke_where-IsSingle chosen now = record {
    keyed = revoke_where-IsKeyed chosen now a.refresh_tokens h.keyed;
    single =
        λ f. omega (arith, h.single f, sum-revoke_where chosen now (of_family f) a.refresh_tokens);
  }

  rotate-IsSingle :
      (lifetime presented id token_hash now : ℕ)
      → lookup id a.refresh_tokens ≡ none
      → IsSingle (request (rotate_refresh_token lifetime presented id token_hash now) a).1
  rotate-IsSingle lifetime presented id token_hash now fresh =
      elim (rotate_raises lifetime presented id token_hash now a) [
        | inl (access, e) ↦
            let (same, keyed) =
              rotate_keeps lifetime presented id token_hash now a h.keyed fresh e in
            record { keyed = keyed; single = λ f. omega (arith, same f, h.single f) }
        | inr (inl e) ↦ rw e h
        | inr (inr (stored_id, stored, found, dead, e)) ↦
            rw e (revoke_where-IsSingle (of_family stored.family_id) now)
      ]

  issue-IsSingle :
      (lifetime id token_hash family_id user_id : ℕ) (role : UserRole) (now : ℕ)
      → lookup id a.refresh_tokens ≡ none
      → live_in family_id a ≡ 0
      → IsSingle (request (issue_token_pair lifetime id token_hash family_id user_id role now) a).1
  unfolding request issue_token_pair
  issue-IsSingle lifetime id token_hash family_id user_id role now fresh unused =
      let new : RefreshToken = record {
        user_id = user_id;
        token_hash = token_hash;
        family_id = family_id;
        replaced_by_id = none;
        revoked_at = none;
        expires_at = now + lifetime;
        created_at = now;
      } in
      let a' = (request (issue_token_pair lifetime id token_hash family_id user_id role now) a).1 in
      elim (Option-cases (get_by_hash token_hash a.refresh_tokens)) [
        | inl e ↦
            same_tokens a' (record a { refresh_tokens = insert id new a.refresh_tokens })
              (ground arith)
              (record {
                keyed = insert-IsKeyed id new a.refresh_tokens h.keyed;
                single = λ f. ground (
                  arith,
                  h.single f,
                  sum-insert_new (live_of (of_family f)) id new a.refresh_tokens fresh,
                );
              })
        | inr (x, e) ↦ same_tokens a' a (ground arith) h
      ]

  logout-IsSingle : (presented now : ℕ) → IsSingle (request (logout presented now) a).1
  unfolding request logout
  logout-IsSingle presented now =
      let a' = (request (logout presented now) a).1 in
      elim (Option-cases (get_by_hash presented a.refresh_tokens)) [
        | inl e ↦ same_tokens a' a (ground arith) h
        | inr ((id, stored), e) ↦
            let there = lookup-get_by_hash presented id stored a.refresh_tokens h.keyed e in
            let gone = revoked now stored in
            elim (Bool-cases (is_live stored)) [
              | inl live ↦
                  same_tokens a' (record a { refresh_tokens = insert id gone a.refresh_tokens })
                    (ground arith)
                    (record {
                      keyed = insert-IsKeyed id gone a.refresh_tokens h.keyed;
                      single = λ f. ground (
                        arith,
                        h.single f,
                        sum-insert_old (live_of (of_family f)) id gone stored a.refresh_tokens
                            there,
                      );
                    })
              | inr dead ↦ same_tokens a' a (ground arith) h
            ]
      ]

  change_password-IsSingle :
      (c : Crypto) (user_id : ℕ) (user : Account) (current new now : ℕ)
      → IsSingle (request (change_password c user_id user current new now) a).1
  unfolding request change_password
  change_password-IsSingle c user_id user current new now =
      let a' = (request (change_password c user_id user current new now) a).1 in
      elim (Bool-cases (password_is c user.hashed_password current)) [
        | inl e ↦
            same_tokens a' (revoke_all_for_user user_id now a) (ground arith)
              (revoke_where-IsSingle (of_user user_id) now)
        | inr e ↦ same_tokens a' a (ground arith) h
      ]

  confirm_password_reset-IsSingle :
      (c : Crypto) (presented new now : ℕ)
      → IsSingle (request (confirm_password_reset c presented new now) a).1
  unfolding request confirm_password_reset
  confirm_password_reset-IsSingle c presented new now =
      let m = confirm_password_reset c presented new now in
      let a' = (request m a).1 in
      elim (Result-cases (request m a).0) [
        | inl (x, e) ↦ same_tokens a' a (ground arith) h
        | inr (x, e) ↦ elim (Option-cases (one_time_by_hash presented a.password_resets)) [
          | inl n ↦ absurd (ground arith)
          | inr ((id, token), found) ↦
              same_tokens a' (revoke_all_for_user token.user_id now a) (ground arith)
                (revoke_where-IsSingle (of_user token.user_id) now)
        ]
      ]

  confirm_email_verification-IsSingle :
      (presented now : ℕ) → IsSingle (request (confirm_email_verification presented now) a).1
  unfolding request confirm_email_verification
  confirm_email_verification-IsSingle presented now =
      same_tokens (request (confirm_email_verification presented now) a).1 a (ground arith) h

-- The requests of the authentication's routes that touch tokens, after the user is known.
pub data Call : Type 0 where
  log_in : ℕ → ℕ → ℕ → ℕ → ℕ → UserRole → ℕ → Call
  refresh : ℕ → ℕ → ℕ → ℕ → ℕ → Call
  log_out : ℕ → ℕ → Call
  new_password : Crypto → ℕ → Account → ℕ → ℕ → ℕ → Call
  reset_password : Crypto → ℕ → ℕ → ℕ → Call
  verify_email : ℕ → ℕ → Call

unfoldable pub perform : Call → Accounts → Accounts
perform (Call.log_in lifetime id hash family user role now) a =
    (request (issue_token_pair lifetime id hash family user role now) a).1
perform (Call.refresh lifetime presented id hash now) a =
    (request (rotate_refresh_token lifetime presented id hash now) a).1
perform (Call.log_out presented now) a = (request (logout presented now) a).1
perform (Call.new_password c user_id user current new now) a =
    (request (change_password c user_id user current new now) a).1
perform (Call.reset_password c presented new now) a =
    (request (confirm_password_reset c presented new now) a).1
perform (Call.verify_email presented now) a =
    (request (confirm_email_verification presented now) a).1

-- New tokens and new families have identifiers of their own.
unfoldable pub IsFresh : Call → Accounts → Type 0
IsFresh (Call.log_in lifetime id hash family user role now) a =
    (lookup id a.refresh_tokens ≡ none) × (live_in family a ≡ 0)
IsFresh (Call.refresh lifetime presented id hash now) a = lookup id a.refresh_tokens ≡ none
IsFresh (Call.log_out presented now) a = Unit
IsFresh (Call.new_password c user_id user current new now) a = Unit
IsFresh (Call.reset_password c presented new now) a = Unit
IsFresh (Call.verify_email presented now) a = Unit

unfoldable pub perform_all : List Call → Accounts → Accounts
perform_all [] a = a
perform_all (c ∷ cs) a = perform_all cs (perform c a)

unfoldable pub AreFresh : List Call → Accounts → Type 0
AreFresh [] a = Unit
AreFresh (c ∷ cs) a = IsFresh c a × AreFresh cs (perform c a)

perform-IsSingle : (c : Call) (a : Accounts) → IsFresh c a → IsSingle a → IsSingle (perform c a)
unfolding perform IsFresh
perform-IsSingle (Call.log_in lifetime id hash family user role now) a fresh h =
    issue-IsSingle a h lifetime id hash family user role now fresh.0 fresh.1
perform-IsSingle (Call.refresh lifetime presented id hash now) a fresh h =
    rotate-IsSingle a h lifetime presented id hash now fresh
perform-IsSingle (Call.log_out presented now) a fresh h = logout-IsSingle a h presented now
perform-IsSingle (Call.new_password c user_id user current new now) a fresh h =
    change_password-IsSingle a h c user_id user current new now
perform-IsSingle (Call.reset_password c presented new now) a fresh h =
    confirm_password_reset-IsSingle a h c presented new now
perform-IsSingle (Call.verify_email presented now) a fresh h =
    confirm_email_verification-IsSingle a h presented now

-- Whatever sequence of logins, refreshes, logouts, password changes and resets, and verifications is
-- served, every family of refresh tokens has at most one live token, if that holds before, no token's
-- identifier stands twice, and new tokens and families get identifiers of their own.
pub perform_all-IsSingle :
    (cs : List Call) (a : Accounts) → AreFresh cs a → IsSingle a → IsSingle (perform_all cs a)
unfolding perform_all AreFresh
perform_all-IsSingle [] a fresh h = h
perform_all-IsSingle (c ∷ cs) a fresh h =
    perform_all-IsSingle cs (perform c a) fresh.1 (perform-IsSingle c a fresh.0 h)
