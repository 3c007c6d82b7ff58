-- ===== src/Auth/Accounts/Login.antt =====
-- `authenticate` after `register` (modules/auth/service.py).
use electronic_shop.Base.{ℕ, String, ◌≡◌, none, some, [], ◌∷◌, same_text-eq, if◌then◌else◌, arith}
use electronic_shop.Base.Table.{Table, lookup, insert}
use electronic_shop.Base.Exec.{ok, err, unauthorized}
use electronic_shop.Auth.Models.{Account, Accounts}
use electronic_shop.Auth.Service.{Crypto, request}
use electronic_shop.Auth.Accounts.{with_email, RegisterRequest, register, authenticate, registered}
use electronic_shop.Auth.Accounts.Google.{start}

with_email-insert :
    (id : ℕ) (user : Account) (t : Table Account)
    → lookup id t ≡ none
    → with_email user.email t ≡ none
    → with_email user.email (insert id user t) ≡ some (id, user)
unfolding with_email
with_email-insert id user [] fresh h = ground (arith, same_text-eq user.email user.email)
with_email-insert id user ((j, other) ∷ t) fresh h = ground (arith, with_email-insert id user t)

module _ (lower : String → String) (c : Crypto) (id token_id token_hash : ℕ)
    (fields : RegisterRequest) (now : ℕ) (a : Accounts) where
  register_finds :
      {x : Account}
      → lookup id a.users ≡ none
      → (register lower c id token_id token_hash fields now (start a)).0 ≡ ok x
      → with_email
          (lower fields.email)
          (request (register lower c id token_id token_hash fields now) a).1.users
        ≡ some (id, registered lower c fields)
  unfolding register request
  register_finds fresh h = ground (arith, with_email-insert id (registered lower c fields) a.users)

-- After a registration under a new identifier that returned, a login under any spelling of its e-mail
-- address that lowers to the same text returns the new user if the password is verified against the
-- hash of the registered one, and is refused as unauthorized if it is not.
pub authenticate-register :
    (lower : String → String) (c : Crypto) (id token_id token_hash : ℕ) (fields : RegisterRequest)
    (now : ℕ) (a : Accounts) (email : String) (password later : ℕ) {x : Account}
    → lookup id a.users ≡ none
    → (register lower c id token_id token_hash fields now (start a)).0 ≡ ok x
    → lower email ≡ lower fields.email
    → (authenticate lower c email password later
        (start (request (register lower c id token_id token_hash fields now) a).1)).0
      ≡ (if c.verify_password password (c.hash_password fields.password)
          then ok (id, record (registered lower c fields) { last_login = some later })
          else err unauthorized)
unfolding authenticate
authenticate-register lower c id token_id token_hash fields now a email password later fresh h
      same =
    let found = register_finds lower c id token_id token_hash fields now a fresh h in
    rw (same, found) (ground arith)
