-- ===== src/Auth/Service/Lookup.antt =====
-- `get_by_hash` of modules/auth/repository.py, in a table without repeated keys.
use electronic_shop.Base.{ℕ, ◌≡◌, ◌≢◌, none, some, [], ◌∷◌, arith}
use electronic_shop.Base.Table.{Table, lookup, insert, IsKeyed}
use electronic_shop.Auth.Models.{RefreshToken}
use electronic_shop.Auth.Service.{get_by_hash}

module _ (h id : ℕ) (token : RefreshToken) where
  found_below :
      (k : ℕ) (t : Table RefreshToken)
      → lookup k t ≡ none
      → get_by_hash h t ≡ some (id, token)
      → id ≢ k
  unfolding get_by_hash
  found_below k [] n e = cc
  found_below k ((j, p) ∷ t) n e = ground (arith, found_below k t)

  pub lookup-get_by_hash :
      (t : Table RefreshToken)
      → IsKeyed t
      → get_by_hash h t ≡ some (id, token)
      → lookup id t ≡ some token
  unfolding get_by_hash
  lookup-get_by_hash [] k e = cc
  lookup-get_by_hash ((j, p) ∷ t) k e =
      ground (arith, lookup-get_by_hash t k.1, found_below j t k.0)

  has_hash : (t : Table RefreshToken) → get_by_hash h t ≡ some (id, token) → token.token_hash ≡ h
  unfolding get_by_hash
  has_hash [] e = cc
  has_hash ((j, p) ∷ t) e = ground (arith, has_hash t)

  -- The token is found after its row has been written, if it keeps its digest.
  pub get_by_hash-insert_old :
      (token' : RefreshToken) (t : Table RefreshToken)
      → IsKeyed t
      → token'.token_hash ≡ token.token_hash
      → get_by_hash h t ≡ some (id, token)
      → get_by_hash h (insert id token' t) ≡ some (id, token')
  unfolding get_by_hash
  get_by_hash-insert_old token' [] k same e = cc
  get_by_hash-insert_old token' ((j, p) ∷ t) k same e = ground (
    arith,
    get_by_hash-insert_old token' t k.1 same,
    found_below j t k.0,
    has_hash ((j, p) ∷ t) e,
  )

  -- It is found after another row has been added.
  pub get_by_hash-insert_new :
      (k : ℕ) (new : RefreshToken) (t : Table RefreshToken)
      → lookup k t ≡ none
      → get_by_hash h t ≡ some (id, token)
      → get_by_hash h (insert k new t) ≡ some (id, token)
  unfolding get_by_hash
  get_by_hash-insert_new k new [] n e = cc
  get_by_hash-insert_new k new ((j, p) ∷ t) n e = ground (arith, get_by_hash-insert_new k new t)
