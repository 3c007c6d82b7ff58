-- ===== src/Auth/Service/Parts.antt =====
-- The state after `rotate_refresh_token` (modules/auth/service.py), on each of its branches.
use electronic_shop.Base.{
  ℕ, ◌+◌, ◌≡◌, ◌⊎◌, inl, inr, true, false, Bool-cases, Option-cases, none, some, arith,
}
use electronic_shop.Base.Table.{lookup, insert}
use electronic_shop.Base.Exec.{ok, Result-cases}
use electronic_shop.Users.Models.{UserRole}
use electronic_shop.Auth.Models.{RefreshToken, Accounts}
use electronic_shop.Auth.Service.{
  request, get_by_hash, is_live, revoked, revoke_family, rotate_refresh_token,
}

module _ (lifetime presented id token_hash now : ℕ) (a : Accounts) where
  -- The row of the new token, and the three writes of a rotation.
  abbrev pub successor : RefreshToken → RefreshToken
  successor stored = record {
    user_id = stored.user_id;
    token_hash = token_hash;
    family_id = stored.family_id;
    replaced_by_id = none;
    revoked_at = none;
    expires_at = now + lifetime;
    created_at = now;
  }

  abbrev pub rotated : ℕ → RefreshToken → Accounts
  rotated stored_id stored = record a {
    refresh_tokens =
        insert stored_id (record (revoked now stored) { replaced_by_id = some id })
          (insert id (successor stored) (insert stored_id (revoked now stored) a.refresh_tokens));
  }

  pub rotate_parts :
      {access : ℕ × UserRole}
      → let (r, a') = request (rotate_refresh_token lifetime presented id token_hash now) a in
        r ≡ ok access
        → (stored_id : ℕ) × (stored : RefreshToken) × (get_by_hash presented a.refresh_tokens
            ≡ some (stored_id, stored))
          × (is_live stored ≡ true)
          × (access.0 ≡ stored.user_id)
          × (a' ≡ rotated stored_id stored)
  unfolding request rotate_refresh_token
  rotate_parts h = elim (Option-cases (get_by_hash presented a.refresh_tokens)) [
    | inl e ↦ absurd (ground arith)
    | inr ((stored_id, stored), e) ↦ elim (Option-cases (lookup stored.user_id a.users)) [
      | inl n ↦ absurd (ground arith)
      | inr (user, u) ↦ (stored_id, stored, e, ground arith, ground arith, ground arith)
    ]
  ]

  -- A rotation that raises leaves the accounts as they were, or it has found a revoked token.
  pub rotate_raises :
      let (r, a') = request (rotate_refresh_token lifetime presented id token_hash now) a in
      ((access : ℕ × UserRole) × (r ≡ ok access))
      ⊎ (a' ≡ a)
      ⊎ ((stored_id : ℕ) × (stored : RefreshToken) × (get_by_hash presented a.refresh_tokens
            ≡ some (stored_id, stored))
          × (is_live stored ≡ false)
          × (a' ≡ revoke_family stored.family_id now a))
  unfolding request rotate_refresh_token
  rotate_raises =
      elim (Result-cases
        (request (rotate_refresh_token lifetime presented id token_hash now) a).0) [
          | inr done ↦ inl done
          | inl (x, failed) ↦ elim (Option-cases (get_by_hash presented a.refresh_tokens)) [
            | inl e ↦ inr (inl (ground arith))
            | inr ((stored_id, stored), e) ↦ elim (Bool-cases (is_live stored)) [
              | inl live ↦ inr (inl (ground arith))
              | inr dead ↦ inr (inr (stored_id, stored, e, dead, ground arith))
            ]
          ]
        ]
