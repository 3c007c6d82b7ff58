-- ===== src/Auth/Service/Reuse.antt =====
-- `rotate_refresh_token` of a token that was presented before, and the end of a password reset
-- (modules/auth/service.py).
use electronic_shop.Base.{ℕ, ◌≡◌, inl, inr, refl, false, Option-cases, none, some, arith}
use electronic_shop.Base.Table.{lookup, insert, lookup-insert, IsKeyed, insert-IsKeyed}
use electronic_shop.Base.Exec.{ok, err, unauthorized}
use electronic_shop.Users.Models.{UserRole}
use electronic_shop.Auth.Models.{RefreshToken, OneTimeToken, Accounts}
use electronic_shop.Auth.Service.{
  Crypto, request, get_by_hash, is_live, revoked, revoke_family, rotate_refresh_token,
  confirm_password_reset, one_time_by_hash,
}
use electronic_shop.Auth.Service.Lookup.{
  lookup-get_by_hash, get_by_hash-insert_old, get_by_hash-insert_new,
}
use electronic_shop.Auth.Service.Parts.{successor, rotate_parts}
use electronic_shop.Auth.Service.Families.{of_family, live_in, live_for, of_user, none-revoke_where}

module _ (lifetime presented id token_hash now : ℕ) (a : Accounts) where
  -- A token that was revoked before and is presented again is refused, and although the request
  -- raises, the revocation of the token's family stays: none of its tokens is live afterwards.
  pub reuse_revokes :
      {stored_id : ℕ} {stored : RefreshToken}
      → get_by_hash presented a.refresh_tokens ≡ some (stored_id, stored)
      → is_live stored ≡ false
      → let (r, a') = request (rotate_refresh_token lifetime presented id token_hash now) a in
        (r ≡ err unauthorized)
        × (a' ≡ revoke_family stored.family_id now a)
        × (live_in stored.family_id a' ≡ 0)
  unfolding request rotate_refresh_token
  reuse_revokes {stored_id} {stored} found dead = (
    ground arith,
    ground arith,
    ground (arith, none-revoke_where (of_family stored.family_id) now a.refresh_tokens),
  )

module _ (lifetime presented id token_hash now : ℕ) (a : Accounts)
    (keyed : IsKeyed a.refresh_tokens) (fresh : lookup id a.refresh_tokens ≡ none)
    {access : ℕ × UserRole}
    (done : (request (rotate_refresh_token lifetime presented id token_hash now) a).0
      ≡ ok access) where
  found_again :
      let a' = (request (rotate_refresh_token lifetime presented id token_hash now) a).1 in
      (stored_id : ℕ) × (stored : RefreshToken) × (get_by_hash presented a'.refresh_tokens
        ≡ some (stored_id, stored))
      × (is_live stored ≡ false)
  found_again =
      let (stored_id, stored, found, live, user, after) =
        rotate_parts lifetime presented id token_hash now a done in
      let old = revoked now stored in
      let t1 = insert stored_id old a.refresh_tokens in
      let new = successor lifetime presented id token_hash now a stored in
      let other : lookup id t1 ≡ none = ground (
        arith,
        lookup-insert stored_id id old a.refresh_tokens,
        lookup-get_by_hash presented stored_id stored a.refresh_tokens keyed found,
      ) in
      let once =
        get_by_hash-insert_old presented stored_id stored old a.refresh_tokens keyed refl found in
      let twice = get_by_hash-insert_new presented stored_id old id new t1 other once in
      (
        stored_id,
        record old { replaced_by_id = some id },
        rw after (
            get_by_hash-insert_old presented stored_id old (record old { replaced_by_id = some id })
              (insert id new t1)
              (insert-IsKeyed id new t1 (insert-IsKeyed stored_id old a.refresh_tokens keyed)) refl
              twice),
        refl,
      )

  -- Where no token's identifier stands twice and the new token's is new, after a rotation that did
  -- not raise, whoever presents the same token again, at any time, is
  -- refused.
  pub rotated_once :
      (lifetime' id' token_hash' now' : ℕ)
      → let a' = (request (rotate_refresh_token lifetime presented id token_hash now) a).1 in
        (request (rotate_refresh_token lifetime' presented id' token_hash' now') a').0
        ≡ err unauthorized
  rotated_once lifetime' id' token_hash' now' =
      let (stored_id, stored, found, dead) = found_again in
      (reuse_revokes lifetime' presented id' token_hash' now'
        (request (rotate_refresh_token lifetime presented id token_hash now) a).1 found dead).0

module _ (c : Crypto) (presented new now : ℕ) (a : Accounts) where
  -- A password reset that does not raise leaves no refresh token of the user live.
  pub reset_revokes :
      (request (confirm_password_reset c presented new now) a).0 ≡ ok tt
      → (id : ℕ) × (token : OneTimeToken) × (one_time_by_hash presented a.password_resets
          ≡ some (id, token))
        × (live_for token.user_id (request (confirm_password_reset c presented new now) a).1 ≡ 0)
  unfolding request confirm_password_reset
  reset_revokes h = elim (Option-cases (one_time_by_hash presented a.password_resets)) [
    | inl n ↦ absurd (ground arith)
    | inr ((id, token), found) ↦ (
      id,
      token,
      found,
      ground (arith, none-revoke_where (of_user token.user_id) now a.refresh_tokens),
    )
  ]
