-- ===== src/Auth/Service/Families.antt =====
-- Counting the live refresh tokens of a family and of a user, for modules/auth/service.py.
use electronic_shop.Base.{
  ℕ, ◌≤◌, ◌≡◌, Bool, true, none, some, [], ◌∷◌, arith, ◌==◌, refl, if◌then◌else◌,
}
use electronic_shop.Base.Table.{
  Table, lookup, insert, sum, sum-insert_old, sum-insert_new, lookup-insert, lookup-insert_self,
  IsKeyed, insert-IsKeyed,
}
use electronic_shop.Base.Exec.{ok}
use electronic_shop.Users.Models.{UserRole}
use electronic_shop.Auth.Models.{RefreshToken, Accounts}
use electronic_shop.Auth.Service.{request, is_live, revoked, revoke_where, rotate_refresh_token}
use electronic_shop.Auth.Service.Lookup.{lookup-get_by_hash}
use electronic_shop.Auth.Service.Parts.{rotated, successor, rotate_parts}

abbrev pub live_of : (RefreshToken → Bool) → RefreshToken → ℕ
live_of chosen token = if is_live token then (if chosen token then 1 else 0) else 0

abbrev pub of_family : ℕ → RefreshToken → Bool
of_family f token = token.family_id == f

abbrev pub of_user : ℕ → RefreshToken → Bool
of_user u token = token.user_id == u

-- How many live tokens a family has, and a user.
abbrev pub live_in : ℕ → Accounts → ℕ
live_in f a = sum (live_of (of_family f)) a.refresh_tokens

abbrev pub live_for : ℕ → Accounts → ℕ
live_for u a = sum (live_of (of_user u)) a.refresh_tokens

module _ (chosen : RefreshToken → Bool) (now : ℕ) where
  pub sum-revoke_where :
      (counted : RefreshToken → Bool) (t : Table RefreshToken)
      → sum (live_of counted) (revoke_where chosen now t) ≤ sum (live_of counted) t
  unfolding revoke_where
  sum-revoke_where counted [] = ground arith
  sum-revoke_where counted ((id, token) ∷ t) = ground (arith, sum-revoke_where counted t)

  pub none-revoke_where :
      (t : Table RefreshToken) → sum (live_of chosen) (revoke_where chosen now t) ≡ 0
  unfolding revoke_where
  none-revoke_where [] = refl
  none-revoke_where ((id, token) ∷ t) = ground (arith, none-revoke_where t)

  lookup-revoke_where :
      (k : ℕ) (t : Table RefreshToken)
      → lookup k t ≡ none
      → lookup k (revoke_where chosen now t) ≡ none
  unfolding revoke_where
  lookup-revoke_where k [] h = h
  lookup-revoke_where k ((id, token) ∷ t) h = ground (arith, lookup-revoke_where k t)

  pub revoke_where-IsKeyed :
      (t : Table RefreshToken) → IsKeyed t → IsKeyed (revoke_where chosen now t)
  unfolding revoke_where
  revoke_where-IsKeyed [] h = h
  revoke_where-IsKeyed ((id, token) ∷ t) h =
      ground (arith, revoke_where-IsKeyed t h.1, lookup-revoke_where id t h.0)

module _ (lifetime presented id token_hash now : ℕ) (a : Accounts)
    (keyed : IsKeyed a.refresh_tokens) (fresh : lookup id a.refresh_tokens ≡ none) where
  rotated-live_in :
      (stored_id : ℕ) (stored : RefreshToken) (f : ℕ)
      → lookup stored_id a.refresh_tokens ≡ some stored
      → is_live stored ≡ true
      → live_in f (rotated lifetime presented id token_hash now a stored_id stored) ≡ live_in f a
  rotated-live_in stored_id stored f there live =
      let old = revoked now stored in
      let t1 = insert stored_id old a.refresh_tokens in
      let new = successor lifetime presented id token_hash now a stored in
      let count = live_of (of_family f) in
      let other : lookup id t1 ≡ none =
        ground (arith, lookup-insert stored_id id old a.refresh_tokens) in
      let still : lookup stored_id (insert id new t1) ≡ some old = ground (
        arith,
        lookup-insert id stored_id new t1,
        lookup-insert_self stored_id old a.refresh_tokens,
      ) in
      ground (
        arith,
        sum-insert_old count stored_id old stored a.refresh_tokens there,
        sum-insert_new count id new t1 other,
        sum-insert_old count stored_id (record old { replaced_by_id = some id }) old
            (insert id new t1) still,
      )

  -- A rotation that does not raise replaces the presented token, which was live, by a new one of the
  -- same family and user: every family has as many live tokens as before.
  pub rotate_keeps :
      {access : ℕ × UserRole}
      → let (r, a') = request (rotate_refresh_token lifetime presented id token_hash now) a in
        r ≡ ok access → ((f : ℕ) → live_in f a' ≡ live_in f a) × IsKeyed a'.refresh_tokens
  rotate_keeps h =
      let (stored_id, stored, found, live, user, after) =
        rotate_parts lifetime presented id token_hash now a h in
      let there = lookup-get_by_hash presented stored_id stored a.refresh_tokens keyed found in
      rw after (
        λ f. rotated-live_in stored_id stored f there live,
        insert-IsKeyed stored_id _ _
            (insert-IsKeyed id _ _ (insert-IsKeyed stored_id _ a.refresh_tokens keyed)),
      )
