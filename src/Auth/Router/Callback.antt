-- ===== src/Auth/Router/Callback.antt =====
-- What a callback of Google (modules/auth/router.py) needs, and that a state serves once.
use electronic_shop.Base.{
  ℕ, String, ◌≡◌, ◌≢◌, refl, inl, inr, true, Option, Option-cases, none, some, List, [], ◌∷◌,
  same_text-eq, arith,
}
use electronic_shop.Base.Exec.{ok, err, unauthorized}
use electronic_shop.Integrations.GoogleOauth.{
  GoogleIdentity, InfoAnswer, Google, Outcome, returned, refused, failed, exchange_code,
  verify_id_token, is_issuer, claim_is,
}
use electronic_shop.Auth.Models.{Accounts}
use electronic_shop.Auth.Router.{
  Action, OauthSession, Site, Fresh, find_state, delete_state, identify, checked, conclude,
  google_callback,
}

find_state-delete_state :
    (state : String) (now : ℕ) (t : List (String × OauthSession))
    → find_state state now (delete_state state t) ≡ none
unfolding find_state delete_state
find_state-delete_state state now [] = refl
find_state-delete_state state now ((key, session) ∷ t) =
    ground (arith, find_state-delete_state state now t)

-- A second callback with a state is refused as unauthorized and changes nothing, whatever the first one
-- came to, and whenever the second comes, if the first one was not itself refused for its state.
pub google_callback_once :
    (lower : String → String) (google : Google) (code second state : String) (fresh later : Fresh)
    (site : Site)
    → find_state state fresh.now site.states ≢ none
    → google_callback lower google second state later
        (google_callback lower google code state fresh site).1
      ≡ (err unauthorized, (google_callback lower google code state fresh site).1)
unfolding google_callback
google_callback_once lower google code second state fresh later site known =
    elim (Option-cases (find_state state fresh.now site.states)) [
      | inl missing ↦ absurd (known missing)
      | inr (session, found) ↦ rw (found, find_state-delete_state state later.now site.states) refl
    ]

claim_lem :
    (claim : Option String) (value : String) → claim_is claim value ≡ true → claim ≡ some value
claim_lem none value h = cc
claim_lem (some text) value h = ground (arith, same_text-eq text value)

-- A token that Google vouches for: issued by Google to this client, for the nonce of the sign-in.
abbrev pub IsVouched : Google → String → String → Type 0
IsVouched google raw_id_token nonce =
    (answer : InfoAnswer) × (google.tokeninfo raw_id_token ≡ some answer)
    × (answer.claims.aud ≡ some google.client_id)
    × (is_issuer answer.claims.iss ≡ true)
    × (answer.claims.nonce ≡ some nonce)

verify_id_token-IsVouched :
    (google : Google) (raw_id_token nonce : String) (identity : GoogleIdentity)
    → verify_id_token google raw_id_token nonce ≡ returned identity
    → IsVouched google raw_id_token nonce
unfolding verify_id_token
verify_id_token-IsVouched google raw nonce identity h = elim (Option-cases (google.tokeninfo raw)) [
  | inl silent ↦ absurd (ground arith)
  | inr (answer, told) ↦ (
    answer,
    told,
    claim_lem answer.claims.aud google.client_id (ground arith),
    ground arith,
    claim_lem answer.claims.nonce nonce (ground arith),
  )
]

checked_lem :
    (google : Google) (nonce : String) (o : Outcome String) (identity : GoogleIdentity)
    → checked google nonce o ≡ returned identity
    → (raw : String) × (o ≡ returned raw) × (verify_id_token google raw nonce ≡ returned identity)
checked_lem google nonce (returned raw) identity h = (raw, refl, h)
checked_lem google nonce refused identity h = cc
checked_lem google nonce failed identity h = cc

conclude_lem :
    (lower : String → String) (google : Google) (o : Outcome GoogleIdentity) (action : Action)
    (fresh : Fresh) (accounts : Accounts) {x : Option ℕ}
    → (conclude lower google o action fresh accounts).0 ≡ ok x
    → (identity : GoogleIdentity) × (o ≡ returned identity)
conclude_lem lower google (returned identity) action fresh accounts h = (identity, refl)
conclude_lem lower google refused action fresh accounts h = cc
conclude_lem lower google failed action fresh accounts h = cc

-- A callback that signs somebody in, or links an account, was sent for a sign-in that was started here
-- and has not expired: Google gave a token for its code and the verifier of that sign-in, and vouches
-- that it issued the token to this client, for the nonce of that sign-in.
pub google_callback-IsVouched :
    (lower : String → String) (google : Google) (code state : String) (fresh : Fresh) (site : Site)
    {x : Option ℕ}
    → (google_callback lower google code state fresh site).0 ≡ ok x
    → (session : OauthSession) × (find_state state fresh.now site.states ≡ some session)
      × ((raw : String) × (exchange_code google code session.verifier ≡ returned raw)
          × IsVouched google raw session.nonce)
unfolding google_callback
google_callback-IsVouched lower google code state fresh site {x} h =
    elim (Option-cases (find_state state fresh.now site.states)) [
      | inl missing ↦ absurd (ground arith)
      | inr (session, found) ↦
          let o = identify google code session in
          let signed : (conclude lower google o session.action fresh site.accounts).0 ≡ ok x =
            ground arith in
          let (identity, e) =
            conclude_lem lower google o session.action fresh site.accounts signed in
          let (raw, exchanged, verified) =
            checked_lem google session.nonce (exchange_code google code session.verifier) identity
              e in
          (
            session,
            found,
            (raw, exchanged, verify_id_token-IsVouched google raw session.nonce identity verified),
          )
    ]
