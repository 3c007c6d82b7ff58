-- ===== src/Common/Idempotency/Replay.antt =====
-- Guarded requests that follow each other under one key (common/idempotency.py).
use electronic_shop.Base.{ℕ, ◌≡◌, ◌≢◌, none, some, arith, inl, inr}
use electronic_shop.Base.Exec.{Exec, Result-cases, ok, err, idempotency_key_reused}
use electronic_shop.Common.Idempotency.{Caller, Guarded, existing, guarded_request}

module _ {S B : Type 0} (c : Caller) (now status_code : ℕ) (handler : Exec S B) (g : Guarded S B)
    (new : existing c g.keys ≡ none) {body : B} (h : (handler g.rows).0 ≡ ok body)
    (sent : status_code ≢ 0) where
  -- A request with a new key whose handler returns a body has the handler's effect and answers with
  -- its body. Any later request with the same key and the same content, whatever its handler would
  -- do, gets the same answer and changes nothing; one with the same key and another content is
  -- refused and changes nothing.
  pub performed_once :
      (now' status_code' : ℕ) (handler' : Exec S B)
      → let (r, g') = guarded_request (some c) now status_code handler g in
        (r ≡ ok (status_code, some body))
        × (g'.rows ≡ (handler g.rows).1)
        × (guarded_request (some c) now' status_code' handler' g' ≡ (r, g'))
        × ((hash : ℕ)
            → hash ≢ c.request_hash
            → guarded_request
                (some (record c { request_hash = hash }))
                now'
                status_code'
                handler'
                g'
              ≡ (err idempotency_key_reused, g'))
  unfolding guarded_request existing
  performed_once now' status_code' handler' =
      (ground arith, ground arith, ground arith, λ hash other. ground arith)

-- A request with a new key whose handler raises changes nothing, so that it can be sent again.
pub failed_retries :
    {S B : Type 0} (c : Caller) (now status_code : ℕ) (handler : Exec S B) (g : Guarded S B)
    → existing c g.keys ≡ none
    → ((b : B) → (handler g.rows).0 ≢ ok b)
    → (guarded_request (some c) now status_code handler g).1 ≡ g
unfolding guarded_request
failed_retries c now status_code handler g new h = elim (Result-cases (handler g.rows).0) [
  | inl (x, e) ↦ ground arith
  | inr (b, e) ↦ absurd (h b e)
]
