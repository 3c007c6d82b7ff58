-- ===== src/Common/Idempotency.antt =====
-- backend/app/common/idempotency.py and idempotency_models.py: a guarded route, over any handler. The
-- digest of the body, the key of the header, the operation and the user are numbers; `expires_at` is
-- stored only. The stored body is what the handler returned.
pub mod Replay
use electronic_shop.Base.{
  ℕ, ◌+◌, Bool, false, Option, none, some, List, [], ◌∷◌, ◌==◌, if◌then◌else◌,
}
use electronic_shop.Base.Exec.{
  AppError, Exec, Result, ok, err, idempotency_key_required, idempotency_key_reused,
}

pub data IdempotencyStatus : Type 0 where
  pending completed : IdempotencyStatus

pub record IdempotencyKey (B : Type 0) : Type 0 where
  pub key : ℕ
  pub user_id : ℕ
  pub operation : ℕ
  pub request_hash : ℕ
  pub status : IdempotencyStatus
  pub response_status : Option ℕ
  pub response_body : Option B
  pub created_at : ℕ
  pub expires_at : ℕ

abbrev pub idempotency_ttl : ℕ
idempotency_ttl = 86400

-- What identifies a guarded request: uq_idempotency_user_operation_key, and the digest of its body.
pub record Caller : Type 0 where
  pub user_id : ℕ
  pub operation : ℕ
  pub key : ℕ
  pub request_hash : ℕ

-- `existing.response_status or 200`
abbrev pub replayed_status : Option ℕ → ℕ
replayed_status none = 200
replayed_status (some n) = if n == 0 then 200 else n

module _ {B : Type 0} where
  abbrev pub same_key : Caller → IdempotencyKey B → Bool
  same_key c k =
      if k.user_id == c.user_id
      then if k.operation == c.operation then k.key == c.key else false
      else false

  -- The query for the row that the unique constraint has found.
  unfoldable pub existing : Caller → List (IdempotencyKey B) → Option (IdempotencyKey B)
  existing c [] = none
  existing c (k ∷ ks) = if same_key c k then some k else existing c ks

  abbrev pub pending_key : Caller → ℕ → IdempotencyKey B
  pending_key c now = record {
    key = c.key;
    user_id = c.user_id;
    operation = c.operation;
    request_hash = c.request_hash;
    status = IdempotencyStatus.pending;
    response_status = none;
    response_body = none;
    created_at = now;
    expires_at = now + idempotency_ttl;
  }

  -- `IdempotencyGuard.finish`
  abbrev pub finish : ℕ → B → IdempotencyKey B → IdempotencyKey B
  finish status_code body k = record k {
    status = IdempotencyStatus.completed;
    response_status = some status_code;
    response_body = some body;
  }

  -- A key that is already there: the handler is not run.
  abbrev pub answer_existing : Caller → IdempotencyKey B → Result (ℕ × Option B)
  answer_existing c k =
      if k.request_hash == c.request_hash
      then ok (replayed_status k.response_status, k.response_body)
      else err idempotency_key_reused

-- The state of the routes and the rows of idempotency_keys.
pub record Guarded (S B : Type 0) : Type 0 where
  pub rows : S
  pub keys : List (IdempotencyKey B)

module _ {S B : Type 0} where
  -- A new key: the handler runs in the transaction in which the key is added and finished.
  abbrev pub run_new : Caller → ℕ → ℕ → Exec S B → Exec (Guarded S B) (ℕ × Option B)
  run_new c now status_code handler g =
      let (r, rows) = handler g.rows in
      elim r [
        | ok body ↦ (
          ok (status_code, some body),
          record { rows = rows; keys = finish status_code body (pending_key c now) ∷ g.keys },
        )
        | err e ↦ (err e, g)
      ]

  abbrev pub dispatch :
      Caller → ℕ → ℕ → Exec S B → Option (IdempotencyKey B) → Exec (Guarded S B) (ℕ × Option B)
  dispatch c now status_code handler none g = run_new c now status_code handler g
  dispatch c now status_code handler (some k) g = (answer_existing c k, g)

  -- The whole request of a guarded route; an empty header is a missing one.
  unfoldable pub guarded_request :
      Option Caller → ℕ → ℕ → Exec S B → Exec (Guarded S B) (ℕ × Option B)
  guarded_request none now status_code handler g = (err idempotency_key_required, g)
  guarded_request (some c) now status_code handler g =
      dispatch c now status_code handler (existing c g.keys) g
