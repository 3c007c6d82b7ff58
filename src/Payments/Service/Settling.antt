-- ===== src/Payments/Service/Settling.antt =====
-- What a claimed callback of modules/payments/service.py leaves, if it does not raise.
use electronic_shop.Base.{ℕ, ◌*◌, ◌≡◌, ◌⊎◌, refl, inl, inr, Bool, true, false, Option, some, arith}
use electronic_shop.Base.Table.{insert}
use electronic_shop.Base.Exec.{Result, Result-cases, ok, modify, pure, ◌>>◌}
use electronic_shop.Integrations.Zarinpal.{
  Settings, Outcome, returned, failed, not_configured, PaymentVerifyResult, verify_payment,
}
use electronic_shop.Orders.Models.{OrderStatus}
use electronic_shop.Orders.Service.{mark_paid, mark_payment_failed}
use electronic_shop.Orders.Service.Settled.{status_of, mark_paid_moves, mark_payment_failed_moves}
use electronic_shop.Payments.Models.{PaymentStatus, Payment}
use electronic_shop.Payments.Service.{process, set_payment, toman_to_rial, settle, fail_payment}
use electronic_shop.Database.{Database}

-- What the end of a callback leaves: the payment's row and the order's new status.
abbrev pub Ends : ℕ → Payment → OrderStatus → Database → Database → Type 0
Ends payment_id row new_status d d' =
    (d'.payments ≡ insert payment_id row d.payments)
    × (status_of row.order_id d ≡ some OrderStatus.awaiting_payment)
    × (status_of row.order_id d' ≡ some new_status)

module _ (payment_id : ℕ) (row : Payment) (now : ℕ) (d : Database) where
  abbrev paying : Result Payment × Database
  paying = (modify (set_payment payment_id row) >> (mark_paid row.order_id now >> pure row)) d

  paying-Ends :
      (p : Payment) → paying.0 ≡ ok p → (p ≡ row) × Ends payment_id row OrderStatus.paid d paying.1
  paying-Ends p h =
      elim (Result-cases (mark_paid row.order_id now (set_payment payment_id row d)).0) [
        | inl (x, e) ↦ absurd (ground arith)
        | inr (order, e) ↦
            let (same, before, after) =
              mark_paid_moves row.order_id now (set_payment payment_id row d) e in
            (ground arith, (ground arith, before, ground arith))
      ]

  abbrev failing : Result Payment × Database
  failing =
      (modify (set_payment payment_id row) >> (mark_payment_failed row.order_id now >> pure row)) d

  failing-Ends :
      (p : Payment)
      → failing.0 ≡ ok p
      → (p ≡ row) × Ends payment_id row OrderStatus.payment_failed d failing.1
  failing-Ends p h =
      elim (Result-cases (mark_payment_failed row.order_id now (set_payment payment_id row d)).0) [
        | inl (x, e) ↦ absurd (ground arith)
        | inr (order, e) ↦
            let (same, before, after) =
              mark_payment_failed_moves row.order_id now (set_payment payment_id row d) e in
            (ground arith, (ground arith, before, ground arith))
      ]

  -- How a callback that does not raise has ended: the gateway confirmed the payment, which is
  -- verified, and the order is paid; or the payment is failed, and so is the order's.
  abbrev pub Settled : Outcome PaymentVerifyResult → Payment → Database → Type 0
  Settled answer p d' =
      (p.authority ≡ row.authority)
      × (p.order_id ≡ row.order_id)
      × (((p.status ≡ PaymentStatus.verified)
            × ((v : PaymentVerifyResult) × (answer ≡ returned v)
                × (v.success ≡ true)
                × (p.reference_id ≡ v.reference_id))
            × Ends payment_id p OrderStatus.paid d d')
          ⊎ ((p.status ≡ PaymentStatus.failed) × Ends payment_id p OrderStatus.payment_failed d d'))

module _ (payment_id : ℕ) (row : Payment) (now : ℕ) (d : Database) (p : Payment) where
  fail_settles :
      (answer : Outcome PaymentVerifyResult)
      → (fail_payment payment_id row now d).0 ≡ ok p
      → Settled payment_id row now d answer p (fail_payment payment_id row now d).1
  fail_settles answer h =
      let (e, ends) =
        failing-Ends payment_id (record row { status = PaymentStatus.failed }) now d p h in
      (rw e, rw e, inr (rw e, rw e ends))

module _ (payment_id : ℕ) (row : Payment) (now : ℕ) (d : Database) (p : Payment) where
  answer_settles :
      (success : Bool) (reference_id : Option ℕ) (raw_response : ℕ)
      → let v : PaymentVerifyResult = record {
        success = success;
        reference_id = reference_id;
        raw_response = raw_response;
      } in
        (settle payment_id row now (returned v) d).0 ≡ ok p
        → Settled payment_id row now d (returned v) p (settle payment_id row now (returned v) d).1
  answer_settles true reference_id raw_response h =
      let verified : Payment = record row {
        status = PaymentStatus.verified;
        reference_id = reference_id;
        verified_at = some now;
        raw_gateway_response = some raw_response;
      } in
      let (q, ends) = paying-Ends payment_id verified now d p h in
      (rw q, rw q, inl (rw q, (_, refl, refl, rw q), rw q ends))
  answer_settles false reference_id raw_response h =
      fail_settles payment_id (record row { raw_gateway_response = some raw_response }) now d p _ h

  settle_settles :
      (answer : Outcome PaymentVerifyResult)
      → (settle payment_id row now answer d).0 ≡ ok p
      → Settled payment_id row now d answer p (settle payment_id row now answer d).1
  settle_settles (returned v) h = answer_settles v.success v.reference_id v.raw_response h
  settle_settles not_configured h = cc
  settle_settles failed h = cc

-- The gateway's answer to the verification of a payment's amount, which a callback asks for only if
-- the gateway redirected with status OK.
abbrev pub asked : Settings → Payment → ℕ → Bool → Outcome PaymentVerifyResult
asked settings payment authority false = not_configured
asked settings payment authority true =
    verify_payment settings (payment.amount * toman_to_rial) authority

pub process_settles :
    (settings : Settings) (payment_id : ℕ) (row : Payment) (authority : ℕ) (gateway_ok : Bool)
    (now : ℕ) (d : Database) (p : Payment)
    → (process settings payment_id row authority gateway_ok now d).0 ≡ ok p
    → Settled payment_id row now d
        (asked settings row authority gateway_ok)
        p
        (process settings payment_id row authority gateway_ok now d).1
process_settles settings payment_id row authority false now d p h =
    fail_settles payment_id row now d p not_configured h
process_settles settings payment_id row authority true now d p h =
    settle_settles payment_id row now d p
      (verify_payment settings (row.amount * toman_to_rial) authority) h
