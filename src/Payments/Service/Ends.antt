-- ===== src/Payments/Service/Ends.antt =====
-- When the callback of modules/payments/service.py does not raise.
use electronic_shop.Base.{ℕ, ◌*◌, ◌≡◌, ◌⊎◌, inl, inr, Bool, true, false, some, arith, sym, Option}
use mathlib.Core.Path.{subst}
use electronic_shop.Base.Table.{lookup, IsKeyed}
use electronic_shop.Base.Exec.{Result, ok}
use electronic_shop.Integrations.Zarinpal.{Settings, returned, PaymentVerifyResult, verify_payment}
use electronic_shop.Orders.Models.{OrderStatus, Order}
use electronic_shop.Orders.Service.Ends.{all_registered, mark_paid_ends, mark_payment_failed_ends}
use electronic_shop.Payments.Models.{PaymentStatus, Payment}
use electronic_shop.Payments.Service.{
  get_by_authority, handle_callback, process, set_payment, toman_to_rial, settle, fail_payment,
}
use electronic_shop.Payments.Service.Callback.{callback_claimed, pending_payment}
use electronic_shop.Database.{Database}

module _ (payment_id : ℕ) (row : Payment) (now : ℕ) (d : Database) {order : Order}
    (placed : lookup row.order_id d.orders ≡ some order)
    (waiting : order.status ≡ OrderStatus.awaiting_payment)
    (registered : all_registered order.items d.stock ≡ true) where
  fail_payment_ends : (p : Payment) × ((fail_payment payment_id row now d).0 ≡ ok p)
  fail_payment_ends =
      let done =
        mark_payment_failed_ends row.order_id now
          (set_payment payment_id (record row { status = PaymentStatus.failed }) d) placed waiting
          registered in
      (record row { status = PaymentStatus.failed }, ground arith)

module _ (payment_id : ℕ) (row : Payment) (now : ℕ) (d : Database) {order : Order}
    (placed : lookup row.order_id d.orders ≡ some order)
    (waiting : order.status ≡ OrderStatus.awaiting_payment)
    (registered : all_registered order.items d.stock ≡ true) where
  answer_ends :
      (success : Bool) (reference_id : Option ℕ) (raw_response : ℕ)
      → (p : Payment) × ((settle payment_id row now
            (returned (record {
              success = success;
              reference_id = reference_id;
              raw_response = raw_response;
            }))
            d).0
          ≡ ok p)
  answer_ends true reference_id raw_response =
      let verified : Payment = record row {
        status = PaymentStatus.verified;
        reference_id = reference_id;
        verified_at = some now;
        raw_gateway_response = some raw_response;
      } in
      let done =
        mark_paid_ends row.order_id now (set_payment payment_id verified d) placed waiting
          registered in
      (verified, ground arith)
  answer_ends false reference_id raw_response =
      fail_payment_ends payment_id (record row { raw_gateway_response = some raw_response }) now d
        placed waiting registered

  process_ends :
      (settings : Settings) (authority : ℕ) (gateway_ok : Bool)
      → ((gateway_ok ≡ false)
          ⊎ ((v : PaymentVerifyResult) × (verify_payment settings
                  (row.amount * toman_to_rial)
                  authority
                ≡ returned v)))
      → (p : Payment) × ((process settings payment_id row authority gateway_ok now d).0 ≡ ok p)
  process_ends settings authority false h =
      fail_payment_ends payment_id row now d placed waiting registered
  process_ends settings authority true (inl e) = cc
  process_ends settings authority true (inr (v, e)) =
      subst (λ o. (p : Payment) × ((settle payment_id row now o d).0 ≡ ok p)) (sym e)
        (answer_ends v.success v.reference_id v.raw_response)

-- Where no payment's identifier stands twice, the first callback of a payment, which is found by its
-- authority and `initiated`, ends without raising, where the order waits for payment, the
-- products of its items that are still there have inventory rows, and, if the gateway redirected with
-- status OK, the gateway answers the verification of the payment's amount.
pub callback_ends :
    (settings : Settings) (authority : ℕ) (gateway_ok : Bool) (now : ℕ) (d : Database)
    {payment_id : ℕ} {payment : Payment} {order : Order}
    → IsKeyed d.payments
    → get_by_authority authority d.payments ≡ some (payment_id, payment)
    → payment.status ≡ PaymentStatus.initiated
    → lookup payment.order_id d.orders ≡ some order
    → order.status ≡ OrderStatus.awaiting_payment
    → all_registered order.items d.stock ≡ true
    → (gateway_ok ≡ false)
      ⊎ ((v : PaymentVerifyResult) × (verify_payment settings
              (payment.amount * toman_to_rial)
              authority
            ≡ returned v))
    → (p : Payment) × ((handle_callback settings authority gateway_ok now d).0 ≡ ok p)
callback_ends settings authority gateway_ok now d {payment_id} {payment} keyed found initiated
      placed waiting registered answered =
    let row = pending_payment payment in
    subst (λ (x : Result Payment × Database). (p : Payment) × (x.0 ≡ ok p))
      (sym (callback_claimed settings authority gateway_ok now d keyed found initiated))
      (process_ends payment_id row now (set_payment payment_id row d) placed waiting registered
        settings authority gateway_ok answered)
