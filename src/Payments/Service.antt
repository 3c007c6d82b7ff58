-- ===== src/Payments/Service.antt =====
-- backend/app/modules/payments/service.py, class PaymentService, over repository.py. The identifier of
-- a new payment and the time of a call are arguments; `gateway_ok` is `gateway_status == "OK"`.
pub mod Lookup
pub mod Settling
pub mod Callback
pub mod Ends
pub mod Retry
use electronic_shop.Base.{
  ℕ, ◌*◌, Bool, true, false, not, Option, none, some, [], ◌∷◌, ◌==◌, if◌then◌else◌, is_none,
}
use electronic_shop.Base.Table.{Table, lookup, insert}
use electronic_shop.Base.Exec.{
  Exec, conflict, not_found, permission_denied, gateway_error, internal_error, pure, raise, gets,
  or_raise, raise_if, modify, ◌>>=◌, ◌>>◌,
}
use electronic_shop.Integrations.Zarinpal.{
  Settings, Outcome, returned, failed, not_configured, PaymentVerifyResult, request_payment,
  verify_payment,
}
use electronic_shop.Users.Models.{User}
use electronic_shop.Orders.Models.{OrderStatus, one_of, Order}
use electronic_shop.Orders.Service.{get_by_id, mark_paid, mark_payment_failed}
use electronic_shop.Payments.Models.{PaymentStatus, Payment}
use electronic_shop.Database.{Database}

abbrev pub toman_to_rial : ℕ
toman_to_rial = 10

abbrev pub index : PaymentStatus → ℕ
index PaymentStatus.initiated = 0
index PaymentStatus.pending = 1
index PaymentStatus.verified = 2
index PaymentStatus.failed = 3

abbrev pub set_payment : ℕ → Payment → Database → Database
set_payment payment_id payment d = record d { payments = insert payment_id payment d.payments }

abbrev pub has_authority : ℕ → Option ℕ → Bool
has_authority a none = false
has_authority a (some b) = a == b

-- `PaymentRepository.get_by_authority`: the payment with its identifier (`authority` is unique).
unfoldable pub get_by_authority : ℕ → Table Payment → Option (ℕ × Payment)
get_by_authority authority [] = none
get_by_authority authority ((payment_id, payment) ∷ rest) =
    if has_authority authority payment.authority
    then some (payment_id, payment)
    else get_by_authority authority rest

abbrev pub new_payment : ℕ → User → Order → Payment
new_payment order_id user order = record {
  order_id = order_id;
  user_id = user.id;
  gateway = "zarinpal";
  authority = none;
  amount = order.total;
  status = PaymentStatus.initiated;
  reference_id = none;
  verified_at = none;
  raw_gateway_response = none;
}

-- The rest of `init_payment` after the gateway's answer. An authority that another payment has is
-- refused by the unique constraint when the session is flushed.
abbrev pub store_authority : ℕ → Payment → Outcome ℕ → Exec Database (Payment × ℕ)
store_authority payment_id payment not_configured = raise conflict
store_authority payment_id payment failed = raise gateway_error
store_authority payment_id payment (returned authority) = do
  known ← gets (λ d. get_by_authority authority d.payments)
  raise_if (not (is_none known)) internal_error
  let stored : Payment = record payment { authority = some authority }
  modify (set_payment payment_id stored)
  pure (stored, authority)

unfoldable pub init_payment : Settings → ℕ → User → ℕ → Exec Database (Payment × ℕ)
init_payment settings payment_id user order_id = do
  order ← get_by_id order_id
  raise_if (not (order.user_id == user.id)) permission_denied
  raise_if
      (not (one_of order.status (OrderStatus.awaiting_payment ∷ OrderStatus.payment_failed ∷ [])))
      conflict
  modify (set_payment payment_id (new_payment order_id user order))
  store_authority payment_id (new_payment order_id user order)
      (request_payment settings (order.total * toman_to_rial) order_id)

abbrev pub claim : ℕ → PaymentStatus → PaymentStatus → Option Payment → Exec Database Bool
claim payment_id from to none = pure false
claim payment_id from to (some payment) =
    if index payment.status == index from
    then modify (set_payment payment_id (record payment { status = to })) >> pure true
    else pure false

-- `PaymentRepository.try_claim`: the conditional UPDATE, and whether it found its row.
unfoldable pub try_claim : ℕ → PaymentStatus → PaymentStatus → Exec Database Bool
try_claim payment_id from to = do
  row ← gets (λ d. lookup payment_id d.payments)
  claim payment_id from to row

-- The failed and the verified end of a callback: the payment's row and its order.
abbrev pub fail_payment : ℕ → Payment → ℕ → Exec Database Payment
fail_payment payment_id payment now = do
  modify (set_payment payment_id (record payment { status = PaymentStatus.failed }))
  mark_payment_failed payment.order_id now
  pure (record payment { status = PaymentStatus.failed })

abbrev pub settle : ℕ → Payment → ℕ → Outcome PaymentVerifyResult → Exec Database Payment
settle payment_id payment now (returned result) =
    let answered = record payment { raw_gateway_response = some result.raw_response } in
    let verified = record answered {
      status = PaymentStatus.verified;
      reference_id = result.reference_id;
      verified_at = some now;
    } in
    if result.success
    then (modify (set_payment payment_id verified)
        >> (mark_paid payment.order_id now >> pure verified))
    else fail_payment payment_id answered now
settle payment_id payment now not_configured = raise gateway_error
settle payment_id payment now failed = raise gateway_error

abbrev pub process : Settings → ℕ → Payment → ℕ → Bool → ℕ → Exec Database Payment
process settings payment_id payment authority false now = fail_payment payment_id payment now
process settings payment_id payment authority true now =
    settle payment_id payment now
      (verify_payment settings (payment.amount * toman_to_rial) authority)

-- What a callback does after `try_claim`: the loser of the race reads the stored payment again.
abbrev pub claimed_or_replayed :
    Settings → ℕ → Payment → ℕ → Bool → ℕ → Bool → Exec Database Payment
claimed_or_replayed settings payment_id payment authority gateway_ok now false = do
  or_raise (← gets (λ d. lookup payment_id d.payments)) internal_error
claimed_or_replayed settings payment_id payment authority gateway_ok now true =
    process settings payment_id (record payment { status = PaymentStatus.pending }) authority
      gateway_ok now

unfoldable pub handle_callback : Settings → ℕ → Bool → ℕ → Exec Database Payment
handle_callback settings authority gateway_ok now = do
  found ← or_raise (← gets (λ d. get_by_authority authority d.payments)) not_found
  claimed ← try_claim found.0 PaymentStatus.initiated PaymentStatus.pending
  claimed_or_replayed settings found.0 found.1 authority gateway_ok now claimed
