-- ===== src/Shop/Callbacks.antt =====
-- The theorems on the gateway's callback, applied to the sample shop.
use electronic_shop.Base.{[], ◌≡◌, refl, true, false, some}
use electronic_shop.Base.Exec.{ok}
use electronic_shop.Integrations.Zarinpal.{verify_payment}
use electronic_shop.Catalog.Inventory.{commit_purchase, locked_inventory}
use electronic_shop.Orders.Models.{OrderStatus}
use electronic_shop.Orders.Service.{transition, for_items, commit_items, mark_paid}
use electronic_shop.Payments.Models.{PaymentStatus, Payment}
use electronic_shop.Payments.Service.{get_by_authority, handle_callback, try_claim}
use electronic_shop.Payments.Service.Callback.{callback-Settles, callback_idempotent, Settles}
use electronic_shop.Shop.Samples.{gateway, ordered, payment_in, waiting}
use electronic_shop.Database.{Database}

abbrev paid : Database
paid = ordered OrderStatus.paid PaymentStatus.verified 0

abbrev verified : Payment
verified = record (payment_in PaymentStatus.verified) {
  reference_id = some 77;
  verified_at = some 20;
  raw_gateway_response = some 0;
}

waiting_found :
    get_by_authority 55 waiting.payments ≡ some (200, payment_in PaymentStatus.initiated)
unfolding get_by_authority
waiting_found = refl

callback-Settles_example :
    Settles gateway 55 true 20 waiting {payment_id = 200}
      {payment = payment_in PaymentStatus.initiated}
      (refl, tt)
      waiting_found
      refl
      verified
      (handle_callback gateway 55 true 20 waiting).1
unfolding get_by_authority handle_callback try_claim mark_paid commit_items for_items
    commit_purchase locked_inventory transition verify_payment
callback-Settles_example =
    callback-Settles gateway 55 true 20 waiting {payment_id = 200}
      {payment = payment_in PaymentStatus.initiated} (refl, tt) waiting_found refl verified refl

callback_idempotent_example :
    let d' = (handle_callback gateway 55 true 20 waiting).1 in
    handle_callback gateway 55 false 40 d' ≡ (ok verified, d')
unfolding get_by_authority handle_callback try_claim mark_paid commit_items for_items
    commit_purchase locked_inventory transition verify_payment
callback_idempotent_example =
    callback_idempotent gateway 55 true 20 waiting {payment_id = 200}
      {payment = payment_in PaymentStatus.initiated} (refl, tt) refl refl gateway false 40 verified
      refl

-- The order's payment has failed; the customer tries again.
abbrev failed : Database
failed = record (ordered OrderStatus.payment_failed PaymentStatus.failed 0) { payments = [] }
