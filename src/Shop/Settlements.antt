-- ===== src/Shop/Settlements.antt =====
-- The theorems on orders and payments, applied to the sample shop.
use electronic_shop.Orders.Service.Overreleased.{cancel_overreleases}
use electronic_shop.Base.{
  ℕ, ◌+◌, ◌-◌, ◌≡◌, ◌≢◌, refl, true, Option, none, some, [], ◌∷◌, ◌==◌, if◌then◌else◌, String,
}
use electronic_shop.Base.Int.{pos, ◌+ℤ◌, neg}
use electronic_shop.Base.Amount.{has_part, before}
use electronic_shop.Base.Table.{lookup}
use electronic_shop.Base.Exec.{ok, err, conflict}
use electronic_shop.Users.Models.{User}
use electronic_shop.Catalog.Inventory.{reserve, release, commit_purchase, locked_inventory}
use electronic_shop.Catalog.Inventory.Reserved.{reserved_of, total_of}
use electronic_shop.Cart.Service.{CartSummary, get_or_create, clear, get_summary}
use electronic_shop.Wallet.Models.{WalletTransactionType, WalletTransaction}
use electronic_shop.Wallet.Service
use electronic_shop.Wallet.Service.{refund_order, insert_wallet, apply}
use electronic_shop.Wallet.Service.Shape.{balance_of}
use electronic_shop.Orders.Models.{OrderStatus, Order}
use electronic_shop.Orders.Service.{
  moved, transition, checkout, checkout_items, for_items, commit_items, release_items, mark_paid,
  mark_payment_failed, cancel, admin_update_status,
}
use electronic_shop.Orders.Service.Items.{quantity_of, line_total}
use electronic_shop.Orders.Service.Held.{held, order_held, held-admin_update_status}
use electronic_shop.Orders.Service.Checkout.{Charged, checkout_items-Charged}
use electronic_shop.Orders.Service.Placed.{checkout_places}
use electronic_shop.Orders.Service.Closed.{closed_refused}
use electronic_shop.Orders.Service.Shown.{charged_as_shown}
use electronic_shop.Orders.Router.{update_order_status}
use electronic_shop.Orders.Router.Refund.{refund_credits, refunded_once}
use electronic_shop.Payments.Models.{PaymentStatus}
use electronic_shop.Shop.Samples.{customer, shop, carted, ordered, order_in, order_item, waiting}
use electronic_shop.Database.{Database}

checkout_items-Charged_example :
    Charged 100 7 0 [] shop 500 (order_item ∷ []) (checkout_items 100 7 ((1, 2) ∷ []) 0 [] shop).1
unfolding checkout_items reserve locked_inventory
checkout_items-Charged_example =
    checkout_items-Charged 100 7 ((1, 2) ∷ []) 0 [] shop {total = 500} {items' = order_item ∷ []}
      refl

checkout_places_example :
    let d' = (checkout 100 7 none 10 carted).1 in
    let result = order_in OrderStatus.awaiting_payment in
    (lookup 100 d'.orders ≡ some result)
    × (result.status ≡ OrderStatus.awaiting_payment)
    × (result.total ≡ line_total result.items)
    × (lookup 7 d'.carts ≡ some [])
    × ((j : ℕ) → held j d' ≡ held j carted + quantity_of j result.items)
    × ((j : ℕ) → reserved_of j d'.stock ≡ reserved_of j carted.stock + quantity_of j result.items)
    × ((j : ℕ) → total_of j d'.stock ≡ total_of j carted.stock)
unfolding checkout checkout_items reserve locked_inventory get_or_create clear transition
checkout_places_example =
    checkout_places 100 7 none 10 carted {result = order_in OrderStatus.awaiting_payment} refl refl

charged_as_shown_example :
    (summary : CartSummary) × ((get_summary 7 carted).0 ≡ ok summary)
    × (summary.subtotal ≡ 500)
    × (summary.total ≡ 500)
unfolding checkout checkout_items reserve locked_inventory get_or_create clear transition
charged_as_shown_example =
    charged_as_shown 100 7 none 10 carted {result = order_in OrderStatus.awaiting_payment} refl

abbrev cancelled : Order
cancelled = moved (order_in OrderStatus.awaiting_payment) OrderStatus.cancelled 20

held-admin_update_status_example :
    let d' = (admin_update_status 100 OrderStatus.cancelled none 3 20 waiting).1 in
    (held 1 d' + order_held 1 (order_in OrderStatus.awaiting_payment)
      ≡ held 1 waiting + order_held 1 cancelled)
    × (d'.stock ≡ waiting.stock)
unfolding admin_update_status transition
held-admin_update_status_example =
    held-admin_update_status 100 3 20 OrderStatus.cancelled none waiting
      {order = order_in OrderStatus.awaiting_payment} {result = cancelled} 1 refl refl

abbrev refunded : Database
refunded = ordered OrderStatus.refunded PaymentStatus.verified 0

closed_refused_example :
    ((mark_paid 100 20 refunded).0 ≢ ok cancelled)
    × ((mark_payment_failed 100 20 refunded).0 ≢ ok cancelled)
    × ((user : User) → (cancel 100 user 20 refunded).0 ≢ ok cancelled)
    × ((new_status : OrderStatus) (reason : Option String) (actor : ℕ)
        → (admin_update_status 100 new_status reason actor 20 refunded).0 ≢ ok cancelled)
closed_refused_example =
    closed_refused 100 20 refunded {order = order_in OrderStatus.refunded} refl refl cancelled

abbrev paid : Database
paid = ordered OrderStatus.paid PaymentStatus.verified 0

refund_credits_example :
    let d' = (update_order_status 100 OrderStatus.refunded none 3 30 paid).1 in
    let t : WalletTransaction = record {
      wallet_id = 7;
      type = WalletTransactionType.refund;
      amount = pos 500;
      balance_after = pos 600;
      reference_type = some "order";
      reference_id = some 100;
      note = some "order refund";
      actor_id = some 3;
    } in
    (true ≡ true)
    × (order_in OrderStatus.refunded ≡ order_in OrderStatus.refunded)
    × (lookup 100 d'.orders ≡ some (order_in OrderStatus.refunded))
    × ((u : ℕ)
        → balance_of (lookup u d'.ledger.wallets) ≡ (
            if u == 7
            then balance_of (lookup u paid.ledger.wallets) +ℤ pos 500
            else balance_of (lookup u paid.ledger.wallets)))
    × (d'.ledger.transactions ≡ t ∷ paid.ledger.transactions)
    × (d'.stock ≡ paid.stock)
unfolding update_order_status admin_update_status transition refund_order apply
    Service.get_or_create insert_wallet ◌+ℤ◌ neg has_part before
refund_credits_example =
    refund_credits 100 none 3 30 paid {order = order_in OrderStatus.paid}
      {result = order_in OrderStatus.refunded} refl refl

refunded_once_example :
    let d' = (update_order_status 100 OrderStatus.refunded none 3 30 paid).1 in
    update_order_status 100 OrderStatus.refunded none 3 31 d' ≡ (err conflict, d')
unfolding update_order_status admin_update_status transition refund_order apply
    Service.get_or_create insert_wallet ◌+ℤ◌ neg has_part before
refunded_once_example =
    refunded_once 100 none 3 30 paid {order = order_in OrderStatus.paid}
      {result = order_in OrderStatus.refunded} refl refl OrderStatus.refunded none 3 31

-- A second order waits for payment too, and holds two phones as the first one does.
abbrev both_waiting : Database
both_waiting = record (ordered OrderStatus.awaiting_payment PaymentStatus.initiated 4) {
  orders =
      (100, order_in OrderStatus.awaiting_payment)
      ∷ (101, order_in OrderStatus.awaiting_payment)
      ∷ [];
}

-- It still holds its two phones after the first order's payment and cancellation, and none is reserved.
cancel_overreleases_example :
    let d' = (cancel 100 customer 20 (mark_paid 100 15 both_waiting).1).1 in
    (held 1 d' + 2 ≡ 4)
    × (reserved_of 1 d'.stock ≡ (4 - 2) - 2)
    × (total_of 1 d'.stock ≡ 5 - 2)
    × (d'.ledger ≡ both_waiting.ledger)
unfolding cancel mark_paid commit_items release_items for_items commit_purchase release
    locked_inventory transition
cancel_overreleases_example =
    cancel_overreleases 100 15 20 both_waiting {order = order_in OrderStatus.awaiting_payment}
      {paid = order_in OrderStatus.paid} {result = cancelled} customer 1 refl refl refl
