-- ===== src/Orders/Router/Refund.antt =====
-- The refund in the status change of modules/orders/router.py.
use electronic_shop.Base.{
  ℕ, String, ◌≡◌, refl, true, false, Option, some, [], ◌∷◌, arith, ◌==◌, if◌then◌else◌,
}
use electronic_shop.Base.Int.{pos, ◌+ℤ◌}
use electronic_shop.Base.Amount.{toman, has_part}
use electronic_shop.Base.Table.{lookup, lookup-insert, lookup-insert_self}
use electronic_shop.Base.Exec.{ok, err, conflict}
use electronic_shop.Wallet.Models.{WalletTransactionType}
use electronic_shop.Wallet.Service.{refund_order, insert_wallet}
use electronic_shop.Wallet.Service.Shape.{balance_of, entry, apply_lem, balance-insert_wallet}
use electronic_shop.Orders.Models.{OrderStatus, Order, one_of}
use electronic_shop.Orders.Service.{moved, admin_update_status}
use electronic_shop.Orders.Service.Held.{transition_lem}
use electronic_shop.Orders.Router.{update_order_status}
use electronic_shop.Database.{Database}

module _ (order_id : ℕ) (reason : Option String) (actor now : ℕ) (d : Database)
    {order result : Order} where
  -- A status change to `refunded` that does not raise found the order paid or completed. It stores
  -- and returns the refunded order, adds the order's total to the balance of the order's customer
  -- and to no other balance, puts one entry into the ledger, and leaves the stock as it is.
  pub refund_credits :
      lookup order_id d.orders ≡ some order
      → (update_order_status order_id OrderStatus.refunded reason actor now d).0 ≡ ok result
      → let d' = (update_order_status order_id OrderStatus.refunded reason actor now d).1 in
        (one_of order.status (OrderStatus.paid ∷ OrderStatus.completed ∷ []) ≡ true)
        × (result ≡ moved order OrderStatus.refunded now)
        × (lookup order_id d'.orders ≡ some result)
        × ((u : ℕ)
            → balance_of (lookup u d'.ledger.wallets) ≡ (
                if u == order.user_id
                then balance_of (lookup u d.ledger.wallets) +ℤ pos order.total
                else balance_of (lookup u d.ledger.wallets)))
        × (d'.ledger.transactions
            ≡ entry order.user_id WalletTransactionType.refund
                (pos order.total)
                (some "order")
                (some order_id)
                (some "order refund")
                (some actor)
                d.ledger
              ∷ d.ledger.transactions)
        × (d'.stock ≡ d.stock)
  unfolding update_order_status admin_update_status refund_order has_part
  refund_credits found h =
      let moving = transition_lem order_id order OrderStatus.refunded (some actor) reason now d in
      let whole : has_part [] ≡ false = refl in
      let applied =
        apply_lem order.user_id WalletTransactionType.refund (toman order.total) (some "order")
          (some order_id) (some "order refund") (some actor) d.ledger whole in
      let written = lookup-insert_self order_id (moved order OrderStatus.refunded now) d.orders in
      (
        ground (arith, moving),
        ground (arith, moving, applied),
        ground (arith, moving, applied, written),
        λ u. ground (
          arith,
          moving,
          applied,
          lookup-insert order.user_id u
              (record {
                balance = balance_of (lookup order.user_id d.ledger.wallets) +ℤ pos order.total;
              })
              (insert_wallet order.user_id d.ledger).wallets,
          balance-insert_wallet order.user_id u d.ledger,
        ),
        ground (arith, moving, applied),
        ground (arith, moving, applied),
      )

  -- After a status change to `refunded` that does not raise, any further status change of the order
  -- is refused as a conflict and changes nothing: no order is refunded twice.
  pub refunded_once :
      lookup order_id d.orders ≡ some order
      → (update_order_status order_id OrderStatus.refunded reason actor now d).0 ≡ ok result
      → (new_status : OrderStatus) (reason' : Option String) (actor' now' : ℕ)
      → let d' = (update_order_status order_id OrderStatus.refunded reason actor now d).1 in
        update_order_status order_id new_status reason' actor' now' d' ≡ (err conflict, d')
  unfolding update_order_status admin_update_status
  refunded_once found h new_status reason' actor' now' =
      let (was, same, stored, credits, logged, stock) = refund_credits found h in
      let d' = (update_order_status order_id OrderStatus.refunded reason actor now d).1 in
      let moving = transition_lem order_id result new_status (some actor') reason' now' d' in
      ground (arith, moving)
