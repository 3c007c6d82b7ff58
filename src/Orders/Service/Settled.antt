-- ===== src/Orders/Service/Settled.antt =====
-- The parts of `mark_paid` and `mark_payment_failed` (modules/orders/service.py): the order found, and
-- the state that is left.
use electronic_shop.Base.{ℕ, ◌≡◌, inl, inr, Option-cases, Option, none, some, arith}
use electronic_shop.Base.Table.{lookup, lookup-insert_self}
use electronic_shop.Base.Exec.{ok}
use electronic_shop.Orders.Models.{OrderStatus, Order}
use electronic_shop.Orders.Service.{
  moved, mark_paid, mark_payment_failed, commit_items, release_items,
}
use electronic_shop.Orders.Service.Held.{
  transitioned, transition_lem, with_stock, paid_from, failed_from,
}
use electronic_shop.Database.{Database}

abbrev pub status_of : ℕ → Database → Option OrderStatus
status_of order_id d = elim (lookup order_id d.orders) [ none ↦ none | some o ↦ some o.status ]

module _ (order_id now : ℕ) (d : Database) {result : Order} where
  -- The order was there and waited for payment; it is stored with its new status, and the stock is
  -- what `commit_items` made of it.
  pub mark_paid_parts :
      (mark_paid order_id now d).0 ≡ ok result
      → (order : Order) × (lookup order_id d.orders ≡ some order)
        × (order.status ≡ OrderStatus.awaiting_payment)
        × ((commit_items order_id order.items d.stock).0 ≡ ok tt)
        × (result ≡ moved order OrderStatus.paid now)
        × ((mark_paid order_id now d).1
            ≡ transitioned order_id order OrderStatus.paid none
                (some "payment verified")
                now
                (with_stock (commit_items order_id order.items d.stock).1 d))
  unfolding mark_paid
  mark_paid_parts h = elim (Option-cases (lookup order_id d.orders)) [
    | inl e ↦ absurd (ground arith)
    | inr (order, e) ↦
        let moving =
          transition_lem order_id order OrderStatus.paid none (some "payment verified") now
            (with_stock (commit_items order_id order.items d.stock).1 d) in
        (
          order,
          e,
          ground (arith, moving, paid_from order.status),
          ground (arith, moving),
          ground (arith, moving),
          ground (arith, moving),
        )
  ]

  pub mark_payment_failed_parts :
      (mark_payment_failed order_id now d).0 ≡ ok result
      → (order : Order) × (lookup order_id d.orders ≡ some order)
        × (order.status ≡ OrderStatus.awaiting_payment)
        × ((release_items order_id order.items d.stock).0 ≡ ok tt)
        × (result ≡ moved order OrderStatus.payment_failed now)
        × ((mark_payment_failed order_id now d).1
            ≡ transitioned order_id order OrderStatus.payment_failed none
                (some "payment failed")
                now
                (with_stock (release_items order_id order.items d.stock).1 d))
  unfolding mark_payment_failed
  mark_payment_failed_parts h = elim (Option-cases (lookup order_id d.orders)) [
    | inl e ↦ absurd (ground arith)
    | inr (order, e) ↦
        let moving =
          transition_lem order_id order OrderStatus.payment_failed none (some "payment failed") now
            (with_stock (release_items order_id order.items d.stock).1 d) in
        (
          order,
          e,
          ground (arith, moving, failed_from order.status),
          ground (arith, moving),
          ground (arith, moving),
          ground (arith, moving),
        )
  ]

  pub mark_paid_moves :
      (mark_paid order_id now d).0 ≡ ok result
      → ((mark_paid order_id now d).1.payments ≡ d.payments)
        × (status_of order_id d ≡ some OrderStatus.awaiting_payment)
        × (status_of order_id (mark_paid order_id now d).1 ≡ some OrderStatus.paid)
  mark_paid_moves h =
      let (order, e, waiting, committed, returned, after) = mark_paid_parts h in
      let written = lookup-insert_self order_id (moved order OrderStatus.paid now) d.orders in
      (ground arith, ground arith, ground arith)

  pub mark_payment_failed_moves :
      (mark_payment_failed order_id now d).0 ≡ ok result
      → ((mark_payment_failed order_id now d).1.payments ≡ d.payments)
        × (status_of order_id d ≡ some OrderStatus.awaiting_payment)
        × (status_of order_id (mark_payment_failed order_id now d).1
            ≡ some OrderStatus.payment_failed)
  mark_payment_failed_moves h =
      let (order, e, waiting, committed, returned, after) = mark_payment_failed_parts h in
      let written =
        lookup-insert_self order_id (moved order OrderStatus.payment_failed now) d.orders in
      (ground arith, ground arith, ground arith)
