-- ===== src/Orders/Service/Overreleased.antt =====
-- `cancel` of modules/orders/service.py, on an order that is paid already.
use electronic_shop.Base.{ℕ, ◌+◌, ◌-◌, ◌≡◌, refl, ◌∙◌, none, some, arith}
use electronic_shop.Base.Table.{lookup, lookup-insert}
use electronic_shop.Base.Exec.{ok}
use electronic_shop.Users.Models.{User}
use electronic_shop.Catalog.Inventory.Reserved.{reserved_of, total_of}
use electronic_shop.Orders.Models.{OrderStatus, Order}
use electronic_shop.Orders.Service.{moved, mark_paid, cancel, commit_items, release_items}
use electronic_shop.Orders.Service.Items.{
  quantity_of, reserved_of-release_items, total_of-release_items,
}
use electronic_shop.Orders.Service.Held.{
  held, held-moved, held-mark_paid, transition_lem, with_stock,
}
use electronic_shop.Database.{Database}

-- The cancellation of a paid order takes its items out of what is reserved, not of what is held.
cancelled_paid :
    (order_id now : ℕ) (d : Database) {order result : Order} (user : User) (j : ℕ)
    → lookup order_id d.orders ≡ some order
    → order.status ≡ OrderStatus.paid
    → (cancel order_id user now d).0 ≡ ok result
    → let d' = (cancel order_id user now d).1 in
      (held j d' ≡ held j d)
      × (reserved_of j d'.stock ≡ reserved_of j d.stock - quantity_of j order.items)
      × (total_of j d'.stock ≡ total_of j d.stock)
      × (d'.ledger ≡ d.ledger)
unfolding cancel
cancelled_paid order_id now d {order} user j found paid h =
    let released = with_stock (release_items order_id order.items d.stock).1 d in
    let moving =
      transition_lem order_id order OrderStatus.cancelled (some user.id) (some "order cancelled")
        now released in
    (
      ground (arith, moving, held-moved j order_id order OrderStatus.cancelled now d found),
      ground (arith, moving, reserved_of-release_items order_id j order.items d.stock),
      ground (arith, moving, total_of-release_items order_id j order.items d.stock),
      ground (arith, moving),
    )

mark_paid_row :
    (order_id now : ℕ) (d : Database) {order result : Order}
    → lookup order_id d.orders ≡ some order
    → (mark_paid order_id now d).0 ≡ ok result
    → let d' = (mark_paid order_id now d).1 in
      (lookup order_id d'.orders ≡ some (moved order OrderStatus.paid now)) × (d'.ledger ≡ d.ledger)
unfolding mark_paid
mark_paid_row order_id now d {order} found h =
    let moving =
      transition_lem order_id order OrderStatus.paid none (some "payment verified") now
        (with_stock (commit_items order_id order.items d.stock).1 d) in
    (
      ground (
        arith,
        moving,
        lookup-insert order_id order_id (moved order OrderStatus.paid now) d.orders,
      ),
      ground (arith, moving),
    )

-- An order that is marked as paid and then cancelled, where both go through, takes its items once out
-- of what the orders that wait for payment hold, but twice out of what is reserved of each product,
-- as far as so much is reserved. The stock has lost the items all the same, and no wallet is paid back.
pub cancel_overreleases :
    (order_id paid_at now : ℕ) (d : Database) {order paid result : Order} (user : User) (j : ℕ)
    → lookup order_id d.orders ≡ some order
    → (mark_paid order_id paid_at d).0 ≡ ok paid
    → (cancel order_id user now (mark_paid order_id paid_at d).1).0 ≡ ok result
    → let d' = (cancel order_id user now (mark_paid order_id paid_at d).1).1 in
      (held j d' + quantity_of j order.items ≡ held j d)
      × (reserved_of j d'.stock
          ≡ (reserved_of j d.stock - quantity_of j order.items) - quantity_of j order.items)
      × (total_of j d'.stock ≡ total_of j d.stock - quantity_of j order.items)
      × (d'.ledger ≡ d.ledger)
cancel_overreleases order_id paid_at now d {order} user j found paying cancelling =
    let (row, ledger) = mark_paid_row order_id paid_at d found paying in
    let (held_once, reserved_once, total_once) = held-mark_paid order_id paid_at d j found paying in
    let (held_same, reserved_again, total_same, ledger_same) =
      cancelled_paid order_id now (mark_paid order_id paid_at d).1 user j row refl cancelling in
    (
      rw held_same held_once,
      rw (reserved_again, reserved_once) refl,
      total_same ∙ total_once,
      ledger_same ∙ ledger,
    )
