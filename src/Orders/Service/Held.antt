-- ===== src/Orders/Service/Held.antt =====
-- What the orders that are not paid yet hold of a product, against what its stock row has reserved,
-- for the methods of modules/orders/service.py.
use electronic_shop.Base.{
  ℕ, ◌+◌, ◌-◌, String, ◌≡◌, ◌≢◌, true, Option, none, some, [], ◌∷◌, arith, if◌then◌else◌,
}
use electronic_shop.Base.Table.{lookup, sum, sum-insert_old}
use electronic_shop.Base.Exec.{ok, err, conflict}
use electronic_shop.Users.Models.{User}
use electronic_shop.Catalog.Models.{Stock}
use electronic_shop.Catalog.Inventory.Reserved.{reserved_of, total_of}
use electronic_shop.Orders.Models.{OrderStatus, Order, one_of, is_allowed}
use electronic_shop.Orders.Service.{
  transition, moved, set_order, mark_paid, mark_payment_failed, cancel, admin_update_status,
  commit_items, release_items,
}
use electronic_shop.Orders.Service.Items.{
  quantity_of, reserved_of-release_items, reserved_of-commit_items, total_of-release_items,
  total_of-commit_items,
}
use electronic_shop.Database.{Database}

-- An order that is not paid yet holds its items.
abbrev pub order_held : ℕ → Order → ℕ
order_held j order =
    if one_of order.status (OrderStatus.pending ∷ OrderStatus.awaiting_payment ∷ [])
    then quantity_of j order.items
    else 0

-- The quantity of product `j` that all such orders hold.
abbrev pub held : ℕ → Database → ℕ
held j d = sum (order_held j) d.orders

-- The state after a status change that is allowed.
abbrev pub transitioned :
    ℕ → Order → OrderStatus → Option ℕ → Option String → ℕ → Database → Database
transitioned order_id order new_status actor note now d =
    record (set_order order_id (moved order new_status now) d) {
      order_history =
          record {
            order_id = order_id;
            from_status = some order.status;
            to_status = new_status;
            actor_id = actor;
            note = note;
            created_at = now;
          }
          ∷ d.order_history;
    }

pub transition_lem :
    (order_id : ℕ) (order : Order) (new_status : OrderStatus) (actor : Option ℕ)
    (reason : Option String) (now : ℕ) (d : Database)
    → transition order_id order new_status actor reason now d ≡ (
        if is_allowed order.status new_status
        then (
          ok (moved order new_status now),
          transitioned order_id order new_status actor reason now d,
        )
        else (err conflict, d))
unfolding transition
transition_lem order_id order new_status actor reason now d = ground arith

-- Only an order that waits for payment becomes paid, and only such a one fails.
pub paid_from :
    (s : OrderStatus) → is_allowed s OrderStatus.paid ≡ true → s ≡ OrderStatus.awaiting_payment
paid_from s h = ground arith

pub failed_from :
    (s : OrderStatus)
    → is_allowed s OrderStatus.payment_failed ≡ true
    → s ≡ OrderStatus.awaiting_payment
failed_from s h = ground arith

-- The sum over the orders after one of them has a new status.
pub held-moved :
    (j order_id : ℕ) (order : Order) (new_status : OrderStatus) (now : ℕ) (d : Database)
    → lookup order_id d.orders ≡ some order
    → held j (set_order order_id (moved order new_status now) d) + order_held j order
      ≡ held j d + order_held j (moved order new_status now)
held-moved j order_id order new_status now d found =
    sum-insert_old (order_held j) order_id (moved order new_status now) order d.orders found

abbrev pub with_stock : Stock → Database → Database
with_stock s d = record d { stock = s }

module _ (order_id now : ℕ) (d : Database) {order result : Order} (j : ℕ) where
  -- A payment that succeeds takes the order's items out of what is held, out of what is reserved
  -- and out of the stock.
  pub held-mark_paid :
      lookup order_id d.orders ≡ some order
      → (mark_paid order_id now d).0 ≡ ok result
      → let d' = (mark_paid order_id now d).1 in
        (held j d' + quantity_of j order.items ≡ held j d)
        × (reserved_of j d'.stock ≡ reserved_of j d.stock - quantity_of j order.items)
        × (total_of j d'.stock ≡ total_of j d.stock - quantity_of j order.items)
  unfolding mark_paid
  held-mark_paid found h =
      let moving =
        transition_lem order_id order OrderStatus.paid none (some "payment verified") now
          (with_stock (commit_items order_id order.items d.stock).1 d) in
      (
        ground (
          arith,
          moving,
          paid_from order.status,
          held-moved j order_id order OrderStatus.paid now d found,
        ),
        ground (arith, moving, reserved_of-commit_items order_id j order.items d.stock),
        ground (arith, moving, total_of-commit_items order_id j order.items d.stock),
      )

  -- A payment that fails takes the order's items out of what is held and out of what is reserved;
  -- the stock stays.
  pub held-mark_payment_failed :
      lookup order_id d.orders ≡ some order
      → (mark_payment_failed order_id now d).0 ≡ ok result
      → let d' = (mark_payment_failed order_id now d).1 in
        (held j d' + quantity_of j order.items ≡ held j d)
        × (reserved_of j d'.stock ≡ reserved_of j d.stock - quantity_of j order.items)
        × (total_of j d'.stock ≡ total_of j d.stock)
  unfolding mark_payment_failed
  held-mark_payment_failed found h =
      let moving =
        transition_lem order_id order OrderStatus.payment_failed none (some "payment failed") now
          (with_stock (release_items order_id order.items d.stock).1 d) in
      (
        ground (
          arith,
          moving,
          failed_from order.status,
          held-moved j order_id order OrderStatus.payment_failed now d found,
        ),
        ground (arith, moving, reserved_of-release_items order_id j order.items d.stock),
        ground (arith, moving, total_of-release_items order_id j order.items d.stock),
      )

  -- The cancellation of an order that is not paid takes what the order holds, which is nothing once
  -- its payment has failed, out of what is held and out of what is reserved; the stock stays.
  pub held-cancel :
      (user : User)
      → lookup order_id d.orders ≡ some order
      → order.status ≢ OrderStatus.paid
      → (cancel order_id user now d).0 ≡ ok result
      → let d' = (cancel order_id user now d).1 in
        (held j d' + order_held j order ≡ held j d)
        × (reserved_of j d'.stock ≡ reserved_of j d.stock - order_held j order)
        × (total_of j d'.stock ≡ total_of j d.stock)
  unfolding cancel
  held-cancel user found unpaid h =
      let released = with_stock (release_items order_id order.items d.stock).1 d in
      let moving =
        transition_lem order_id order OrderStatus.cancelled (some user.id) (some "order cancelled")
          now released in
      let staying =
        transition_lem order_id order OrderStatus.cancelled (some user.id) (some "order cancelled")
          now d in
      (
        ground
            (arith, moving, staying, held-moved j order_id order OrderStatus.cancelled now d found),
        ground (arith, moving, staying, reserved_of-release_items order_id j order.items d.stock),
        ground (arith, moving, staying, total_of-release_items order_id j order.items d.stock),
      )

-- An administrator's status change leaves the stock alone, and moves the order's items into or out of
-- what is held as the two statuses say.
pub held-admin_update_status :
    (order_id actor now : ℕ) (new_status : OrderStatus) (note : Option String) (d : Database)
    {order result : Order} (j : ℕ)
    → lookup order_id d.orders ≡ some order
    → (admin_update_status order_id new_status note actor now d).0 ≡ ok result
    → let d' = (admin_update_status order_id new_status note actor now d).1 in
      (held j d' + order_held j order ≡ held j d + order_held j (moved order new_status now))
      × (d'.stock ≡ d.stock)
unfolding admin_update_status
held-admin_update_status order_id actor now new_status note d {order} j found h =
    let moving = transition_lem order_id order new_status (some actor) note now d in
    (
      ground (arith, moving, held-moved j order_id order new_status now d found),
      ground (arith, moving),
    )
