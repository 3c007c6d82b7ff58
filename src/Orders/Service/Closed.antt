-- ===== src/Orders/Service/Closed.antt =====
-- Cancelled and refunded orders, under every method of modules/orders/service.py that changes a status.
use electronic_shop.Base.{ℕ, String, ◌≡◌, ◌≢◌, true, Option, some, [], ◌∷◌, arith}
use electronic_shop.Base.Table.{lookup}
use electronic_shop.Base.Exec.{ok}
use electronic_shop.Users.Models.{User}
use electronic_shop.Orders.Models.{OrderStatus, Order, one_of}
use electronic_shop.Orders.Service.{mark_paid, mark_payment_failed, cancel, admin_update_status}
use electronic_shop.Orders.Service.Held.{transition_lem}
use electronic_shop.Orders.Service.Settled.{mark_paid_parts, mark_payment_failed_parts}
use electronic_shop.Database.{Database}

module _ (order_id now : ℕ) (d : Database) {order : Order}
    (found : lookup order_id d.orders ≡ some order) where
  -- An order that is cancelled or refunded is never changed again: none of the four methods that
  -- change the status of a stored order ends without raising, whoever calls it.
  pub closed_refused :
      one_of order.status (OrderStatus.cancelled ∷ OrderStatus.refunded ∷ []) ≡ true
      → (result : Order)
      → ((mark_paid order_id now d).0 ≢ ok result)
        × ((mark_payment_failed order_id now d).0 ≢ ok result)
        × ((user : User) → (cancel order_id user now d).0 ≢ ok result)
        × ((new_status : OrderStatus) (reason : Option String) (actor : ℕ)
            → (admin_update_status order_id new_status reason actor now d).0 ≢ ok result)
  unfolding cancel admin_update_status
  closed_refused closed result = (
    λ h.
        let (o, e, waiting, done, returned, after) = mark_paid_parts order_id now d h in
        ground arith,
    λ h.
        let (o, e, waiting, done, returned, after) = mark_payment_failed_parts order_id now d h in
        ground arith,
    λ user h. ground (
      arith,
      transition_lem order_id order OrderStatus.cancelled (some user.id) (some "order cancelled")
          now d,
    ),
    λ new_status reason actor h.
        ground (arith, transition_lem order_id order new_status (some actor) reason now d),
  )
