-- ===== src/Orders/Service.antt =====
-- backend/app/modules/orders/service.py, class OrderService. The identifier of a new order and the
-- time `now` of a call are arguments. The order object that a method changes is passed along, and
-- written to the table where the method changes its status; the Persian notes are in English.
pub mod Items
pub mod Checkout
pub mod Held
pub mod Placed
pub mod Settled
pub mod Closed
pub mod Ends
pub mod Overreleased
pub mod Shown
use electronic_shop.Base.{
  ℕ, ◌+◌, ◌*◌, String, Bool, true, false, not, ◌||◌, Option, none, some, List, [], ◌∷◌, ◌++◌, ◌==◌,
  if◌then◌else◌,
}
use electronic_shop.Base.Table.{lookup, insert}
use electronic_shop.Base.Exec.{
  Exec, conflict, not_found, permission_denied, internal_error, pure, gets, or_raise, raise_if,
  modify, when, ◌>>=◌, ◌>>◌,
}
use electronic_shop.Users.Models.{UserRole, User}
use electronic_shop.Catalog.Models.{Stock}
use electronic_shop.Catalog.Inventory.{reserve, release, commit_purchase}
use electronic_shop.Cart.Models.{CartItems}
use electronic_shop.Cart.Service.{effective_unit_price, get_or_create, clear}
use electronic_shop.Orders.Models.{
  OrderStatus, one_of, is_allowed, index, ShippingAddress, OrderItem, Order,
}
use electronic_shop.Database.{Database, in_stock}

abbrev pub set_order : ℕ → Order → Database → Database
set_order order_id order d = record d { orders = insert order_id order d.orders }

abbrev pub get_by_id : ℕ → Exec Database Order
get_by_id order_id = do or_raise (← gets (λ d. lookup order_id d.orders)) not_found

-- `if new_status == OrderStatus.cancelled: order.cancelled_at = …`
abbrev pub moved : Order → OrderStatus → ℕ → Order
moved order new_status now = record order {
  status = new_status;
  cancelled_at =
      if index new_status == index OrderStatus.cancelled then some now else order.cancelled_at;
}

-- `OrderService._transition`, on the order object; the new order is written.
unfoldable pub transition :
    ℕ → Order → OrderStatus → Option ℕ → Option String → ℕ → Exec Database Order
transition order_id order new_status actor_id note now = do
  raise_if (not (is_allowed order.status new_status)) conflict
  modify λ d. record (set_order order_id (moved order new_status now) d) {
    order_history =
        record {
          order_id = order_id;
          from_status = some order.status;
          to_status = new_status;
          actor_id = actor_id;
          note = note;
          created_at = now;
        }
        ∷ d.order_history;
  }
  pure (moved order new_status now)

-- The loop of `checkout` over the cart, on the subtotal and the order items so far.
unfoldable pub checkout_items :
    ℕ → ℕ → CartItems → ℕ → List OrderItem → Exec Database (ℕ × List OrderItem)
checkout_items order_id user_id [] subtotal items = pure (subtotal, items)
checkout_items order_id user_id ((product_id, quantity) ∷ rest) subtotal items = do
  product ← or_raise (← gets (λ d. lookup product_id d.products)) conflict
  raise_if (not product.is_active) conflict
  let unit_price = effective_unit_price product
  let item_subtotal = unit_price * quantity
  in_stock (reserve product_id quantity "order" order_id (some user_id))
  checkout_items order_id user_id rest (subtotal + item_subtotal) (
      items
      ++ record {
        product_id = some product_id;
        product_name_snapshot = product.name;
        sku_snapshot = product.sku;
        unit_price_snapshot = unit_price;
        quantity = quantity;
        subtotal = item_subtotal;
      }
        ∷ [])

abbrev pub is_empty : CartItems → Bool
is_empty [] = true
is_empty (x ∷ xs) = false

unfoldable pub checkout : ℕ → ℕ → Option ShippingAddress → ℕ → Exec Database Order
checkout order_id user_id shipping_address now = do
  cart ← get_or_create user_id
  raise_if (is_empty cart) conflict
  let order : Order = record {
    user_id = user_id;
    status = OrderStatus.pending;
    subtotal = 0;
    total = 0;
    shipping_address = shipping_address;
    cancelled_at = none;
    items = [];
  }
  modify (set_order order_id order)
  (subtotal, items) ← checkout_items order_id user_id cart 0 []
  transition order_id (record order { subtotal = subtotal; total = subtotal; items = items })
      OrderStatus.awaiting_payment (some user_id) none now
  clear user_id
  or_raise (← gets (λ d. lookup order_id d.orders)) internal_error

-- `for item in order.items: if item.product_id is not None: await method(…)`
unfoldable pub for_items : (ℕ → ℕ → Exec Stock (Unit {0})) → List OrderItem → Exec Stock (Unit {0})
for_items method [] = pure tt
for_items method (item ∷ items) = do
  elim item.product_id [ none ↦ pure tt | some product_id ↦ method product_id item.quantity ]
  for_items method items

unfoldable pub commit_items : ℕ → List OrderItem → Exec Stock (Unit {0})
unfolding for_items
commit_items order_id = for_items (λ p q. commit_purchase p q "order" order_id none)

unfoldable pub release_items : ℕ → List OrderItem → Exec Stock (Unit {0})
unfolding for_items
release_items order_id = for_items (λ p q. release p q "order" order_id none)

unfoldable pub mark_paid : ℕ → ℕ → Exec Database Order
mark_paid order_id now = do
  order ← get_by_id order_id
  in_stock (commit_items order_id order.items)
  transition order_id order OrderStatus.paid none (some "payment verified") now

unfoldable pub mark_payment_failed : ℕ → ℕ → Exec Database Order
mark_payment_failed order_id now = do
  order ← get_by_id order_id
  in_stock (release_items order_id order.items)
  transition order_id order OrderStatus.payment_failed none (some "payment failed") now

abbrev pub is_order_admin : UserRole → Bool
is_order_admin UserRole.admin = true
is_order_admin UserRole.super_admin = true
is_order_admin UserRole.support = false
is_order_admin UserRole.customer = false

-- `OrderService._authorize_access`
abbrev pub authorize_access : Order → User → Exec Database (Unit {0})
authorize_access order user =
    raise_if (not (order.user_id == user.id || is_order_admin user.role)) permission_denied

unfoldable pub cancel : ℕ → User → ℕ → Exec Database Order
cancel order_id user now = do
  order ← get_by_id order_id
  authorize_access order user
  when
      (one_of order.status
        (OrderStatus.pending ∷ OrderStatus.awaiting_payment ∷ OrderStatus.paid ∷ []))
      (in_stock (release_items order_id order.items))
  transition order_id order OrderStatus.cancelled (some user.id) (some "order cancelled") now

unfoldable pub admin_update_status : ℕ → OrderStatus → Option String → ℕ → ℕ → Exec Database Order
admin_update_status order_id new_status note actor_id now = do
  order ← get_by_id order_id
  transition order_id order new_status (some actor_id) note now

unfoldable pub get_for_user : ℕ → User → Exec Database Order
get_for_user order_id user = do order ← get_by_id order_id; authorize_access order user; pure order
