-- ===== src/Orders/Service/Placed.antt =====
-- The state after a `checkout` (modules/orders/service.py) that does not raise.
use electronic_shop.Base.{
  ℕ, ◌+◌, ◌≤◌, ◌≡◌, ap, refl, inl, inr, Option-cases, Option, none, some, List, [], arith,
}
use electronic_shop.Base.Table.{
  lookup, insert, sum-insert_old, sum-insert_new, lookup-insert, lookup-insert_self,
}
use electronic_shop.Base.Exec.{Result, Result-cases, ok}
use electronic_shop.Catalog.Inventory.Reserved.{reserved_of, total_of}
use electronic_shop.Cart.Models.{CartItems}
use electronic_shop.Cart.Service.{get_or_create, clear, set_cart}
use electronic_shop.Orders.Models.{OrderStatus, Order, OrderItem, ShippingAddress}
use electronic_shop.Orders.Service.{moved, set_order, checkout, checkout_items}
use electronic_shop.Orders.Service.Items.{quantity_of, line_total}
use electronic_shop.Orders.Service.Checkout.{checkout_items-Charged}
use electronic_shop.Orders.Service.Held.{held, order_held, transitioned, transition_lem}
use electronic_shop.Database.{Database}

module _ (order_id user_id : ℕ) (address : Option ShippingAddress) (now : ℕ) (d : Database) where
  -- The order as it is first written.
  abbrev pub draft : Order
  draft = record {
    user_id = user_id;
    status = OrderStatus.pending;
    subtotal = 0;
    total = 0;
    shipping_address = address;
    cancelled_at = none;
    items = [];
  }

  abbrev loop : CartItems → Result (ℕ × List OrderItem) × Database
  loop cart = checkout_items order_id user_id cart 0 [] (set_order order_id draft d)

  abbrev filled : ℕ → List OrderItem → Order
  filled total items = record draft { subtotal = total; total = total; items = items }

  abbrev placed : ℕ → List OrderItem → Order
  placed total items = moved (filled total items) OrderStatus.awaiting_payment now

  -- The parts of a checkout that does not raise: a cart that is not empty, a loop over it that does
  -- not raise, and the writes after it.
  pub checkout_parts :
      {result : Order}
      → (checkout order_id user_id address now d).0 ≡ ok result
      → (cart : CartItems) × (lookup user_id d.carts ≡ some cart)
        × (total : ℕ) × (items : List OrderItem) × ((loop cart).0 ≡ ok (total, items))
        × (result ≡ placed total items)
        × ((checkout order_id user_id address now d).1
            ≡ set_cart user_id [] (
                transitioned order_id
                  (filled total items)
                  OrderStatus.awaiting_payment
                  (some user_id)
                  none
                  now
                  (loop cart).1))
  unfolding checkout get_or_create clear
  checkout_parts h = elim (Option-cases (lookup user_id d.carts)) [
    | inl e ↦ absurd (ground arith)
    | inr (cart, e) ↦ elim (Result-cases (loop cart).0) [
      | inl (x, failed) ↦ absurd (ground arith)
      | inr ((total, items), done) ↦
          let c =
            checkout_items-Charged order_id user_id cart 0 [] (set_order order_id draft d) done in
          let after = (loop cart).1 in
          let moving =
            transition_lem order_id (filled total items) OrderStatus.awaiting_payment (some user_id)
              none now after in
          let written = lookup-insert order_id order_id (placed total items) after.orders in
          let carts : after.carts ≡ d.carts = ap (λ (x : Database). x.carts) c.same in
          let cart_there : lookup user_id after.carts ≡ some cart = rw carts e in
          (cart, e, total, items, done, ground arith, ground arith)
    ]
  ]

  -- A checkout under a fresh identifier that does not raise returns the order that it stores: one that
  -- waits for payment and whose total is the sum of its items. The cart is empty afterwards, the
  -- order's items have been added to what is held and to what is reserved of every product, and the
  -- stock totals are as before.
  pub checkout_places :
      {result : Order}
      → lookup order_id d.orders ≡ none
      → (checkout order_id user_id address now d).0 ≡ ok result
      → let d' = (checkout order_id user_id address now d).1 in
        (lookup order_id d'.orders ≡ some result)
        × (result.status ≡ OrderStatus.awaiting_payment)
        × (result.total ≡ line_total result.items)
        × (lookup user_id d'.carts ≡ some [])
        × ((j : ℕ) → held j d' ≡ held j d + quantity_of j result.items)
        × ((j : ℕ) → reserved_of j d'.stock ≡ reserved_of j d.stock + quantity_of j result.items)
        × ((j : ℕ) → total_of j d'.stock ≡ total_of j d.stock)
  checkout_places {result} fresh h =
      let (cart, e, total, items, done, returned, after) = checkout_parts h in
      let c = checkout_items-Charged order_id user_id cart 0 [] (set_order order_id draft d) done in
      let orders : (loop cart).1.orders ≡ insert order_id draft d.orders =
        ap (λ (x : Database). x.orders) c.same in
      rw (after, returned)
        (
          lookup-insert_self order_id (placed total items) _,
          refl,
          omega (arith, c.charged),
          lookup-insert_self user_id [] _,
          λ j. rw orders (
              omega (
                arith,
                sum-insert_new (order_held j) order_id draft d.orders fresh,
                sum-insert_old (order_held j) order_id (placed total items) draft _
                    (lookup-insert_self order_id draft d.orders),
              )),
          λ j. omega (arith, c.reserved j),
          c.totals,
        )

  -- A checkout that does not raise leaves no product with more reserved than there is, if none was.
  pub fits-checkout :
      {result : Order}
      → (checkout order_id user_id address now d).0 ≡ ok result
      → ((j : ℕ) → reserved_of j d.stock ≤ total_of j d.stock)
      → (j : ℕ)
      → let d' = (checkout order_id user_id address now d).1 in
        reserved_of j d'.stock ≤ total_of j d'.stock
  fits-checkout h f =
      let (cart, e, total, items, done, returned, after) = checkout_parts h in
      let c = checkout_items-Charged order_id user_id cart 0 [] (set_order order_id draft d) done in
      rw after (c.fits f)
