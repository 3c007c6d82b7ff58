-- ===== src/Orders/Service/Shown.antt =====
-- The cart's summary (modules/cart/service.py) against the order made of it (modules/orders/service.py).
use electronic_shop.Base.{ℕ, ◌+◌, ◌*◌, ◌≡◌, Option, some, List, [], ◌∷◌, ◌++◌, arith, refl}
use electronic_shop.Base.Table.{lookup}
use electronic_shop.Base.Exec.{ok}
use electronic_shop.Cart.Models.{CartItems}
use electronic_shop.Cart.Service.{
  effective_unit_price, get_or_create, CartItemPublic, CartSummary, public_item, summarize,
  get_summary,
}
use electronic_shop.Orders.Models.{Order, OrderItem, ShippingAddress}
use electronic_shop.Orders.Service.{set_order, checkout, checkout_items}
use electronic_shop.Orders.Service.Checkout.{checkout_items-step, snapshot, reserved_stock}
use electronic_shop.Orders.Service.Placed.{checkout_parts, draft}
use electronic_shop.Database.{Database}

-- The loops of the summary and of the checkout add up the same prices.
summarize-checkout_items :
    (order_id user_id : ℕ) (cart : CartItems) (subtotal : ℕ) (items : List OrderItem)
    (shown : List CartItemPublic) (d0 d : Database) {total : ℕ} {items' : List OrderItem}
    → d0.products ≡ d.products
    → (checkout_items order_id user_id cart subtotal items d).0 ≡ ok (total, items')
    → (summarize d0 cart (subtotal, shown)).0 ≡ total
unfolding summarize
summarize-checkout_items order_id user_id [] subtotal items shown d0 d same h =
    unfold checkout_items in ground arith
summarize-checkout_items order_id user_id ((p, q) ∷ cart) subtotal items shown d0 d same h =
    let (product, found, active, granted, step) =
      checkout_items-step order_id user_id p q cart subtotal items d h in
    let rest =
      summarize-checkout_items order_id user_id cart (subtotal + effective_unit_price product * q)
        (items ++ snapshot p q product ∷ []) (shown ++ public_item p q product d0 ∷ []) d0
        (reserved_stock order_id user_id p q d) same (rw step at h) in
    let shown_too : lookup p d0.products ≡ some product = rw same found in ground (arith, rest)

-- Where a checkout does not raise, the cart's summary before it showed as subtotal and as total
-- exactly what the order charges.
pub charged_as_shown :
    (order_id user_id : ℕ) (address : Option ShippingAddress) (now : ℕ) (d : Database)
    {result : Order}
    → (checkout order_id user_id address now d).0 ≡ ok result
    → (summary : CartSummary) × ((get_summary user_id d).0 ≡ ok summary)
      × (summary.subtotal ≡ result.total)
      × (summary.total ≡ result.total)
unfolding get_summary get_or_create
charged_as_shown order_id user_id address now d h =
    let (cart, e, total, items, done, returned, after) =
      checkout_parts order_id user_id address now d h in
    let sums =
      summarize-checkout_items order_id user_id cart 0 [] [] d
        (set_order order_id (draft order_id user_id address now d) d) refl done in
    (
      record {
        items = (summarize d cart (0, [])).1;
        subtotal = (summarize d cart (0, [])).0;
        total = (summarize d cart (0, [])).0;
      },
      ground arith,
      ground arith,
      ground arith,
    )
