-- ===== src/Cart/Service/Adding.antt =====
-- `add_item` of modules/cart/service.py.
use electronic_shop.Base.{
  ℕ, ◌+◌, ◌≤◌, ◌≡◌, ◌↔◌, true, Option, none, some, [], arith, ◌==◌, if◌then◌else◌, get_or,
}
use electronic_shop.Base.Table.{lookup, lookup-insert}
use electronic_shop.Base.Exec.{ok, err, conflict}
use electronic_shop.Catalog.Models.{Product}
use electronic_shop.Cart.Models.{CartItems}
use electronic_shop.Cart.Service.{add_item, get_or_create, stock_of}
use electronic_shop.Database.{Database}

-- How much of a product a user's cart holds.
abbrev pub items_of : Option CartItems → CartItems
items_of none = []
items_of (some items) = items

abbrev pub in_cart : ℕ → ℕ → Database → ℕ
in_cart user_id product_id d = get_or (lookup product_id (items_of (lookup user_id d.carts))) 0

module _ (user_id product_id quantity : ℕ) (d : Database) {product : Product}
    (found : lookup product_id d.products ≡ some product) (active : product.is_active ≡ true) where
  -- For an active product, adding to the cart goes through exactly if the quantity in the cart
  -- afterwards is available; then that much more of the product is in the user's cart, and as much as
  -- before of every other product and in every other cart. It is refused as a conflict otherwise, and
  -- every cart holds what it held.
  pub add_item_outcome :
      let (r, d') = add_item user_id product_id quantity d in
      ((r ≡ ok tt) ↔ (quantity + in_cart user_id product_id d ≤ stock_of product_id d))
      × (r ≡ ok tt
          → (u j : ℕ)
          → in_cart u j d' ≡ (
              if u == user_id
              then (if j == product_id then quantity + in_cart u j d else in_cart u j d)
              else in_cart u j d))
      × (¬ (quantity + in_cart user_id product_id d ≤ stock_of product_id d)
          → (r ≡ err conflict) × ((u j : ℕ) → in_cart u j d' ≡ in_cart u j d))
  unfolding add_item get_or_create
  add_item_outcome = (
    (λ h. ground arith, λ h. ground arith),
    λ h u j. grind (arith, lookup-insert),
    λ h. (ground arith, λ u j. grind (arith, lookup-insert)),
  )
