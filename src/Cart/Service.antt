-- ===== src/Cart/Service.antt =====
-- backend/app/modules/cart/service.py, class CartService, over repository.py. `max(0, a - b)` is the
-- truncated `a - b`. The cart that the methods return is read again by their callers.
pub mod Adding
use electronic_shop.Base.{
  ℕ, ◌+◌, ◌-◌, ◌*◌, String, not, Option, none, some, List, [], ◌∷◌, ◌++◌, ltb, if◌then◌else◌,
  is_none, get_or,
}
use electronic_shop.Base.Table.{lookup, insert, erase}
use electronic_shop.Base.Exec.{
  Exec, conflict, not_found, pure, gets, or_raise, raise_if, modify, ◌>>=◌, ◌>>◌,
}
use electronic_shop.Catalog.Models.{Product, ProductInventory}
use electronic_shop.Cart.Models.{CartItems}
use electronic_shop.Database.{Database}

abbrev pub effective_unit_price : Product → ℕ
effective_unit_price product = get_or product.discount_price product.price

-- `product.inventory` is the row of product_inventory, if there is one.
abbrev pub available_stock : Option ProductInventory → ℕ
available_stock none = 0
available_stock (some inventory) = inventory.stock_total - inventory.stock_reserved

abbrev pub stock_of : ℕ → Database → ℕ
stock_of product_id d = available_stock (lookup product_id d.stock.inventory)

abbrev pub set_cart : ℕ → CartItems → Database → Database
set_cart user_id items d = record d { carts = insert user_id items d.carts }

-- `CartRepository.get_or_create`
unfoldable pub get_or_create : ℕ → Exec Database CartItems
get_or_create user_id d = elim (lookup user_id d.carts) [
  | some items ↦ pure items d
  | none ↦ (modify (set_cart user_id []) >> pure []) d
]

-- The update of an item that is there and the insertion of one that is not are both `insert`.
unfoldable pub add_item : ℕ → ℕ → ℕ → Exec Database (Unit {0})
unfolding get_or_create
add_item user_id product_id quantity = do
  product ← or_raise (← gets (λ d. lookup product_id d.products)) not_found
  raise_if (not product.is_active) not_found
  cart ← get_or_create user_id
  let new_quantity = quantity + get_or (lookup product_id cart) 0
  available ← gets (stock_of product_id)
  raise_if (ltb available new_quantity) conflict
  modify (set_cart user_id (insert product_id new_quantity cart))

unfoldable pub update_item : ℕ → ℕ → ℕ → Exec Database (Unit {0})
unfolding get_or_create
update_item user_id product_id quantity = do
  or_raise (← gets (λ d. lookup product_id d.products)) not_found
  available ← gets (stock_of product_id)
  raise_if (ltb available quantity) conflict
  cart ← get_or_create user_id
  raise_if (is_none (lookup product_id cart)) not_found
  modify (set_cart user_id (insert product_id quantity cart))

-- Where the item is not there, nothing is deleted, and `erase` leaves the cart as it is.
unfoldable pub remove_item : ℕ → ℕ → Exec Database (Unit {0})
unfolding get_or_create
remove_item user_id product_id = do
  cart ← get_or_create user_id
  modify (set_cart user_id (erase product_id cart))

unfoldable pub clear : ℕ → Exec Database (Unit {0})
unfolding get_or_create
clear user_id = do get_or_create user_id; modify (set_cart user_id [])

pub record CartItemPublic : Type 0 where
  pub product_id : ℕ
  pub name : String
  pub slug : String
  pub unit_price : ℕ
  pub quantity : ℕ
  pub subtotal : ℕ
  pub available_stock : ℕ

pub record CartSummary : Type 0 where
  pub items : List CartItemPublic
  pub subtotal : ℕ
  pub total : ℕ

abbrev pub public_item : ℕ → ℕ → Product → Database → CartItemPublic
public_item product_id quantity product d = record {
  product_id = product_id;
  name = product.name;
  slug = product.slug;
  unit_price = effective_unit_price product;
  quantity = quantity;
  subtotal = effective_unit_price product * quantity;
  available_stock = stock_of product_id d;
}

-- One pass of the loop, on the subtotal and the items so far: an item whose product is gone or
-- inactive is passed over.
abbrev pub add_public :
    Database → ℕ → ℕ → Option Product → ℕ × List CartItemPublic → ℕ × List CartItemPublic
add_public d product_id quantity none acc = acc
add_public d product_id quantity (some product) (subtotal, items) =
    if product.is_active
    then (
      subtotal + effective_unit_price product * quantity,
      items ++ public_item product_id quantity product d ∷ [],
    )
    else (subtotal, items)

unfoldable pub summarize : Database → CartItems → ℕ × List CartItemPublic → ℕ × List CartItemPublic
summarize d [] acc = acc
summarize d ((product_id, quantity) ∷ rest) acc =
    summarize d rest (add_public d product_id quantity (lookup product_id d.products) acc)

unfoldable pub get_summary : ℕ → Exec Database CartSummary
unfolding get_or_create summarize
get_summary user_id = do
  cart ← get_or_create user_id
  (subtotal, items) ← gets (λ d. summarize d cart (0, []))
  pure (record { items = items; subtotal = subtotal; total = subtotal })
