-- ===== src/Cart/Models.antt =====
-- backend/app/modules/cart/models.py. A user has at most one cart (`user_id` is unique) and a cart
-- holds a product at most once (uq_cart_product), so a cart is a table of quantities by product.
use electronic_shop.Base.{ℕ}
use electronic_shop.Base.Table.{Table}

abbrev pub CartItems : Type 0
CartItems = Table ℕ
