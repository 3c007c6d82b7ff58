-- ===== src/Database.antt =====
-- The tables that the commerce services share, as one session sees them; the payments, and all that
-- precedes them, work on it. A service on a part of it is run by `in_stock` or `in_ledger`.
use electronic_shop.Base.{List}
use electronic_shop.Base.Table.{Table}
use electronic_shop.Base.Exec.{Exec, zoom}
use electronic_shop.Catalog.Models.{Category, Product, Stock}
use electronic_shop.Cart.Models.{CartItems}
use electronic_shop.Orders.Models.{Order, OrderStatusHistory}
use electronic_shop.Payments.Models.{Payment}
use electronic_shop.Wallet.Models.{Ledger}

pub record Database : Type 0 where
  pub categories : Table Category
  pub products : Table Product
  pub stock : Stock
  pub carts : Table CartItems
  pub orders : Table Order
  pub order_history : List OrderStatusHistory
  pub payments : Table Payment
  pub ledger : Ledger

abbrev pub in_stock : {A : Type 0} → Exec Stock A → Exec Database A
in_stock = zoom (λ d. d.stock) (λ s d. record d { stock = s })

abbrev pub in_ledger : {A : Type 0} → Exec Ledger A → Exec Database A
in_ledger = zoom (λ d. d.ledger) (λ l d. record d { ledger = l })
