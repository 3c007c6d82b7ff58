-- ===== src/Shop.antt =====
-- The requests that the routers of the commerce modules serve, each in a transaction of its own, and
-- any sequence of them. A request's arguments are what the client, the clock, the generator of
-- identifiers and the payment gateway contribute to it.
pub mod Sound
pub mod Keeps
pub mod Served
pub mod Traces
pub mod Samples
mod Settlements
mod Callbacks
mod Services
mod Listings
mod Members
mod Guards
mod SignIns
mod Summaries
mod Examples
use electronic_shop.Base.{ℕ, String, Bool, Option, some, List, [], ◌∷◌}
use electronic_shop.Base.Int.{ℤ}
use electronic_shop.Base.Exec.{Exec, transaction, pure, ◌>>◌}
use electronic_shop.Integrations.Zarinpal.{Settings}
use electronic_shop.Users.Models.{User}
use electronic_shop.Catalog.Inventory.{restock, adjust}
use electronic_shop.Cart.Service
use electronic_shop.Base.Amount.{Decimal}
use electronic_shop.Wallet.Service.{deposit, admin_credit, admin_debit}
use electronic_shop.Orders.Models.{OrderStatus, ShippingAddress}
use electronic_shop.Orders.Service.{checkout, cancel}
use electronic_shop.Orders.Router.{update_order_status}
use electronic_shop.Payments.Service.{init_payment, handle_callback}
use electronic_shop.Database.{Database, in_stock, in_ledger}

pub data Request : Type 0 where
  add_item update_item : ℕ → ℕ → ℕ → Request
  remove_item : ℕ → ℕ → Request
  clear_cart : ℕ → Request
  place_order : ℕ → ℕ → Option ShippingAddress → ℕ → Request
  cancel_order : ℕ → User → ℕ → Request
  set_status : ℕ → OrderStatus → Option String → ℕ → ℕ → Request
  start_payment : Settings → ℕ → User → ℕ → Request
  call_back : Settings → ℕ → Bool → ℕ → Request
  restock_product adjust_product : ℕ → ℤ → ℕ → Request
  deposit_money : ℕ → Decimal → Request
  credit_money debit_money : ℕ → Decimal → String → ℕ → Request

-- The response body is left out.
abbrev pub ending : {S A : Type 0} → Exec S A → Exec S (Unit {0})
ending m = m >> pure tt

unfoldable pub handle : Request → Exec Database (Unit {0})
handle (Request.add_item user product n) = Service.add_item user product n
handle (Request.update_item user product n) = Service.update_item user product n
handle (Request.remove_item user product) = Service.remove_item user product
handle (Request.clear_cart user) = Service.clear user
handle (Request.place_order order user address now) = ending (checkout order user address now)
handle (Request.cancel_order order user now) = ending (cancel order user now)
handle (Request.set_status order status note actor now) =
    ending (update_order_status order status note actor now)
handle (Request.start_payment settings payment user order) =
    ending (init_payment settings payment user order)
handle (Request.call_back settings authority gateway_ok now) =
    ending (handle_callback settings authority gateway_ok now)
handle (Request.restock_product product delta actor) = in_stock (restock product delta (some actor))
handle (Request.adjust_product product delta actor) = in_stock (adjust product delta (some actor))
handle (Request.deposit_money user n) = ending (in_ledger (deposit user n))
handle (Request.credit_money user n reason actor) =
    ending (in_ledger (admin_credit user n reason actor))
handle (Request.debit_money user n reason actor) =
    ending (in_ledger (admin_debit user n reason actor))

unfoldable pub serve : List Request → Database → Database
serve [] d = d
serve (r ∷ rs) d = serve rs (transaction (handle r) d).1
