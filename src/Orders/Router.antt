-- ===== src/Orders/Router.antt =====
-- backend/app/modules/orders/router.py: the status change of an administrator, which refunds.
pub mod Refund
use electronic_shop.Base.{ℕ, String, Option, ◌==◌}
use electronic_shop.Base.Int.{pos}
use electronic_shop.Base.Exec.{Exec, pure, when, ◌>>=◌, ◌>>◌}
use electronic_shop.Base.Amount.{toman}
use electronic_shop.Wallet.Service.{refund_order}
use electronic_shop.Orders.Models.{OrderStatus, Order, index}
use electronic_shop.Orders.Service.{admin_update_status}
use electronic_shop.Database.{Database, in_ledger}

unfoldable pub update_order_status : ℕ → OrderStatus → Option String → ℕ → ℕ → Exec Database Order
update_order_status order_id new_status note user_id now = do
  order ← admin_update_status order_id new_status note user_id now
  when (index order.status == index OrderStatus.refunded)
      (in_ledger (refund_order order.user_id (toman order.total) order_id user_id) >> pure tt)
  pure order
