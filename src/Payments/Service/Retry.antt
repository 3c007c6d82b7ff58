-- ===== src/Payments/Service/Retry.antt =====
-- `init_payment` of modules/payments/service.py for an order whose payment has failed before, and the
-- callback of the new payment.
use electronic_shop.Base.{ℕ, some}
use electronic_shop.Users.Models.{User}
use electronic_shop.Integrations.Zarinpal.{Settings}
use electronic_shop.Orders.Models.{Order}
use electronic_shop.Payments.Models.{Payment}
use electronic_shop.Payments.Service.{new_payment, set_payment}
use electronic_shop.Database.{Database}

module _ (settings : Settings) (payment_id order_id authority : ℕ) (user : User) (order : Order)
    (d : Database) where
  abbrev stored : Payment
  stored = record (new_payment order_id user order) { authority = some authority }

  abbrev before : Database
  before = set_payment payment_id (new_payment order_id user order) d
