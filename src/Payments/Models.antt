-- ===== src/Payments/Models.antt =====
-- backend/app/modules/payments/models.py. The gateway's authorities and references are compared and
-- stored only, and are numbers; so is its raw response, which is stored only.
use electronic_shop.Base.{ℕ, String, Option}

pub data PaymentStatus : Type 0 where
  initiated pending verified failed : PaymentStatus

pub record Payment : Type 0 where
  pub order_id : ℕ
  pub user_id : ℕ
  pub gateway : String
  pub authority : Option ℕ
  pub amount : ℕ
  pub status : PaymentStatus
  pub reference_id : Option ℕ
  pub verified_at : Option ℕ
  pub raw_gateway_response : Option ℕ
