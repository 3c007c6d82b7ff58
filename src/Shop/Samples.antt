-- ===== src/Shop/Samples.antt =====
-- A small shop: one product, one customer, one order, one payment.
use electronic_shop.Base.{ℕ, true, false, none, some, [], ◌∷◌}
use electronic_shop.Base.Int.{pos}
use electronic_shop.Users.Models.{UserRole, User}
use electronic_shop.Integrations.Zarinpal.{Settings}
use electronic_shop.Catalog.Models.{Product}
use electronic_shop.Wallet.Models.{WalletTransactionType, Ledger}
use electronic_shop.Orders.Models.{OrderStatus, Order, OrderItem}
use electronic_shop.Payments.Models.{PaymentStatus, Payment}
use electronic_shop.Database.{Database}

abbrev pub ledger : Ledger
ledger = record {
  wallets = (7, record { balance = pos 100 }) ∷ [];
  transactions =
      record {
        wallet_id = 7;
        type = WalletTransactionType.deposit;
        amount = pos 100;
        balance_after = pos 100;
        reference_type = none;
        reference_id = none;
        note = none;
        actor_id = none;
      }
      ∷ [];
}

abbrev pub customer : User
customer = record { id = 7; role = UserRole.customer; is_active = true }

abbrev pub phone : Product
phone = record {
  sku = "P-1";
  name = "phone";
  slug = "phone";
  short_description = "";
  description = "";
  price = 300;
  discount_price = some 250;
  brand = "b";
  category_id = 1;
  images = some [];
  specifications = some [];
  is_active = true;
  is_featured = false;
  is_popular = false;
}

-- The gateway hands out authority 55 and confirms every payment.
abbrev pub gateway : Settings
gateway = record {
  is_configured = true;
  post = λ c. some (record {
    status_code = 200;
    code = some 100;
    authority = some 55;
    ref_id = some 77;
    payload = 0;
  });
}

abbrev pub shop : Database
shop = record {
  categories =
      (
        1,
        record {
          parent_id = none;
          name = "phones";
          slug = "phones";
          is_active = true;
          sort_order = pos 0;
        },
      )
      ∷ [];
  products = (1, phone) ∷ [];
  stock = record {
    inventory = (1, record { stock_total = 5; stock_reserved = 0 }) ∷ [];
    history = [];
  };
  carts = [];
  orders = [];
  order_history = [];
  payments = [];
  ledger = ledger;
}

-- The customer has put two phones into the cart.
abbrev pub carted : Database
carted = record shop { carts = (7, (1, 2) ∷ []) ∷ [] }

abbrev pub order_item : OrderItem
order_item = record {
  product_id = some 1;
  product_name_snapshot = "phone";
  sku_snapshot = "P-1";
  unit_price_snapshot = 250;
  quantity = 2;
  subtotal = 500;
}

abbrev pub order_in : OrderStatus → Order
order_in status = record {
  user_id = 7;
  status = status;
  subtotal = 500;
  total = 500;
  shipping_address = none;
  cancelled_at = none;
  items = order_item ∷ [];
}

abbrev pub payment_in : PaymentStatus → Payment
payment_in status = record {
  order_id = 100;
  user_id = 7;
  gateway = "zarinpal";
  authority = some 55;
  amount = 500;
  status = status;
  reference_id = none;
  verified_at = none;
  raw_gateway_response = none;
}

-- The order and its payment, and what is reserved then.
abbrev pub ordered : OrderStatus → PaymentStatus → ℕ → Database
ordered order_status payment_status reserved = record shop {
  stock = record {
    inventory = (1, record { stock_total = 5; stock_reserved = reserved }) ∷ [];
    history = [];
  };
  orders = (100, order_in order_status) ∷ [];
  payments = (200, payment_in payment_status) ∷ [];
}

abbrev pub waiting : Database
waiting = ordered OrderStatus.awaiting_payment PaymentStatus.initiated 2
