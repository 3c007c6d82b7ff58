-- ===== src/Orders/Models.antt =====
-- backend/app/modules/orders/models.py: the state machine of an order, and its rows. The items of an
-- order stand in its row, since nothing else refers to them; points in time are numbers.
use electronic_shop.Base.{ℕ, String, Bool, true, false, Option, List, [], ◌∷◌, ◌==◌, if◌then◌else◌}

pub data OrderStatus : Type 0 where
  pending awaiting_payment paid processing shipped completed : OrderStatus
  cancelled payment_failed refunded : OrderStatus

abbrev pub allowed_transitions : OrderStatus → List OrderStatus
allowed_transitions OrderStatus.pending = OrderStatus.awaiting_payment ∷ OrderStatus.cancelled ∷ []
allowed_transitions OrderStatus.awaiting_payment =
    OrderStatus.paid ∷ OrderStatus.payment_failed ∷ OrderStatus.cancelled ∷ []
allowed_transitions OrderStatus.paid =
    OrderStatus.processing ∷ OrderStatus.refunded ∷ OrderStatus.cancelled ∷ []
allowed_transitions OrderStatus.processing = OrderStatus.shipped ∷ OrderStatus.cancelled ∷ []
allowed_transitions OrderStatus.shipped = OrderStatus.completed ∷ []
allowed_transitions OrderStatus.completed = OrderStatus.refunded ∷ []
allowed_transitions OrderStatus.payment_failed =
    OrderStatus.awaiting_payment ∷ OrderStatus.cancelled ∷ []
allowed_transitions OrderStatus.cancelled = []
allowed_transitions OrderStatus.refunded = []

-- The members of the enumeration, numbered to be compared.
abbrev pub index : OrderStatus → ℕ
index OrderStatus.pending = 0
index OrderStatus.awaiting_payment = 1
index OrderStatus.paid = 2
index OrderStatus.processing = 3
index OrderStatus.shipped = 4
index OrderStatus.completed = 5
index OrderStatus.cancelled = 6
index OrderStatus.payment_failed = 7
index OrderStatus.refunded = 8

-- `status in statuses`
abbrev pub one_of : OrderStatus → List OrderStatus → Bool
one_of s [] = false
one_of s (t ∷ ts) = if index s == index t then true else one_of s ts

abbrev pub is_allowed : OrderStatus → OrderStatus → Bool
is_allowed from to = one_of to (allowed_transitions from)

pub record ShippingAddress : Type 0 where
  pub recipient_name : String
  pub province : String
  pub city : String
  pub address_line : String
  pub postal_code : String
  pub phone_number : String

pub record OrderItem : Type 0 where
  pub product_id : Option ℕ
  pub product_name_snapshot : String
  pub sku_snapshot : String
  pub unit_price_snapshot : ℕ
  pub quantity : ℕ
  pub subtotal : ℕ

pub record Order : Type 0 where
  pub user_id : ℕ
  pub status : OrderStatus
  pub subtotal : ℕ
  pub total : ℕ
  pub shipping_address : Option ShippingAddress
  pub cancelled_at : Option ℕ
  pub items : List OrderItem

pub record OrderStatusHistory : Type 0 where
  pub order_id : ℕ
  pub from_status : Option OrderStatus
  pub to_status : OrderStatus
  pub actor_id : Option ℕ
  pub note : Option String
  pub created_at : ℕ
