-- ===== src/Reports/Service.antt =====
-- backend/app/modules/reports/service.py. The time of the request is an argument, and so is the division
-- of the average, whose rounding is that of the decimal numbers of the language. The rows of a query
-- without an order are in the order of the table here.
use electronic_shop.Base.{
  ℕ, zero, suc, ◌+◌, ◌-◌, ◌*◌, ◌/◌, String, Bool, false, not, Option, none, some, List, [], ◌∷◌,
  ◌++◌, ◌==◌, same_text, if◌then◌else◌, ltb, leb, get_or, length,
}
use electronic_shop.Base.Table.{Table, lookup}
use electronic_shop.Catalog.Models.{Product, ProductInventory}
use electronic_shop.Orders.Models.{OrderStatus, index, one_of, Order}
use electronic_shop.Payments.Models.{PaymentStatus}
use electronic_shop.Tickets.Models.{TicketStatus}
use electronic_shop.Reports.Models.{
  Stamped, DatedCart, Records, ReportRange, DashboardStats, DailyPoint, DashboardCharts,
}
use electronic_shop.Reports.Queries.{
  sum_where, count_where, where_rows, every, group_sum, group_count,
}

abbrev pub day_length : ℕ
day_length = 86400

abbrev pub date_of : ℕ → ℕ
date_of t = t / day_length

abbrev pub abandoned_cart_age : ℕ
abandoned_cart_age = 86400

abbrev pub completed_order_statuses : List OrderStatus
completed_order_statuses =
    OrderStatus.paid ∷ OrderStatus.processing ∷ OrderStatus.shipped ∷ OrderStatus.completed ∷ []

abbrev pub pending_order_statuses : List OrderStatus
pending_order_statuses = OrderStatus.pending ∷ OrderStatus.awaiting_payment ∷ []

abbrev pub payment_index : PaymentStatus → ℕ
payment_index PaymentStatus.initiated = 0
payment_index PaymentStatus.pending = 1
payment_index PaymentStatus.verified = 2
payment_index PaymentStatus.failed = 3

abbrev pub ticket_index : TicketStatus → ℕ
ticket_index TicketStatus.is_open = 0
ticket_index TicketStatus.waiting_for_support = 1
ticket_index TicketStatus.waiting_for_customer = 2
ticket_index TicketStatus.closed = 3

abbrev pub same_status : OrderStatus → OrderStatus → Bool
same_status s t = index s == index t

abbrev pub same_payment_status : PaymentStatus → PaymentStatus → Bool
same_payment_status s t = payment_index s == payment_index t

abbrev pub same_ticket_status : TicketStatus → TicketStatus → Bool
same_ticket_status s t = ticket_index s == ticket_index t

abbrev pub today_start : ℕ → ℕ
today_start now = date_of now * day_length

-- `none` for the `ValueError`. The last second of a day stands for its `time.max`.
abbrev pub resolve_custom : Option ℕ → Option ℕ → Option (ℕ × ℕ)
resolve_custom none end = none
resolve_custom (some start) none = none
resolve_custom (some start) (some end) =
    some (start * day_length, end * day_length + (day_length - 1))

unfoldable pub resolve_range : ReportRange → Option ℕ → Option ℕ → ℕ → Option (ℕ × ℕ)
resolve_range ReportRange.today start_date end_date now = some (today_start now, now)
resolve_range ReportRange.seven_days start_date end_date now =
    some (today_start now - 6 * day_length, now)
resolve_range ReportRange.thirty_days start_date end_date now =
    some (today_start now - 29 * day_length, now)
resolve_range ReportRange.custom start_date end_date now = resolve_custom start_date end_date

-- `stock_total - stock_reserved > 0` and `<= 5`; `stock_total - stock_reserved <= 0`
abbrev pub is_low : ProductInventory → Bool
is_low row =
    if ltb row.stock_reserved row.stock_total
    then leb row.stock_total (row.stock_reserved + 5)
    else false

abbrev pub is_out : ProductInventory → Bool
is_out row = leb row.stock_total row.stock_reserved

abbrev pub is_sale : Stamped Order → Bool
is_sale order = one_of order.row.status completed_order_statuses

abbrev pub has_status : OrderStatus → Stamped Order → Bool
has_status status order = same_status order.row.status status

abbrev pub since : {A : Type 0} → ℕ → Stamped A → Bool
since start x = leb start x.created_at

abbrev pub has_items : DatedCart → Bool
has_items cart = not (length cart.items == 0)

unfoldable pub get_dashboard_stats : ℕ → Records → DashboardStats
get_dashboard_stats now r = record {
  total_users = count_where every r.users;
  active_users = count_where (λ u. u.row.is_active) r.users;
  new_users_today = count_where (since (today_start now)) r.users;
  total_products = count_where every r.products;
  low_stock_products = count_where is_low r.inventory;
  out_of_stock_products = count_where is_out r.inventory;
  total_orders = count_where every r.orders;
  orders_today = count_where (since (today_start now)) r.orders;
  pending_orders = count_where (λ o. one_of o.row.status pending_order_statuses) r.orders;
  completed_orders = count_where (has_status OrderStatus.completed) r.orders;
  cancelled_orders = count_where (has_status OrderStatus.cancelled) r.orders;
  successful_payments =
      count_where (λ p. same_payment_status p.row.status PaymentStatus.verified) r.payments;
  failed_payments =
      count_where (λ p. same_payment_status p.row.status PaymentStatus.failed) r.payments;
  total_sales = sum_where is_sale (λ o. o.row.total) r.orders;
  wallet_transactions = count_where every r.wallet_transactions;
  open_tickets =
      count_where (λ t. not (same_ticket_status t.row.status TicketStatus.closed)) r.tickets;
  unanswered_tickets =
      count_where (λ t. same_ticket_status t.row.status TicketStatus.waiting_for_support) r.tickets;
  closed_tickets = count_where (λ t. same_ticket_status t.row.status TicketStatus.closed) r.tickets;
  active_carts = count_where has_items r.carts;
  abandoned_carts =
      count_where (λ c. if has_items c then ltb (c.updated_at + abandoned_cart_age) now else false)
        r.carts;
}

-- `_fill_daily_series` from its first date on, for a number of days; `raw.get(date, 0)`.
unfoldable pub series_from : Table ℕ → ℕ → ℕ → List DailyPoint
series_from raw start zero = []
series_from raw start (suc days) =
    record { date = start; value = get_or (lookup start raw) 0 } ∷ series_from raw (suc start) days

abbrev pub first_date : ℕ → ℕ → ℕ
first_date days today = today - (days - 1)

abbrev pub fill_daily_series : Table ℕ → ℕ → ℕ → List DailyPoint
fill_daily_series raw days today = series_from raw (first_date days today) days

abbrev pub created_date : {A : Type 0} → Stamped A → ℕ
created_date x = date_of x.created_at

-- The name of a category in a join, which leaves out what is missing.
abbrev pub category_name : Records → ℕ → List String
category_name r category_id = elim (lookup category_id r.categories) [
  | none ↦ []
  | some category ↦ category.name ∷ []
]

unfoldable pub product_categories : Records → Table Product → List String
product_categories r [] = []
product_categories r ((id, product) ∷ rest) =
    category_name r product.category_id ++ product_categories r rest

unfoldable pub get_dashboard_charts : ℕ → ℕ → Records → DashboardCharts
get_dashboard_charts days now r =
    let today = date_of now in
    let window_start = first_date days today * day_length in
    record {
      orders_per_day =
          fill_daily_series
            (group_count ◌==◌ created_date (where_rows (since window_start) r.orders)) days today;
      revenue_per_day =
          fill_daily_series
            (group_sum ◌==◌ created_date (λ o. o.row.total)
              (where_rows (λ o. if since window_start o then is_sale o else false) r.orders))
            days today;
      registrations_per_day =
          fill_daily_series
            (group_count ◌==◌ created_date (where_rows (since window_start) r.users)) days today;
      order_status_distribution = group_count same_status (λ o. o.row.status) r.orders;
      payment_status_distribution = group_count same_payment_status (λ p. p.row.status) r.payments;
      products_by_category = group_count same_text (λ name. name) (product_categories r r.products);
      ticket_status_distribution = group_count same_ticket_status (λ t. t.row.status) r.tickets;
    }
