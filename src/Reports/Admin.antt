-- ===== src/Reports/Admin.antt =====
-- `get_admin_report` (modules/reports/service.py).
use electronic_shop.Base.{
  ℕ, String, Bool, false, Option, none, some, List, [], ◌∷◌, ◌++◌, map, ◌==◌, same_text,
  if◌then◌else◌,
}
use electronic_shop.Base.Table.{lookup}
use electronic_shop.Orders.Models.{Order, OrderItem}
use electronic_shop.Payments.Models.{PaymentStatus, Payment}
use electronic_shop.Reports.Models.{
  Stamped, Records, ReportRange, SalesReport, CategoryPerformanceItem, AdminReport,
}
use electronic_shop.Reports.Queries.{
  sum_where, count_where, where_rows, group_sum, group_count, between,
}
use electronic_shop.Reports.Service.{
  resolve_range, is_low, is_out, is_sale, same_status, same_payment_status, same_ticket_status,
  category_name,
}

abbrev pub created_in : {A : Type 0} → ℕ → ℕ → Stamped A → Bool
created_in start end x = between start end x.created_at

abbrev pub sold_in : ℕ → ℕ → Stamped Order → Bool
sold_in start end order = if created_in start end order then is_sale order else false

abbrev pub verified_in : ℕ → ℕ → Stamped Payment → Bool
verified_in start end payment = elim payment.row.verified_at [
  | none ↦ false
  | some at ↦
      if between start end at
      then same_payment_status payment.row.status PaymentStatus.verified
      else false
]

abbrev pub failed_in : ℕ → ℕ → Stamped Payment → Bool
failed_in start end payment =
    if created_in start end payment
    then same_payment_status payment.row.status PaymentStatus.failed
    else false

-- The product's category in the join of an order's item.
abbrev pub item_category : Records → Option ℕ → List String
item_category r none = []
item_category r (some product_id) = elim (lookup product_id r.products) [
  | none ↦ []
  | some product ↦ category_name r product.category_id
]

abbrev pub with_amount : ℕ → List String → List (String × ℕ)
with_amount amount names = map (λ name. (name, amount)) names

unfoldable pub joined_items : Records → List OrderItem → List (String × ℕ)
joined_items r [] = []
joined_items r (item ∷ items) =
    with_amount item.subtotal (item_category r item.product_id) ++ joined_items r items

unfoldable pub joined_orders : Records → List (Stamped Order) → List (String × ℕ)
joined_orders r [] = []
joined_orders r (order ∷ orders) = joined_items r order.row.items ++ joined_orders r orders

abbrev pub performance : List (String × ℕ) → List CategoryPerformanceItem
performance items =
    map
      (λ (name, revenue). record {
        category_name = name;
        order_item_count = count_where (λ (other, amount). same_text other name) items;
        revenue = revenue;
      })
      (group_sum same_text (λ (name, amount). name) (λ (name, amount). amount) items)

module _ {D : Type 0} (divide : ℕ → ℕ → D) (decimal_zero : D) where
  abbrev pub sales_report : ℕ → ℕ → Records → SalesReport D
  sales_report start end r =
      let order_count = count_where (sold_in start end) r.orders in
      let total_revenue = sum_where (sold_in start end) (λ o. o.row.total) r.orders in
      record {
        order_count = order_count;
        total_revenue = total_revenue;
        average_order_value =
            if order_count == 0 then decimal_zero else divide total_revenue order_count;
      }

  abbrev pub report_between : ReportRange → ℕ → ℕ → Records → AdminReport D
  report_between range start end r = record {
    range = range;
    start_date = start;
    end_date = end;
    sales = sales_report start end r;
    orders_by_status =
        group_count same_status (λ o. o.row.status) (where_rows (created_in start end) r.orders);
    new_registrations = count_where (created_in start end) r.users;
    products = record {
      total_active_products = count_where (λ (id, product). product.is_active) r.products;
      low_stock_count = count_where is_low r.inventory;
      out_of_stock_count = count_where is_out r.inventory;
    };
    payments = record {
      verified_count = count_where (verified_in start end) r.payments;
      verified_amount = sum_where (verified_in start end) (λ p. p.row.amount) r.payments;
      failed_count = count_where (failed_in start end) r.payments;
    };
    tickets = record {
      by_status =
          group_count same_ticket_status (λ t. t.row.status)
            (where_rows (created_in start end) r.tickets);
      auto_closed_count =
          count_where
            (λ a.
              if same_text a.row.action "ticket.auto_closed" then created_in start end a else false)
            r.audit_logs;
    };
    category_performance = performance (joined_orders r (where_rows (sold_in start end) r.orders));
  }

  unfoldable pub get_admin_report :
      ReportRange → Option ℕ → Option ℕ → ℕ → Records → Option (AdminReport D)
  get_admin_report range start_date end_date now r =
      elim (resolve_range range start_date end_date now) [
        | none ↦ none
        | some (start, end) ↦ some (report_between range start end r)
      ]
