-- ===== src/Shop/Summaries.antt =====
-- The theorem on the reports at the records of a small shop.
use electronic_shop.Base.{ℕ, ◌≡◌, some, [], ◌∷◌, arith}
use electronic_shop.Orders.Models.{OrderStatus}
use electronic_shop.Reports.Models.{Records, ReportRange, AdminReport}
use electronic_shop.Reports.Service.{date_of, first_date, get_dashboard_charts}
use electronic_shop.Reports.Admin.{get_admin_report}
use electronic_shop.Reports.Series.{total_of, total_in}
use electronic_shop.Reports.Agreement.{charts_agree}
use electronic_shop.Shop.Samples.{shop, order_in}

-- Two orders on the second day, one of them paid, and one on the third.
abbrev records : Records
records = record {
  users = [];
  categories = shop.categories;
  products = shop.products;
  inventory = [];
  orders =
      record { created_at = 90000; row = order_in OrderStatus.paid }
      ∷ record { created_at = 90100; row = order_in OrderStatus.cancelled }
      ∷ record { created_at = 180000; row = order_in OrderStatus.shipped }
      ∷ [];
  payments = [];
  wallet_transactions = [];
  tickets = [];
  audit_logs = [];
  carts = [];
}

abbrev quotient : ℕ → ℕ → ℕ × ℕ
quotient n m = (n, m)

charts_agree_example :
    (report : AdminReport (ℕ × ℕ)) × (get_admin_report quotient
        (0, 1)
        ReportRange.custom
        (some (first_date 2 (date_of 190000)))
        (some (date_of 190000))
        190000
        records
      ≡ some report)
    × (total_of (get_dashboard_charts 2 190000 records).revenue_per_day
        ≡ report.sales.total_revenue)
    × (total_of (get_dashboard_charts 2 190000 records).orders_per_day
        ≡ total_in report.orders_by_status)
charts_agree_example = charts_agree quotient (0, 1) 2 190000 records (omega arith) (omega arith)
