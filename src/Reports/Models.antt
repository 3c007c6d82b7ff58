-- ===== src/Reports/Models.antt =====
-- backend/app/modules/reports/schemas.py, and the rows that the reports read, with the time at which each
-- was created. Points in time are seconds, dates are days, both from the epoch in UTC.
use electronic_shop.Base.{ℕ, String, List}
use electronic_shop.Base.Table.{Table}
use electronic_shop.Users.Models.{User}
use electronic_shop.Catalog.Models.{Category, Product, ProductInventory}
use electronic_shop.Cart.Models.{CartItems}
use electronic_shop.Orders.Models.{Order, OrderStatus}
use electronic_shop.Payments.Models.{Payment, PaymentStatus}
use electronic_shop.Wallet.Models.{WalletTransaction}
use electronic_shop.Tickets.Models.{Ticket, TicketStatus, AuditLog}

pub record Stamped (A : Type 0) : Type 0 where
  pub created_at : ℕ
  pub row : A

pub record DatedCart : Type 0 where
  pub updated_at : ℕ
  pub items : CartItems

pub record Records : Type 0 where
  pub users : List (Stamped User)
  pub categories : Table Category
  pub products : Table Product
  pub inventory : List ProductInventory
  pub orders : List (Stamped Order)
  pub payments : List (Stamped Payment)
  pub wallet_transactions : List WalletTransaction
  pub tickets : List (Stamped Ticket)
  pub audit_logs : List (Stamped AuditLog)
  pub carts : List DatedCart

pub data ReportRange : Type 0 where
  today seven_days thirty_days custom : ReportRange

pub record DashboardStats : Type 0 where
  pub total_users : ℕ
  pub active_users : ℕ
  pub new_users_today : ℕ
  pub total_products : ℕ
  pub low_stock_products : ℕ
  pub out_of_stock_products : ℕ
  pub total_orders : ℕ
  pub orders_today : ℕ
  pub pending_orders : ℕ
  pub completed_orders : ℕ
  pub cancelled_orders : ℕ
  pub successful_payments : ℕ
  pub failed_payments : ℕ
  pub total_sales : ℕ
  pub wallet_transactions : ℕ
  pub open_tickets : ℕ
  pub unanswered_tickets : ℕ
  pub closed_tickets : ℕ
  pub active_carts : ℕ
  pub abandoned_carts : ℕ

-- A point of a series, of counts or of amounts.
pub record DailyPoint : Type 0 where
  pub date : ℕ
  pub value : ℕ

pub record DashboardCharts : Type 0 where
  pub orders_per_day : List DailyPoint
  pub revenue_per_day : List DailyPoint
  pub registrations_per_day : List DailyPoint
  pub order_status_distribution : List (OrderStatus × ℕ)
  pub payment_status_distribution : List (PaymentStatus × ℕ)
  pub products_by_category : List (String × ℕ)
  pub ticket_status_distribution : List (TicketStatus × ℕ)

pub record SalesReport (D : Type 0) : Type 0 where
  pub order_count : ℕ
  pub total_revenue : ℕ
  pub average_order_value : D

pub record ProductsReport : Type 0 where
  pub total_active_products : ℕ
  pub low_stock_count : ℕ
  pub out_of_stock_count : ℕ

pub record PaymentsReport : Type 0 where
  pub verified_count : ℕ
  pub verified_amount : ℕ
  pub failed_count : ℕ

pub record TicketsReport : Type 0 where
  pub by_status : List (TicketStatus × ℕ)
  pub auto_closed_count : ℕ

pub record CategoryPerformanceItem : Type 0 where
  pub category_name : String
  pub order_item_count : ℕ
  pub revenue : ℕ

pub record AdminReport (D : Type 0) : Type 0 where
  pub range : ReportRange
  pub start_date : ℕ
  pub end_date : ℕ
  pub sales : SalesReport D
  pub orders_by_status : List (OrderStatus × ℕ)
  pub new_registrations : ℕ
  pub products : ProductsReport
  pub payments : PaymentsReport
  pub tickets : TicketsReport
  pub category_performance : List CategoryPerformanceItem
