-- ===== src/Tickets/Models.antt =====
-- backend/app/modules/tickets/models.py, and the rows that the audit log gets from the periodic task.
-- The texts of messages and subjects are kept as they are; points in time are seconds. `open` is
-- a word of the language here, hence `is_open`.
use electronic_shop.Base.{ℕ, String, Option, List}
use electronic_shop.Base.Table.{Table}

pub data TicketStatus : Type 0 where
  is_open waiting_for_support waiting_for_customer closed : TicketStatus

pub data TicketPriority : Type 0 where
  low normal high urgent : TicketPriority

pub data TicketMessageAuthorRole : Type 0 where
  customer support system : TicketMessageAuthorRole

pub record Ticket : Type 0 where
  pub user_id : ℕ
  pub subject : String
  pub status : TicketStatus
  pub priority : TicketPriority
  pub closed_at : Option ℕ
  pub last_response_at : ℕ

pub record TicketMessage : Type 0 where
  pub ticket_id : ℕ
  pub author_id : Option ℕ
  pub author_role : TicketMessageAuthorRole
  pub body : String
  pub created_at : ℕ

pub record AuditLog : Type 0 where
  pub actor_id : Option ℕ
  pub action : String
  pub resource_type : String
  pub resource_id : ℕ
  pub reason : String

-- The newest message and the newest log entry come first.
pub record Tickets : Type 0 where
  pub tickets : Table Ticket
  pub messages : List TicketMessage
  pub audit_logs : List AuditLog
