-- ===== src/Tickets/Service.antt =====
-- backend/app/modules/tickets/service.py, class TicketService. The identifier of a new ticket and the
-- time of a call are arguments.
pub mod Replies
use electronic_shop.Base.{
  ℕ, String, Bool, true, false, not, Option, none, some, ◌∷◌, ◌==◌, ◌||◌, if◌then◌else◌,
}
use electronic_shop.Base.Table.{lookup, insert}
use electronic_shop.Base.Exec.{
  Exec, conflict, not_found, permission_denied, pure, gets, or_raise, raise_if, modify, ◌>>=◌, ◌>>◌,
}
use electronic_shop.Users.Models.{UserRole, User}
use electronic_shop.Tickets.Models.{
  TicketStatus, TicketPriority, TicketMessageAuthorRole, Ticket, TicketMessage, Tickets,
}

abbrev pub index : TicketStatus → ℕ
index TicketStatus.is_open = 0
index TicketStatus.waiting_for_support = 1
index TicketStatus.waiting_for_customer = 2
index TicketStatus.closed = 3

-- `_SUPPORT_ROLES`
abbrev pub is_support : UserRole → Bool
is_support UserRole.customer = false
is_support UserRole.support = true
is_support UserRole.admin = true
is_support UserRole.super_admin = true

abbrev pub set_ticket : ℕ → Ticket → Tickets → Tickets
set_ticket ticket_id ticket s = record s { tickets = insert ticket_id ticket s.tickets }

abbrev pub add_message : TicketMessage → Tickets → Tickets
add_message message s = record s { messages = message ∷ s.messages }

abbrev pub get_by_id : ℕ → Exec Tickets Ticket
get_by_id ticket_id = do or_raise (← gets (λ s. lookup ticket_id s.tickets)) not_found

unfoldable pub create : ℕ → ℕ → String → String → TicketPriority → ℕ → Exec Tickets Ticket
create ticket_id user_id subject message priority now = do
  let ticket : Ticket = record {
    user_id = user_id;
    subject = subject;
    status = TicketStatus.waiting_for_support;
    priority = priority;
    closed_at = none;
    last_response_at = now;
  }
  modify (set_ticket ticket_id ticket)
  modify (
      add_message (record {
        ticket_id = ticket_id;
        author_id = some user_id;
        author_role = TicketMessageAuthorRole.customer;
        body = message;
        created_at = now;
      }))
  pure ticket

unfoldable pub get_for_user : ℕ → User → Exec Tickets Ticket
get_for_user ticket_id user = do
  ticket ← get_by_id ticket_id
  raise_if (not (ticket.user_id == user.id || is_support user.role)) permission_denied
  pure ticket

-- Both kinds of reply: the message, the new status and the time of the response.
abbrev pub reply :
    ℕ → Ticket → ℕ → TicketMessageAuthorRole → String → TicketStatus → ℕ → Exec Tickets Ticket
reply ticket_id ticket author_id author_role body status now = do
  let answered = record ticket { status = status; last_response_at = now }
  modify (
      add_message (record {
        ticket_id = ticket_id;
        author_id = some author_id;
        author_role = author_role;
        body = body;
        created_at = now;
      }))
  modify (set_ticket ticket_id answered)
  pure answered

unfoldable pub add_customer_reply : ℕ → User → String → ℕ → Exec Tickets Ticket
unfolding get_for_user
add_customer_reply ticket_id user body now = do
  ticket ← get_for_user ticket_id user
  raise_if (not (ticket.user_id == user.id)) permission_denied
  raise_if (index ticket.status == index TicketStatus.closed) conflict
  reply ticket_id ticket user.id TicketMessageAuthorRole.customer body
      TicketStatus.waiting_for_support now

unfoldable pub add_support_reply : ℕ → User → String → ℕ → Exec Tickets Ticket
add_support_reply ticket_id actor body now = do
  ticket ← get_by_id ticket_id
  raise_if (index ticket.status == index TicketStatus.closed) conflict
  reply ticket_id ticket actor.id TicketMessageAuthorRole.support body
      TicketStatus.waiting_for_customer now

unfoldable pub change_status : ℕ → TicketStatus → ℕ → Exec Tickets Ticket
change_status ticket_id new_status now = do
  ticket ← get_by_id ticket_id
  let changed = record ticket {
    status = new_status;
    closed_at =
        if index new_status == index TicketStatus.closed then some now else ticket.closed_at;
  }
  modify (set_ticket ticket_id changed)
  pure changed
