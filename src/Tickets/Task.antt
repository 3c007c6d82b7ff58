-- ===== src/Tickets/Task.antt =====
-- backend/app/tasks/ticket_tasks.py: the task that closes tickets without an answer. The time at which
-- it starts, and the time at which it comes to each ticket, are arguments.
pub mod Closing
use electronic_shop.Base.{
  ℕ, ◌+◌, String, Bool, false, Option, none, some, List, [], ◌∷◌, take, ltb, ◌==◌, if◌then◌else◌,
}
use electronic_shop.Base.Table.{Table, lookup, insert}
use electronic_shop.Tickets.Models.{
  TicketStatus, TicketMessageAuthorRole, Ticket, TicketMessage, AuditLog, Tickets,
}
use electronic_shop.Tickets.Service.{index, set_ticket, add_message}

abbrev pub stale_after : ℕ
stale_after = 86400

abbrev pub batch_size : ℕ
batch_size = 100

abbrev pub auto_close_note : String
auto_close_note = "closed automatically: no answer of the customer within 24 hours"

abbrev pub is_waiting : Ticket → Bool
is_waiting ticket = index ticket.status == index TicketStatus.waiting_for_customer

-- `last_response_at < now - 24 h`, with the subtraction on the other side
abbrev pub is_stale : ℕ → Ticket → Bool
is_stale started ticket =
    if is_waiting ticket then ltb (ticket.last_response_at + stale_after) started else false

unfoldable pub stale : ℕ → Table Ticket → List ℕ
stale started [] = []
stale started ((id, ticket) ∷ rest) =
    let ids = stale started rest in if is_stale started ticket then id ∷ ids else ids

abbrev pub closed_at : ℕ → Ticket → Ticket
closed_at now ticket = record ticket { status = TicketStatus.closed; closed_at = some now }

-- The conditional UPDATE of one candidate, and the rows that follow it where it found its ticket.
abbrev pub close_row : ℕ → ℕ → Option Ticket → ℕ × Tickets → ℕ × Tickets
close_row ticket_id now none acc = acc
close_row ticket_id now (some ticket) (count, s) =
    if is_waiting ticket
    then (
      count + 1,
      record {
        tickets = insert ticket_id (closed_at now ticket) s.tickets;
        messages =
            record {
              ticket_id = ticket_id;
              author_id = none;
              author_role = TicketMessageAuthorRole.system;
              body = auto_close_note;
              created_at = now;
            }
            ∷ s.messages;
        audit_logs =
            record {
              actor_id = none;
              action = "ticket.auto_closed";
              resource_type = "ticket";
              resource_id = ticket_id;
              reason = "waiting_for_customer_timeout";
            }
            ∷ s.audit_logs;
      },
    )
    else (count, s)

-- The loop over the candidates, on the number of closed tickets so far.
unfoldable pub close_all : (ℕ → ℕ) → List ℕ → ℕ × Tickets → ℕ × Tickets
close_all clock [] acc = acc
close_all clock (id ∷ ids) acc =
    close_all clock ids (close_row id (clock id) (lookup id acc.1.tickets) acc)

unfoldable pub auto_close_stale_tickets : ℕ → (ℕ → ℕ) → Tickets → ℕ × Tickets
unfolding close_all stale
auto_close_stale_tickets started clock s =
    close_all clock (take batch_size (stale started s.tickets)) (0, s)
