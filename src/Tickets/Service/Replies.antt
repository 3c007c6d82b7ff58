-- ===== src/Tickets/Service/Replies.antt =====
-- The replies of modules/tickets/service.py.
use electronic_shop.Base.{ℕ, String, ◌≡◌, ◌≢◌, ◌↔◌, some, arith}
use electronic_shop.Base.Table.{lookup}
use electronic_shop.Base.Exec.{AppError, ok, err}
use electronic_shop.Users.Models.{User}
use electronic_shop.Tickets.Models.{TicketStatus, Ticket, Tickets}
use electronic_shop.Tickets.Service.{add_customer_reply, add_support_reply, get_for_user}

module _ (ticket_id : ℕ) (user : User) (body : String) (now : ℕ) (s : Tickets) {ticket : Ticket}
    (found : lookup ticket_id s.tickets ≡ some ticket) where
  -- A reply of a customer to a stored ticket goes through exactly if the ticket is the customer's own
  -- and is not closed; a reply of the support goes through exactly if the ticket is not closed. A
  -- reply that does not go through changes nothing.
  pub reply_granted :
      ((add_customer_reply ticket_id user body now s).0
          ≡ ok (record ticket { status = TicketStatus.waiting_for_support; last_response_at = now })
        ↔ ((ticket.user_id ≡ user.id) × (ticket.status ≢ TicketStatus.closed)))
      × ((add_support_reply ticket_id user body now s).0
            ≡ ok (record ticket {
              status = TicketStatus.waiting_for_customer;
              last_response_at = now;
            })
          ↔ (ticket.status ≢ TicketStatus.closed))
      × ((x : AppError)
          → (add_customer_reply ticket_id user body now s).0 ≡ err x
          → (add_customer_reply ticket_id user body now s).1 ≡ s)
      × ((x : AppError)
          → (add_support_reply ticket_id user body now s).0 ≡ err x
          → (add_support_reply ticket_id user body now s).1 ≡ s)
  unfolding add_customer_reply add_support_reply get_for_user
  reply_granted = (
    (λ h. (ground arith, λ e. ground arith), λ h. ground arith),
    (λ h e. ground arith, λ h. ground arith),
    λ x h. ground arith,
    λ x h. ground arith,
  )
