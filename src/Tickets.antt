-- ===== src/Tickets.antt =====
-- backend/app/modules/tickets, and the periodic task of backend/app/tasks/ticket_tasks.py.
pub mod Models
pub mod Service
pub mod Task
