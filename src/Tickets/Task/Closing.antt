-- ===== src/Tickets/Task/Closing.antt =====
-- The tickets that the task of tasks/ticket_tasks.py closes, and those that it leaves.
use electronic_shop.Base.{
  ℕ, zero, suc, ◌≡◌, inl, inr, true, false, Bool-cases, Option-cases, Option, none, some, List, [],
  ◌∷◌, take, contains, ◌==◌, if◌then◌else◌, arith, refl,
}
use electronic_shop.Base.Table.{Table, lookup, lookup-insert, IsKeyed}
use electronic_shop.Tickets.Models.{Ticket, Tickets}
use electronic_shop.Tickets.Task.{
  batch_size, is_waiting, is_stale, stale, closed_at, close_row, close_all,
  auto_close_stale_tickets,
}

abbrev closed_row : ℕ → Option Ticket → Option Ticket
closed_row now none = none
closed_row now (some ticket) =
    if is_waiting ticket then some (closed_at now ticket) else some ticket

close_row_lem :
    (clock : ℕ → ℕ) (id k count : ℕ) (s : Tickets)
    → lookup k (close_row id (clock id) (lookup id s.tickets) (count, s)).1.tickets
      ≡ (if k == id then closed_row (clock k) (lookup k s.tickets) else lookup k s.tickets)
close_row_lem clock id k count s = elim (Option-cases (lookup id s.tickets)) [
  | inl e ↦ ground arith
  | inr (ticket, e) ↦ ground (arith, lookup-insert id k (closed_at (clock id) ticket) s.tickets)
]

close_all_lem :
    (clock : ℕ → ℕ) (k : ℕ) (ids : List ℕ) (count : ℕ) (s : Tickets)
    → lookup k (close_all clock ids (count, s)).1.tickets
      ≡ (if contains k ids then closed_row (clock k) (lookup k s.tickets) else lookup k s.tickets)
unfolding close_all
close_all_lem clock k [] count s = refl
close_all_lem clock k (id ∷ ids) count s =
    let after = close_row id (clock id) (lookup id s.tickets) (count, s) in
    ground (arith, close_all_lem clock k ids after.0 after.1, close_row_lem clock id k count s)

contains-take : (k n : ℕ) (ids : List ℕ) → contains k (take n ids) ≡ true → contains k ids ≡ true
contains-take k zero ids h = cc
contains-take k (suc n) [] h = h
contains-take k (suc n) (id ∷ ids) h = ground (arith, contains-take k n ids)

absent-stale :
    (started k : ℕ) (t : Table Ticket) → lookup k t ≡ none → contains k (stale started t) ≡ false
unfolding stale
absent-stale started k [] h = refl
absent-stale started k ((j, other) ∷ t) h = ground (arith, absent-stale started k t)

-- A ticket is among the candidates exactly if it is stale.
contains-stale :
    (started k : ℕ) (ticket : Ticket) (t : Table Ticket)
    → IsKeyed t
    → lookup k t ≡ some ticket
    → contains k (stale started t) ≡ is_stale started ticket
unfolding stale
contains-stale started k ticket [] keyed h = cc
contains-stale started k ticket ((j, other) ∷ t) keyed h =
    ground (arith, contains-stale started k ticket t keyed.1, absent-stale started j t keyed.0)

module _ (started : ℕ) (clock : ℕ → ℕ) (s : Tickets) (keyed : IsKeyed s.tickets) (k : ℕ)
    {ticket : Ticket} (found : lookup k s.tickets ≡ some ticket) where
  -- Where no ticket's identifier stands twice, the task leaves every ticket alone that does not wait for its customer or that has had a response
  -- within the 24 hours before the start.
  pub fresh_kept :
      is_stale started ticket ≡ false
      → lookup k (auto_close_stale_tickets started clock s).1.tickets ≡ some ticket
  unfolding auto_close_stale_tickets
  fresh_kept h =
      let ids = stale started s.tickets in
      let candidate = contains-stale started k ticket s.tickets keyed found in
      let passed : contains k (take batch_size ids) ≡ false =
        elim (Bool-cases (contains k (take batch_size ids))) [
          | inl e ↦ ground (arith, contains-take k batch_size ids e)
          | inr e ↦ e
        ] in
      rw (close_all_lem clock k (take batch_size ids) 0 s, passed, found) refl
