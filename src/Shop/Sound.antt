-- ===== src/Shop/Sound.antt =====
-- The books of the shop: what the waiting orders hold, what is reserved, and what is in stock, under
-- each method of modules/orders/service.py.
use electronic_shop.Base.{
  String, true, ℕ, ◌≤◌, ◌≡◌, ◌≢◌, inl, inr, Option-cases, Option, some, none, arith,
}
use electronic_shop.Base.Table.{lookup}
use electronic_shop.Base.Exec.{Exec, ok, transaction, transaction_rule}
use electronic_shop.Users.Models.{User}
use electronic_shop.Catalog.Inventory.Reserved.{reserved_of, total_of}
use electronic_shop.Orders.Models.{OrderStatus, is_allowed, Order, ShippingAddress}
use electronic_shop.Orders.Service.{
  moved, admin_update_status, checkout, mark_paid, mark_payment_failed, cancel,
}
use electronic_shop.Orders.Service.Held.{
  held, order_held, transition_lem, held-mark_paid, held-mark_payment_failed, held-cancel,
  held-admin_update_status,
}
use electronic_shop.Orders.Service.Settled.{status_of, mark_paid_parts, mark_payment_failed_parts}
use electronic_shop.Orders.Service.Placed.{checkout_places, fits-checkout}
use electronic_shop.Database.{Database}

-- What the orders that wait for payment hold of a product is reserved, and what is reserved is there.
pub record IsSound (d : Database) : Type 0 where
  pub covered : (j : ℕ) → held j d ≤ reserved_of j d.stock
  pub fits : (j : ℕ) → reserved_of j d.stock ≤ total_of j d.stock

-- A method keeps the books sound where it does not raise.
abbrev pub Keeps : {A : Type 0} → Exec Database A → Database → Type 0
Keeps {A} m d = (a : A) → (m d).0 ≡ ok a → IsSound (m d).1

pub transaction-IsSound :
    {A : Type 0} (m : Exec Database A) (d : Database)
    → IsSound d
    → Keeps m d
    → IsSound (transaction m d).1
transaction-IsSound m d h k = transaction_rule IsSound m d h k

pub checkout-IsSound :
    (order_id user_id : ℕ) (address : Option ShippingAddress) (now : ℕ) (d : Database)
    → IsSound d
    → lookup order_id d.orders ≡ none
    → Keeps (checkout order_id user_id address now) d
checkout-IsSound order_id user_id address now d h fresh result e =
    let (stored, status, total, cart, holding, reserving, totals) =
      checkout_places order_id user_id address now d fresh e in
    record {
      covered = λ j. omega (arith, h.covered j, holding j, reserving j);
      fits = fits-checkout order_id user_id address now d e h.fits;
    }

pub mark_paid-IsSound :
    (order_id now : ℕ) (d : Database) → IsSound d → Keeps (mark_paid order_id now) d
mark_paid-IsSound order_id now d h result e =
    let (order, found, waiting, committed, returned, after) = mark_paid_parts order_id now d e in
    record {
      covered = λ j. omega (arith, h.covered j, held-mark_paid order_id now d j found e);
      fits = λ j. omega (arith, h.fits j, held-mark_paid order_id now d j found e);
    }

pub mark_payment_failed-IsSound :
    (order_id now : ℕ) (d : Database) → IsSound d → Keeps (mark_payment_failed order_id now) d
mark_payment_failed-IsSound order_id now d h result e =
    let (order, found, waiting, released, returned, after) =
      mark_payment_failed_parts order_id now d e in
    record {
      covered = λ j. omega (arith, h.covered j, held-mark_payment_failed order_id now d j found e);
      fits = λ j. omega (arith, h.fits j, held-mark_payment_failed order_id now d j found e);
    }

cancel_found :
    (order_id : ℕ) (user : User) (now : ℕ) (d : Database) {result : Order}
    → (cancel order_id user now d).0 ≡ ok result
    → (order : Order) × (lookup order_id d.orders ≡ some order)
unfolding cancel
cancel_found order_id user now d h = elim (Option-cases (lookup order_id d.orders)) [
  | inl e ↦ absurd (ground arith)
  | inr found ↦ found
]

pub cancel-IsSound :
    (order_id : ℕ) (user : User) (now : ℕ) (d : Database)
    → IsSound d
    → status_of order_id d ≢ some OrderStatus.paid
    → Keeps (cancel order_id user now) d
cancel-IsSound order_id user now d h unpaid result e =
    let (order, found) = cancel_found order_id user now d e in
    let held = λ (j : ℕ). held-cancel order_id now d j user found (λ s. unpaid (ground arith)) e in
    record {
      covered = λ j. omega (arith, h.covered j, held j);
      fits = λ j. omega (arith, h.fits j, held j);
    }

update_found :
    (order_id : ℕ) (new_status : OrderStatus) (note : Option String) (actor now : ℕ) (d : Database)
    {result : Order}
    → (admin_update_status order_id new_status note actor now d).0 ≡ ok result
    → (order : Order) × (lookup order_id d.orders ≡ some order)
      × (is_allowed order.status new_status ≡ true)
unfolding admin_update_status
update_found order_id new_status note actor now d h =
    elim (Option-cases (lookup order_id d.orders)) [
      | inl e ↦ absurd (ground arith)
      | inr (order, found) ↦ (
        order,
        found,
        ground (arith, transition_lem order_id order new_status (some actor) note now d),
      )
    ]

-- An allowed change to another status than `awaiting_payment` leaves an order holding no more.
holds_no_more :
    (j : ℕ) (order : Order) (new_status : OrderStatus) (now : ℕ)
    → is_allowed order.status new_status ≡ true
    → (order.status ≡ OrderStatus.payment_failed → new_status ≢ OrderStatus.awaiting_payment)
    → order_held j (moved order new_status now) ≤ order_held j order
holds_no_more j order new_status now allowed closed = ground arith

pub admin_update_status-IsSound :
    (order_id : ℕ) (new_status : OrderStatus) (note : Option String) (actor now : ℕ) (d : Database)
    → IsSound d
    → (status_of order_id d ≡ some OrderStatus.payment_failed
        → new_status ≢ OrderStatus.awaiting_payment)
    → Keeps (admin_update_status order_id new_status note actor now) d
admin_update_status-IsSound order_id new_status note actor now d h closed result e =
    let (order, found, allowed) = update_found order_id new_status note actor now d e in
    let held = λ (j : ℕ). held-admin_update_status order_id actor now new_status note d j found e in
    let less =
      λ (j : ℕ). holds_no_more j order new_status now allowed (λ s. closed (ground arith)) in
    let same = (held 0).1 in
    record {
      covered = λ j. rw same (omega (arith, h.covered j, (held j).0, less j));
      fits = λ j. rw same (h.fits j);
    }
