-- ===== src/Shop/Traces.antt =====
-- Sequences of requests, each in its transaction, and the books of Shop/Sound.
use electronic_shop.Base.{ℕ, ◌≡◌, ◌≢◌, inl, inr, Option, none, some, String, List, [], ◌∷◌, arith}
use electronic_shop.Base.Table.{lookup}
use electronic_shop.Base.Exec.{Exec, Result-cases, transaction, ◌>>=◌, ◌>>◌}
use electronic_shop.Orders.Models.{OrderStatus}
use electronic_shop.Orders.Service.{checkout, cancel, admin_update_status}
use electronic_shop.Orders.Router.{update_order_status}
use electronic_shop.Orders.Service.Settled.{status_of}
use electronic_shop.Payments.Service.{init_payment, handle_callback}
use electronic_shop.Shop.{
  Request, add_item, update_item, remove_item, clear_cart, place_order, cancel_order, set_status,
  start_payment, call_back, restock_product, adjust_product, deposit_money, credit_money,
  debit_money, ending, handle, serve,
}
use electronic_shop.Shop.Sound.{
  IsSound, Keeps, transaction-IsSound, checkout-IsSound, cancel-IsSound,
  admin_update_status-IsSound,
}
use electronic_shop.Shop.Served.{
  same_books, restock-IsSound, adjust-IsSound, handle_callback-Preserves, init_payment-Preserves,
  add_item-IsSound, update_item-IsSound, remove_item-IsSound, clear-IsSound,
}
use electronic_shop.Database.{Database}

-- The requests that the books can rely on: an order's identifier is new, a paid order is not
-- cancelled, and an order whose payment has failed is not set back to waiting for payment.
unfoldable pub IsSafe : Request → Database → Type 0
IsSafe (place_order order user address now) d = lookup order d.orders ≡ none
IsSafe (cancel_order order user now) d = status_of order d ≢ some OrderStatus.paid
IsSafe (set_status order status reason actor now) d =
    status_of order d ≡ some OrderStatus.payment_failed → status ≢ OrderStatus.awaiting_payment
IsSafe (add_item user product n) d = Unit
IsSafe (update_item user product n) d = Unit
IsSafe (remove_item user product) d = Unit
IsSafe (clear_cart user) d = Unit
IsSafe (start_payment settings payment user order) d = Unit
IsSafe (call_back settings authority gateway_ok now) d = Unit
IsSafe (restock_product product delta actor) d = Unit
IsSafe (adjust_product product delta actor) d = Unit
IsSafe (deposit_money user n) d = Unit
IsSafe (credit_money user n reason actor) d = Unit
IsSafe (debit_money user n reason actor) d = Unit

unfoldable pub AreSafe : List Request → Database → Type 0
AreSafe [] d = Unit
AreSafe (r ∷ rs) d = IsSafe r d × AreSafe rs (transaction (handle r) d).1

ending-Keeps : {A : Type 0} (m : Exec Database A) (d : Database) → Keeps m d → Keeps (ending m) d
ending-Keeps m d k u e = elim (Result-cases (m d).0) [
  | inl (x, q) ↦ absurd (ground arith)
  | inr (a, q) ↦ rw (q, ◌>>◌, ◌>>=◌) (k a q)
]

update_order_status-IsSound :
    (order_id : ℕ) (new_status : OrderStatus) (note : Option String) (actor now : ℕ) (d : Database)
    → IsSound d
    → (status_of order_id d ≡ some OrderStatus.payment_failed
        → new_status ≢ OrderStatus.awaiting_payment)
    → Keeps (update_order_status order_id new_status note actor now) d
unfolding update_order_status
update_order_status-IsSound order_id new_status note actor now d h closed result e =
    let m = admin_update_status order_id new_status note actor now in
    elim (Result-cases (m d).0) [
      | inl (x, q) ↦ absurd (ground arith)
      | inr (order, q) ↦
          same_books (m d).1 (update_order_status order_id new_status note actor now d).1
            (ground arith) (ground arith)
            (admin_update_status-IsSound order_id new_status note actor now d h closed order q)
    ]

handle-IsSound : (r : Request) (d : Database) → IsSafe r d → IsSound d → Keeps (handle r) d
unfolding handle IsSafe
handle-IsSound (place_order order user address now) d safe h a e =
    ending-Keeps (checkout order user address now) d
      (checkout-IsSound order user address now d h safe) a e
handle-IsSound (cancel_order order user now) d safe h a e =
    ending-Keeps (cancel order user now) d (cancel-IsSound order user now d h safe) a e
handle-IsSound (set_status order status reason actor now) d safe h a e =
    ending-Keeps (update_order_status order status reason actor now) d
      (update_order_status-IsSound order status reason actor now d h safe) a e
handle-IsSound (add_item user product n) d safe h a e = add_item-IsSound user d h product n
handle-IsSound (update_item user product n) d safe h a e = update_item-IsSound user d h product n
handle-IsSound (remove_item user product) d safe h a e = remove_item-IsSound user d h product
handle-IsSound (clear_cart user) d safe h a e = clear-IsSound user d h
handle-IsSound (start_payment settings payment user order) d safe h a e =
    ending-Keeps (init_payment settings payment user order) d
      (init_payment-Preserves settings payment user order d h) a e
handle-IsSound (call_back settings authority gateway_ok now) d safe h a e =
    ending-Keeps (handle_callback settings authority gateway_ok now) d
      (handle_callback-Preserves settings authority gateway_ok now d h) a e
handle-IsSound (restock_product product delta actor) d safe h a e =
    restock-IsSound product delta (some actor) d h
handle-IsSound (adjust_product product delta actor) d safe h a e =
    adjust-IsSound product delta (some actor) d h
handle-IsSound (deposit_money user n) d safe h a e =
    same_books d (handle (deposit_money user n) d).1 (ground arith) (ground arith) h
handle-IsSound (credit_money user n reason actor) d safe h a e =
    same_books d (handle (credit_money user n reason actor) d).1 (ground arith) (ground arith) h
handle-IsSound (debit_money user n reason actor) d safe h a e =
    same_books d (handle (debit_money user n reason actor) d).1 (ground arith) (ground arith) h

-- Whatever sequence of requests the shop serves, from a state whose books are sound, their books
-- are sound again: of every product, what the orders that wait for payment hold is reserved, and
-- what is reserved is in stock. It relies on three things: a new order gets an identifier of its
-- own, no paid order is cancelled, and no order whose payment has failed is set back by an
-- administrator to waiting for payment.
pub serve-IsSound :
    (requests : List Request) (d : Database)
    → AreSafe requests d
    → IsSound d
    → IsSound (serve requests d)
unfolding serve AreSafe
serve-IsSound [] d safe h = h
serve-IsSound (r ∷ rs) d safe h =
    serve-IsSound rs (transaction (handle r) d).1 safe.1
      (transaction-IsSound (handle r) d h (handle-IsSound r d safe.0 h))
