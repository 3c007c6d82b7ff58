-- ===== src/Shop/Served.antt =====
-- The handlers of the routes, and the books of Shop/Sound.
use electronic_shop.Base.{
  ℕ, ◌*◌, ◌≡◌, inl, inr, Bool, true, false, Bool-cases, Option, none, some, Option-cases, arith,
  ◌==◌, refl, sym,
}
use mathlib.Core.Path.{subst}
use electronic_shop.Base.Int.{ℤ}
use electronic_shop.Base.Table.{lookup, lookup-insert}
use electronic_shop.Base.Exec.{AppError, Exec, Result-cases, ok, or_raise, pure, gets, modify, ◌>>◌}
use electronic_shop.Users.Models.{User}
use electronic_shop.Catalog.Inventory.{restock, adjust, locked_inventory}
use electronic_shop.Cart.Service.{add_item, update_item, remove_item, clear, get_or_create}
use electronic_shop.Integrations.Zarinpal.{
  Settings, Outcome, returned, failed, not_configured, PaymentVerifyResult, verify_payment,
}
use electronic_shop.Orders.Models.{Order}
use electronic_shop.Orders.Service.{mark_paid, mark_payment_failed}
use electronic_shop.Payments.Models.{PaymentStatus, Payment}
use electronic_shop.Payments.Service.{
  handle_callback, init_payment, try_claim, claim, process, set_payment, settle, fail_payment,
  toman_to_rial, index, get_by_authority, claimed_or_replayed,
}
use electronic_shop.Shop.Sound.{IsSound, mark_paid-IsSound, mark_payment_failed-IsSound}
use electronic_shop.Shop.Keeps.{Preserves, bind-Preserves, or_raise-Preserves}
use electronic_shop.Database.{Database, in_stock}

-- Books with the same orders and the same stock.
pub same_books :
    (d d' : Database) → d'.orders ≡ d.orders → d'.stock ≡ d.stock → IsSound d → IsSound d'
same_books d d' o s h = record {
  covered = λ j. rw (o, s) (h.covered j);
  fits = λ j. rw s (h.fits j);
}

payment-IsSound :
    (payment_id : ℕ) (payment : Payment) (d : Database)
    → IsSound d
    → IsSound (set_payment payment_id payment d)
payment-IsSound payment_id payment d h = record { covered = h.covered; fits = h.fits }

-- The common end of a callback: the payment's row, the order, the row as the result.
ending_Preserves :
    (payment_id : ℕ) (row : Payment) (m : Exec Database Order)
    → Preserves m
    → Preserves (modify (set_payment payment_id row) >> (m >> pure row))
ending_Preserves payment_id row m pm d h a e =
    let d1 = set_payment payment_id row d in
    elim (Result-cases (m d1).0) [
      | inl (x, q) ↦ absurd (ground arith)
      | inr (b, q) ↦
          same_books (m d1).1 ((modify (set_payment payment_id row) >> (m >> pure row)) d).1
            (ground arith) (ground arith) (pm d1 (payment-IsSound payment_id row d h) b q)
    ]

fail_payment-Preserves :
    (payment_id : ℕ) (payment : Payment) (now : ℕ) → Preserves (fail_payment payment_id payment now)
fail_payment-Preserves payment_id payment now =
    ending_Preserves payment_id (record payment { status = PaymentStatus.failed })
      (mark_payment_failed payment.order_id now) (mark_payment_failed-IsSound payment.order_id now)

answer_Preserves :
    (payment_id : ℕ) (payment : Payment) (now : ℕ) (success : Bool) (reference_id : Option ℕ)
    (raw_response : ℕ)
    → Preserves (
        settle payment_id payment now (
          returned (record {
            success = success;
            reference_id = reference_id;
            raw_response = raw_response;
          })))
answer_Preserves payment_id payment now true reference_id raw_response =
    ending_Preserves payment_id
      (record payment {
        status = PaymentStatus.verified;
        reference_id = reference_id;
        verified_at = some now;
        raw_gateway_response = some raw_response;
      })
      (mark_paid payment.order_id now) (mark_paid-IsSound payment.order_id now)
answer_Preserves payment_id payment now false reference_id raw_response =
    fail_payment-Preserves payment_id (record payment { raw_gateway_response = some raw_response })
      now

settle-Preserves :
    (payment_id : ℕ) (payment : Payment) (now : ℕ) (answer : Outcome PaymentVerifyResult)
    → Preserves (settle payment_id payment now answer)
settle-Preserves payment_id payment now not_configured d h a e = h
settle-Preserves payment_id payment now failed d h a e = h
settle-Preserves payment_id payment now (returned v) d h a e =
    answer_Preserves payment_id payment now v.success v.reference_id v.raw_response d h a e

process-Preserves :
    (settings : Settings) (payment_id : ℕ) (row : Payment) (authority : ℕ) (gateway_ok : Bool)
    (now : ℕ)
    → Preserves (process settings payment_id row authority gateway_ok now)
process-Preserves settings payment_id row authority false now =
    fail_payment-Preserves payment_id row now
process-Preserves settings payment_id row authority true now =
    settle-Preserves payment_id row now
      (verify_payment settings (row.amount * toman_to_rial) authority)

claimed_Preserves :
    (settings : Settings) (payment_id : ℕ) (row : Payment) (authority : ℕ) (gateway_ok : Bool)
    (now : ℕ) (claimed : Bool)
    → Preserves (claimed_or_replayed settings payment_id row authority gateway_ok now claimed)
claimed_Preserves settings payment_id row authority gateway_ok now true =
    process-Preserves settings payment_id (record row { status = PaymentStatus.pending }) authority
      gateway_ok now
claimed_Preserves settings payment_id row authority gateway_ok now false =
    bind-Preserves (gets (λ d. lookup payment_id d.payments))
      (λ o. or_raise o AppError.internal_error) (λ d h a e. h)
      λ o. or_raise-Preserves o AppError.internal_error

-- A claim always returns, and touches nothing but the payments.
abbrev Claimed : Exec Database Bool → Database → Type 0
Claimed m d =
    (b : Bool) × (d' : Database) × (m d ≡ (ok b, d'))
    × (d'.orders ≡ d.orders)
    × (d'.stock ≡ d.stock)

claim_lem :
    (payment_id : ℕ) (from to : PaymentStatus) (row : Option Payment) (d : Database)
    → Claimed (claim payment_id from to row) d
claim_lem payment_id from to none d = (false, d, refl, refl, refl)
claim_lem payment_id from to (some row) d = elim (Bool-cases (index row.status == index from)) [
  | inl e ↦ (true, set_payment payment_id (record row { status = to }) d, ground arith, refl, refl)
  | inr e ↦ (false, d, ground arith, refl, refl)
]

try_claim_lem :
    (payment_id : ℕ) (from to : PaymentStatus) (d : Database)
    → Claimed (try_claim payment_id from to) d
unfolding try_claim
try_claim_lem payment_id from to d = claim_lem payment_id from to (lookup payment_id d.payments) d

pub handle_callback-Preserves :
    (settings : Settings) (authority : ℕ) (gateway_ok : Bool) (now : ℕ)
    → Preserves (handle_callback settings authority gateway_ok now)
unfolding handle_callback
handle_callback-Preserves settings authority gateway_ok now d h p e =
    elim (Option-cases (get_by_authority authority d.payments)) [
      | inl q ↦ absurd (ground arith)
      | inr ((payment_id, row), q) ↦
          let (b, d', claimed, o, s) =
            try_claim_lem payment_id PaymentStatus.initiated PaymentStatus.pending d in
          let same : handle_callback settings authority gateway_ok now d
              ≡ claimed_or_replayed settings payment_id row authority gateway_ok now b d' =
            ground arith in
          subst (λ x. IsSound x.1) (sym same)
            (claimed_Preserves settings payment_id row authority gateway_ok now b d'
              (same_books d d' o s h) p (ground arith))
    ]

pub init_payment-Preserves :
    (settings : Settings) (payment_id : ℕ) (user : User) (order_id : ℕ)
    → Preserves (init_payment settings payment_id user order_id)
unfolding init_payment
init_payment-Preserves settings payment_id user order_id d h a e =
    same_books d (init_payment settings payment_id user order_id d).1 (ground arith) (ground arith)
      h

module _ (user_id : ℕ) (d : Database) (h : IsSound d) where
  pub add_item-IsSound :
      (product_id quantity : ℕ) → IsSound (add_item user_id product_id quantity d).1
  unfolding add_item get_or_create
  add_item-IsSound product_id quantity =
      same_books d (add_item user_id product_id quantity d).1 (ground arith) (ground arith) h

  pub update_item-IsSound :
      (product_id quantity : ℕ) → IsSound (update_item user_id product_id quantity d).1
  unfolding update_item get_or_create
  update_item-IsSound product_id quantity =
      same_books d (update_item user_id product_id quantity d).1 (ground arith) (ground arith) h

  pub remove_item-IsSound : (product_id : ℕ) → IsSound (remove_item user_id product_id d).1
  unfolding remove_item get_or_create
  remove_item-IsSound product_id =
      same_books d (remove_item user_id product_id d).1 (ground arith) (ground arith) h

  pub clear-IsSound : IsSound (clear user_id d).1
  unfolding clear get_or_create
  clear-IsSound = same_books d (clear user_id d).1 (ground arith) (ground arith) h

-- A change of the total that is not refused leaves what is reserved, and enough for it.
module _ (product_id : ℕ) (delta : ℤ) (actor : Option ℕ) (d : Database) (h : IsSound d) where
  pub restock-IsSound : IsSound (in_stock (restock product_id delta actor) d).1
  unfolding restock locked_inventory
  restock-IsSound = record {
    covered = λ j. grind (arith, lookup-insert, h.covered j);
    fits = λ j. grind (arith, lookup-insert, h.fits j);
  }

  pub adjust-IsSound : IsSound (in_stock (adjust product_id delta actor) d).1
  unfolding adjust locked_inventory
  adjust-IsSound = record {
    covered = λ j. grind (arith, lookup-insert, h.covered j);
    fits = λ j. grind (arith, lookup-insert, h.fits j);
  }
