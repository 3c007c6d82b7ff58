-- ===== src/Payments/Service/Callback.antt =====
-- The callback of modules/payments/service.py: the first one of a payment, and those after it.
use electronic_shop.Base.{ℕ, ◌≡◌, ◌≢◌, ◌⊎◌, refl, inl, inr, Bool, true, some, arith, sym}
use mathlib.Core.Path.{subst}
use electronic_shop.Base.Table.{Table, insert, IsKeyed, insert-IsKeyed}
use electronic_shop.Base.Exec.{Result, ok}
use electronic_shop.Integrations.Zarinpal.{Settings, returned, PaymentVerifyResult}
use electronic_shop.Orders.Models.{OrderStatus}
use electronic_shop.Orders.Service.Settled.{status_of}
use electronic_shop.Payments.Models.{PaymentStatus, Payment}
use electronic_shop.Payments.Service.{
  get_by_authority, handle_callback, try_claim, process, set_payment,
}
use electronic_shop.Payments.Service.Lookup.{lookup_found, found_written}
use electronic_shop.Database.{Database}
use electronic_shop.Payments.Service.Settling.{asked, process_settles}

abbrev pub pending_payment : Payment → Payment
pending_payment payment = record payment { status = PaymentStatus.pending }

module _ (settings : Settings) (authority : ℕ) (gateway_ok : Bool) (now : ℕ) (d : Database)
    {payment_id : ℕ} {payment : Payment} (keyed : IsKeyed d.payments)
    (found : get_by_authority authority d.payments ≡ some (payment_id, payment)) where
  -- Where no payment's identifier stands twice, the callback of a payment that is found by its
  -- authority and is not `initiated` any more returns the stored payment and changes
  -- nothing: neither the gateway nor the order is touched.
  pub callback_replayed :
      payment.status ≢ PaymentStatus.initiated
      → handle_callback settings authority gateway_ok now d ≡ (ok payment, d)
  unfolding handle_callback try_claim
  callback_replayed h =
      let row = lookup_found authority payment_id payment d.payments keyed found in ground arith

  pub callback_claimed :
      payment.status ≡ PaymentStatus.initiated
      → handle_callback settings authority gateway_ok now d
        ≡ process settings payment_id
            (pending_payment payment)
            authority
            gateway_ok
            now
            (set_payment payment_id (pending_payment payment) d)
  unfolding handle_callback try_claim
  callback_claimed h =
      let row = lookup_found authority payment_id payment d.payments keyed found in ground arith

module _ (settings : Settings) (authority : ℕ) (gateway_ok : Bool) (now : ℕ) (d : Database)
    {payment_id : ℕ} {payment : Payment} (keyed : IsKeyed d.payments)
    (found : get_by_authority authority d.payments ≡ some (payment_id, payment))
    (initiated : payment.status ≡ PaymentStatus.initiated) where
  -- What the first callback of a payment has done if it ends in `d'` and returns `p`: the order had
  -- waited for payment, and now either it is paid and the payment verified, which the gateway was
  -- asked and has confirmed, or both have failed.
  abbrev pub Settles : Payment → Database → Type 0
  Settles p d' =
      (get_by_authority authority d'.payments ≡ some (payment_id, p))
      × IsKeyed d'.payments
      × (status_of payment.order_id d ≡ some OrderStatus.awaiting_payment)
      × (((p.status ≡ PaymentStatus.verified)
            × ((v : PaymentVerifyResult) × (asked settings payment authority gateway_ok
                  ≡ returned v)
                × (v.success ≡ true)
                × (p.reference_id ≡ v.reference_id))
            × (status_of payment.order_id d' ≡ some OrderStatus.paid))
          ⊎ ((p.status ≡ PaymentStatus.failed)
              × (status_of payment.order_id d' ≡ some OrderStatus.payment_failed)))

  -- Where no payment's identifier stands twice, the first callback of a payment, which is found by its
  -- authority and `initiated`, if it does not raise, found the order waiting for payment. Either
  -- the gateway redirected with status OK and confirmed the payment's own amount: then the payment is
  -- verified with the gateway's reference and the order is paid. Or the payment is failed, and the
  -- order's payment has failed. The returned payment is the stored one.
  pub callback-Settles :
      (p : Payment)
      → (handle_callback settings authority gateway_ok now d).0 ≡ ok p
      → Settles p (handle_callback settings authority gateway_ok now d).1
  callback-Settles p h =
      let claimed = callback_claimed settings authority gateway_ok now d keyed found initiated in
      let row = pending_payment payment in
      let d' = set_payment payment_id row d in
      let (same, order, ends) =
        process_settles settings payment_id row authority gateway_ok now d' p (rw claimed at h) in
      let keyed' = insert-IsKeyed payment_id row d.payments keyed in
      let at_end : (ps : Table Payment)
          → ps ≡ insert payment_id p d'.payments
          → (get_by_authority authority ps ≡ some (payment_id, p)) × IsKeyed ps =
        λ ps e. rw e (
          found_written authority payment_id row p d'.payments keyed' same
              (found_written authority payment_id payment row d.payments keyed refl found),
          insert-IsKeyed payment_id p d'.payments keyed',
        ) in
      let done = (process settings payment_id row authority gateway_ok now d').1 in
      let at_order : (D : Database) (st : OrderStatus)
          → status_of p.order_id D ≡ some st
          → status_of payment.order_id D ≡ some st =
        λ D st e. subst (λ i. status_of i D ≡ some st) order e in
      subst (λ (x : Result Payment × Database). Settles p x.1) (sym claimed)
        (elim ends [
          | inl (v, confirmed, (written, before, now_paid)) ↦ (
            (at_end _ written).0,
            (at_end _ written).1,
            at_order d' _ before,
            inl (v, confirmed, at_order done _ now_paid),
          )
          | inr (f, (written, before, now_failed)) ↦ (
            (at_end _ written).0,
            (at_end _ written).1,
            at_order d' _ before,
            inr (f, at_order done _ now_failed),
          )
        ])

  -- Where no payment's identifier stands twice, and once the first callback of a payment has ended
  -- without raising, any further callback with the same authority,
  -- whatever its redirect status, the time, or the gateway's answers, returns the same payment and
  -- changes nothing.
  pub callback_idempotent :
      (settings' : Settings) (gateway_ok' : Bool) (now' : ℕ) (p : Payment)
      → (handle_callback settings authority gateway_ok now d).0 ≡ ok p
      → let d' = (handle_callback settings authority gateway_ok now d).1 in
        handle_callback settings' authority gateway_ok' now' d' ≡ (ok p, d')
  callback_idempotent settings' gateway_ok' now' p h =
      let (stored, keyed', before, ends) = callback-Settles p h in
      callback_replayed settings' authority gateway_ok' now'
        (handle_callback settings authority gateway_ok now d).1 keyed' stored
        (elim ends [ inl (e, _, _) ↦ λ i. ground arith | inr (e, _) ↦ λ i. ground arith ])

  pub unsettled :
      status_of payment.order_id d ≡ some OrderStatus.payment_failed
      → (p : Payment) → (handle_callback settings authority gateway_ok now d).0 ≢ ok p
  unsettled e p h = let (stored, keyed', before, ends) = callback-Settles p h in ground arith
