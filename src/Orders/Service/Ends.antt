-- ===== src/Orders/Service/Ends.antt =====
-- When `mark_paid` and `mark_payment_failed` (modules/orders/service.py) do not raise.
use electronic_shop.Base.{
  ℕ, ◌≡◌, refl, inl, inr, Option-cases, Bool, true, false, not, Option, none, some, List, [], ◌∷◌,
  arith, if◌then◌else◌, is_none,
}
use electronic_shop.Base.Table.{lookup, lookup-insert}
use electronic_shop.Base.Exec.{Exec, Result, ok}
use electronic_shop.Catalog.Models.{Stock}
use electronic_shop.Catalog.Inventory.{commit_purchase, release}
use electronic_shop.Orders.Models.{OrderStatus, Order, OrderItem}
use electronic_shop.Orders.Service.{
  moved, for_items, commit_items, release_items, mark_paid, mark_payment_failed,
}
use electronic_shop.Orders.Service.Held.{transition_lem, with_stock}
use electronic_shop.Database.{Database}

-- The product of an order item, if it is still there, has an inventory row.
abbrev pub is_registered : Option ℕ → Stock → Bool
is_registered none s = true
is_registered (some p) s = not (is_none (lookup p s.inventory))

abbrev pub all_registered : List OrderItem → Stock → Bool
all_registered [] s = true
all_registered (item ∷ items) s =
    let rest = all_registered items s in if is_registered item.product_id s then rest else false

-- Over any method that succeeds on registered products and keeps them registered.
module _ (method : ℕ → ℕ → Exec Stock (Unit {0}))
    (keeps : (p q : ℕ) (o : Option ℕ) (s : Stock)
      → is_registered o (method p q s).1 ≡ is_registered o s)
    (runs : (p q : ℕ) (s : Stock)
      → is_registered (some p) s ≡ true
      → (method p q s).0 ≡ ok tt) where
  all-keeps :
      (p q : ℕ) (items : List OrderItem) (s : Stock)
      → all_registered items (method p q s).1 ≡ all_registered items s
  all-keeps p q [] s = refl
  all-keeps p q (item ∷ items) s = rw (keeps p q item.product_id s, all-keeps p q items s) refl

  for_items_ok :
      (items : List OrderItem) (s : Stock)
      → all_registered items s ≡ true
      → (for_items method items s).0 ≡ ok tt
  unfolding for_items
  for_items_ok [] s h = refl
  for_items_ok (item ∷ items) s h = elim (Option-cases item.product_id) [
    | inl e ↦ ground (arith, for_items_ok items s)
    | inr (p, e) ↦
        let q = item.quantity in
        ground (arith, for_items_ok items (method p q s).1, all-keeps p q items s, runs p q s)
  ]

module _ (order_id p q : ℕ) (s : Stock) where
  abbrev committed : Result (Unit {0}) × Stock
  committed = commit_purchase p q "order" order_id none s

  commit-keeps : (o : Option ℕ) → is_registered o committed.1 ≡ is_registered o s
  unfolding commit_purchase
  commit-keeps none = refl
  commit-keeps (some j) = grind (arith, lookup-insert)

  commit-runs : is_registered (some p) s ≡ true → committed.0 ≡ ok tt
  unfolding commit_purchase
  commit-runs h = ground arith

  abbrev released : Result (Unit {0}) × Stock
  released = release p q "order" order_id none s

  release-keeps : (o : Option ℕ) → is_registered o released.1 ≡ is_registered o s
  unfolding release
  release-keeps none = refl
  release-keeps (some j) = grind (arith, lookup-insert)

  release-runs : is_registered (some p) s ≡ true → released.0 ≡ ok tt
  unfolding release
  release-runs h = ground arith

module _ (order_id now : ℕ) (d : Database) {order : Order}
    (found : lookup order_id d.orders ≡ some order)
    (waiting : order.status ≡ OrderStatus.awaiting_payment)
    (registered : all_registered order.items d.stock ≡ true) where
  all-committed : (commit_items order_id order.items d.stock).0 ≡ ok tt
  unfolding commit_items
  all-committed =
      for_items_ok (λ p q. commit_purchase p q "order" order_id none)
        (λ p q o s. commit-keeps order_id p q s o) (commit-runs order_id) order.items d.stock
        registered

  all-released : (release_items order_id order.items d.stock).0 ≡ ok tt
  unfolding release_items
  all-released =
      for_items_ok (λ p q. release p q "order" order_id none)
        (λ p q o s. release-keeps order_id p q s o) (release-runs order_id) order.items d.stock
        registered

  pub mark_paid_ends : (mark_paid order_id now d).0 ≡ ok (moved order OrderStatus.paid now)
  unfolding mark_paid
  mark_paid_ends =
      let done = all-committed in
      let moving =
        transition_lem order_id order OrderStatus.paid none (some "payment verified") now
          (with_stock (commit_items order_id order.items d.stock).1 d) in
      ground (arith, moving)

  pub mark_payment_failed_ends :
      (mark_payment_failed order_id now d).0 ≡ ok (moved order OrderStatus.payment_failed now)
  unfolding mark_payment_failed
  mark_payment_failed_ends =
      let done = all-released in
      let moving =
        transition_lem order_id order OrderStatus.payment_failed none (some "payment failed") now
          (with_stock (release_items order_id order.items d.stock).1 d) in
      ground (arith, moving)
