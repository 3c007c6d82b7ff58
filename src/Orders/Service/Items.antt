-- ===== src/Orders/Service/Items.antt =====
-- The loops of modules/orders/service.py over cart lines and order items, and the stock.
use electronic_shop.Base.{
  ℕ, ◌+◌, ◌-◌, ◌≡◌, refl, inl, inr, Option-cases, Option, none, some, List, [], ◌∷◌, ◌++◌, arith,
}
use electronic_shop.Base.Exec.{ok}
use electronic_shop.Catalog.Models.{Stock}
use electronic_shop.Catalog.Inventory.{release, commit_purchase}
use electronic_shop.Catalog.Inventory.Reserved.{
  reserved_of, total_of, total_of-release, of_product, reserved_of-release,
  reserved_of-commit_purchase, total_of-commit_purchase,
}
use electronic_shop.Orders.Models.{OrderItem}
use electronic_shop.Orders.Service.{release_items, commit_items}

abbrev pub item_quantity : ℕ → Option ℕ → ℕ → ℕ
item_quantity j none q = 0
item_quantity j (some p) q = of_product j p q

-- How much of product `j` the items of an order hold.
abbrev pub quantity_of : ℕ → List OrderItem → ℕ
quantity_of j [] = 0
quantity_of j (item ∷ items) = item_quantity j item.product_id item.quantity + quantity_of j items

abbrev pub line_total : List OrderItem → ℕ
line_total [] = 0
line_total (item ∷ items) = item.subtotal + line_total items

pub quantity_of-append :
    (j : ℕ) (xs ys : List OrderItem)
    → quantity_of j (xs ++ ys) ≡ quantity_of j xs + quantity_of j ys
quantity_of-append j [] ys = omega arith
quantity_of-append j (x ∷ xs) ys = omega (arith, quantity_of-append j xs ys)

pub line_total-append :
    (xs ys : List OrderItem) → line_total (xs ++ ys) ≡ line_total xs + line_total ys
line_total-append [] ys = omega arith
line_total-append (x ∷ xs) ys = omega (arith, line_total-append xs ys)

pub reserved_of-release_items :
    (order_id j : ℕ) (items : List OrderItem) (s : Stock)
    → (release_items order_id items s).0 ≡ ok tt
    → reserved_of j (release_items order_id items s).1 ≡ reserved_of j s - quantity_of j items
unfolding release_items
reserved_of-release_items order_id j [] s h = omega arith
reserved_of-release_items order_id j (item ∷ items) s h = elim (Option-cases item.product_id) [
  | inl e ↦ ground (arith, reserved_of-release_items order_id j items s)
  | inr (p, e) ↦ ground (
    arith,
    reserved_of-release p item.quantity "order" order_id none s j,
    reserved_of-release_items order_id j items (release p item.quantity "order" order_id none s).1,
  )
]

pub reserved_of-commit_items :
    (order_id j : ℕ) (items : List OrderItem) (s : Stock)
    → (commit_items order_id items s).0 ≡ ok tt
    → reserved_of j (commit_items order_id items s).1 ≡ reserved_of j s - quantity_of j items
unfolding commit_items
reserved_of-commit_items order_id j [] s h = omega arith
reserved_of-commit_items order_id j (item ∷ items) s h = elim (Option-cases item.product_id) [
  | inl e ↦ ground (arith, reserved_of-commit_items order_id j items s)
  | inr (p, e) ↦ ground (
    arith,
    reserved_of-commit_purchase p item.quantity "order" order_id none s j,
    reserved_of-commit_items order_id j items
        (commit_purchase p item.quantity "order" order_id none s).1,
  )
]

pub total_of-commit_items :
    (order_id j : ℕ) (items : List OrderItem) (s : Stock)
    → (commit_items order_id items s).0 ≡ ok tt
    → total_of j (commit_items order_id items s).1 ≡ total_of j s - quantity_of j items
unfolding commit_items
total_of-commit_items order_id j [] s h = omega arith
total_of-commit_items order_id j (item ∷ items) s h = elim (Option-cases item.product_id) [
  | inl e ↦ ground (arith, total_of-commit_items order_id j items s)
  | inr (p, e) ↦ ground (
    arith,
    total_of-commit_purchase p item.quantity "order" order_id none s j,
    total_of-commit_items order_id j items
        (commit_purchase p item.quantity "order" order_id none s).1,
  )
]

pub total_of-release_items :
    (order_id j : ℕ) (items : List OrderItem) (s : Stock)
    → total_of j (release_items order_id items s).1 ≡ total_of j s
unfolding release_items
total_of-release_items order_id j [] s = refl
total_of-release_items order_id j (item ∷ items) s = elim (Option-cases item.product_id) [
  | inl e ↦ ground (arith, total_of-release_items order_id j items s)
  | inr (p, e) ↦ ground (
    arith,
    total_of-release p item.quantity "order" order_id none s j,
    total_of-release_items order_id j items (release p item.quantity "order" order_id none s).1,
  )
]
