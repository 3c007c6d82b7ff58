-- ===== src/Orders/Service/Checkout.antt =====
-- The loop of `checkout` (modules/orders/service.py): its effect on the stock and on the sums.
use electronic_shop.Base.{
  ℕ, ◌+◌, ◌*◌, ◌≤◌, ◌≡◌, inl, inr, Option-cases, true, some, List, [], ◌∷◌, ◌++◌, arith, ◌∙◌,
}
use electronic_shop.Base.Table.{lookup}
use electronic_shop.Base.Exec.{ok}
use electronic_shop.Catalog.Models.{Product}
use electronic_shop.Catalog.Inventory.{reserve}
use electronic_shop.Catalog.Inventory.Reserved.{
  reserved_of, total_of, reserved_of-reserve, total_of-reserve, fits-reserve,
}
use electronic_shop.Cart.Models.{CartItems}
use electronic_shop.Cart.Service.{effective_unit_price}
use electronic_shop.Orders.Models.{OrderItem}
use electronic_shop.Orders.Service.{checkout_items}
use electronic_shop.Orders.Service.Items.{
  quantity_of, line_total, quantity_of-append, line_total-append,
}
use electronic_shop.Database.{Database}

-- The order item that the loop makes of a cart line.
abbrev pub snapshot : ℕ → ℕ → Product → OrderItem
snapshot p q product = record {
  product_id = some p;
  product_name_snapshot = product.name;
  sku_snapshot = product.sku;
  unit_price_snapshot = effective_unit_price product;
  quantity = q;
  subtotal = effective_unit_price product * q;
}

abbrev pub reserved_stock : ℕ → ℕ → ℕ → ℕ → Database → Database
reserved_stock order_id user_id p q d = record d {
  stock = (reserve p q "order" order_id (some user_id) d.stock).1;
}

module _ (order_id user_id : ℕ) where
  -- What a finished loop has done.
  pub record Charged (subtotal : ℕ) (items : List OrderItem) (d : Database) (total : ℕ)
      (items' : List OrderItem) (d' : Database) : Type 0 where
    pub reserved :
        (j : ℕ)
        → reserved_of j d'.stock + quantity_of j items
          ≡ reserved_of j d.stock + quantity_of j items'
    pub totals : (j : ℕ) → total_of j d'.stock ≡ total_of j d.stock
    pub charged : total + line_total items ≡ subtotal + line_total items'
    pub fits :
        ((j : ℕ) → reserved_of j d.stock ≤ total_of j d.stock)
        → (j : ℕ) → reserved_of j d'.stock ≤ total_of j d'.stock
    pub same : d' ≡ record d { stock = d'.stock }

  -- One pass that does not raise: the product is there, active and in stock, and is reserved.
  pub checkout_items-step :
      (p q : ℕ) (cart : CartItems) (subtotal : ℕ) (items : List OrderItem) (d : Database)
      {done : ℕ × List OrderItem}
      → (checkout_items order_id user_id ((p, q) ∷ cart) subtotal items d).0 ≡ ok done
      → (product : Product) × (lookup p d.products ≡ some product)
        × (product.is_active ≡ true)
        × ((reserve p q "order" order_id (some user_id) d.stock).0 ≡ ok tt)
        × (checkout_items order_id user_id ((p, q) ∷ cart) subtotal items d
            ≡ checkout_items order_id user_id cart
                (subtotal + effective_unit_price product * q)
                (items ++ snapshot p q product ∷ [])
                (reserved_stock order_id user_id p q d))
  unfolding checkout_items
  checkout_items-step p q cart subtotal items d h = elim (Option-cases (lookup p d.products)) [
    | inl e ↦ absurd (ground arith)
    | inr (product, e) ↦ (product, e, ground arith, ground arith, ground arith)
  ]

  Charged-cons :
      (p q : ℕ) (product : Product) (subtotal : ℕ) (items : List OrderItem) (d : Database)
      (total : ℕ) (items' : List OrderItem) (d' : Database)
      → (reserve p q "order" order_id (some user_id) d.stock).0 ≡ ok tt
      → Charged
          (subtotal + effective_unit_price product * q)
          (items ++ snapshot p q product ∷ [])
          (reserved_stock order_id user_id p q d)
          total
          items'
          d'
      → Charged subtotal items d total items' d'
  Charged-cons p q product subtotal items d total items' d' granted c = record {
    reserved = λ j. omega (
      arith,
      c.reserved j,
      quantity_of-append j items (snapshot p q product ∷ []),
      reserved_of-reserve p q "order" order_id (some user_id) d.stock j granted,
    );
    totals = λ j. c.totals j ∙ total_of-reserve p q "order" order_id (some user_id) d.stock j;
    charged = omega (arith, c.charged, line_total-append items (snapshot p q product ∷ []));
    fits =
        λ f. c.fits (λ j. fits-reserve p q "order" order_id (some user_id) d.stock j granted (f j));
    same = c.same;
  }

  -- A loop that ends without raising has reserved what the new items hold, charged their subtotals,
  -- and changed nothing but the stock, whose totals it leaves.
  pub checkout_items-Charged :
      (cart : CartItems) (subtotal : ℕ) (items : List OrderItem) (d : Database) {total : ℕ}
      {items' : List OrderItem}
      → (checkout_items order_id user_id cart subtotal items d).0 ≡ ok (total, items')
      → Charged subtotal items d total items'
          (checkout_items order_id user_id cart subtotal items d).1
  checkout_items-Charged [] subtotal items d h =
      unfold checkout_items in
      record {
        reserved = λ j. ground arith;
        totals = λ j. ground arith;
        charged = ground arith;
        fits = λ f. f;
        same = ground arith;
      }
  checkout_items-Charged ((p, q) ∷ cart) subtotal items d {total} {items'} h =
      let (product, found, active, granted, step) =
        checkout_items-step p q cart subtotal items d h in
      rw step (
        Charged-cons p q product subtotal items d total items' _ granted (
          checkout_items-Charged cart (subtotal + effective_unit_price product * q)
            (items ++ snapshot p q product ∷ []) (reserved_stock order_id user_id p q d)
            (rw step at h)))
