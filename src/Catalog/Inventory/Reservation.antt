-- ===== src/Catalog/Inventory/Reservation.antt =====
-- `reserve`, `release` and `commit_purchase` of modules/catalog/inventory_service.py, and their order.
use electronic_shop.Base.{
  ℕ, ◌+◌, ◌-◌, ◌≤◌, String, ◌≡◌, ◌↔◌, Option, none, some, arith, ◌==◌, if◌then◌else◌,
}
use electronic_shop.Base.Table.{lookup, lookup-insert}
use electronic_shop.Base.Exec.{ok, err, conflict, not_found, ◌>>◌}
use electronic_shop.Catalog.Models.{ProductInventory, Stock}
use electronic_shop.Catalog.Inventory.{reserve, release, commit_purchase}

module _ (p q : ℕ) (kind : String) (reference : ℕ) (actor : Option ℕ) (s : Stock) where
  -- A product without an inventory row is refused as not found by `reserve`, `release` and
  -- `commit_purchase`, and nothing is written.
  pub unregistered_refused :
      lookup p s.inventory ≡ none
      → (reserve p q kind reference actor s ≡ (err not_found, s))
        × (release p q kind reference actor s ≡ (err not_found, s))
        × (commit_purchase p q kind reference actor s ≡ (err not_found, s))
  unfolding reserve release commit_purchase
  unregistered_refused h = (ground arith, ground arith, ground arith)

  module _ {row : ProductInventory} (found : lookup p s.inventory ≡ some row) where
    -- For a product that has an inventory row, `reserve` succeeds exactly if the quantity fits in
    -- what is not reserved yet; if it does not fit, the call raises a conflict and writes nothing.
    pub reserve_granted :
        (((reserve p q kind reference actor s).0 ≡ ok tt)
          ↔ (row.stock_reserved + q ≤ row.stock_total))
        × (¬ (row.stock_reserved + q ≤ row.stock_total)
            → reserve p q kind reference actor s ≡ (err conflict, s))
    unfolding reserve
    reserve_granted = ((λ e. ground arith, λ h. ground arith), λ h. ground arith)

    -- Where a reservation is granted, releasing the same quantity afterwards succeeds and puts the
    -- stock row of every product back as it was.
    pub release-reserve :
        row.stock_reserved + q ≤ row.stock_total
        → let (r, s') = (reserve p q kind reference actor >> release p q kind reference actor) s in
          (r ≡ ok tt) × ((j : ℕ) → lookup j s'.inventory ≡ lookup j s.inventory)
    unfolding reserve release
    release-reserve fits = (grind (arith, lookup-insert), λ j. grind (arith, lookup-insert))

    -- Where a reservation is granted, completing the purchase of the same quantity succeeds, lowers
    -- the product's total by the quantity, leaves what was reserved before reserved, and touches
    -- the row of no other product.
    pub commit_purchase-reserve :
        row.stock_reserved + q ≤ row.stock_total
        → let (r, s') =
            (reserve p q kind reference actor >> commit_purchase p q kind reference actor) s in
          (r ≡ ok tt)
          × ((j : ℕ)
              → lookup j s'.inventory ≡ (
                  if j == p
                  then some (record row { stock_total = row.stock_total - q })
                  else lookup j s.inventory))
    unfolding reserve commit_purchase
    commit_purchase-reserve fits = (grind (arith, lookup-insert), λ j. grind (arith, lookup-insert))
