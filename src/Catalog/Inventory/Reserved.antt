-- ===== src/Catalog/Inventory/Reserved.antt =====
-- How much of a product is reserved and in stock, for modules/catalog/inventory_service.py.
use electronic_shop.Base.{
  ℕ, ◌+◌, ◌-◌, ◌≤◌, String, ◌≡◌, Option, none, some, arith, ◌==◌, if◌then◌else◌,
}
use electronic_shop.Base.Table.{lookup, lookup-insert}
use electronic_shop.Base.Exec.{ok}
use electronic_shop.Catalog.Models.{ProductInventory, Stock}
use electronic_shop.Catalog.Inventory.{reserve, release, commit_purchase}

-- `stock_reserved` of a row; a product without one has nothing reserved.
abbrev pub row_reserved : Option ProductInventory → ℕ
row_reserved none = 0
row_reserved (some row) = row.stock_reserved

abbrev pub row_total : Option ProductInventory → ℕ
row_total none = 0
row_total (some row) = row.stock_total

abbrev pub reserved_of : ℕ → Stock → ℕ
reserved_of p s = row_reserved (lookup p s.inventory)

abbrev pub total_of : ℕ → Stock → ℕ
total_of p s = row_total (lookup p s.inventory)

-- The quantity `q` where `j` is the product that it is of.
abbrev pub of_product : ℕ → ℕ → ℕ → ℕ
of_product j p q = if j == p then q else 0

module _ (p q : ℕ) (kind : String) (reference : ℕ) (actor : Option ℕ) (s : Stock) (j : ℕ) where
  pub reserved_of-reserve :
      (reserve p q kind reference actor s).0 ≡ ok tt
      → reserved_of j (reserve p q kind reference actor s).1 ≡ reserved_of j s + of_product j p q
  unfolding reserve
  reserved_of-reserve h = grind (arith, lookup-insert)

  pub total_of-reserve : total_of j (reserve p q kind reference actor s).1 ≡ total_of j s
  unfolding reserve
  total_of-reserve = grind (arith, lookup-insert)

  pub reserved_of-release :
      reserved_of j (release p q kind reference actor s).1 ≡ reserved_of j s - of_product j p q
  unfolding release
  reserved_of-release = grind (arith, lookup-insert)

  pub total_of-release : total_of j (release p q kind reference actor s).1 ≡ total_of j s
  unfolding release
  total_of-release = grind (arith, lookup-insert)

  pub reserved_of-commit_purchase :
      reserved_of j (commit_purchase p q kind reference actor s).1
      ≡ reserved_of j s - of_product j p q
  unfolding commit_purchase
  reserved_of-commit_purchase = grind (arith, lookup-insert)

  pub total_of-commit_purchase :
      total_of j (commit_purchase p q kind reference actor s).1 ≡ total_of j s - of_product j p q
  unfolding commit_purchase
  total_of-commit_purchase = grind (arith, lookup-insert)

  -- A granted reservation leaves no product with more reserved than there is.
  pub fits-reserve :
      (reserve p q kind reference actor s).0 ≡ ok tt
      → reserved_of j s ≤ total_of j s
      → reserved_of j (reserve p q kind reference actor s).1
        ≤ total_of j (reserve p q kind reference actor s).1
  unfolding reserve
  fits-reserve h fits = grind (arith, lookup-insert)
