-- ===== src/Catalog/Search/Pages.antt =====
-- The pages of a search against the products that it looks for (modules/catalog/repository.py).
use electronic_shop.Base.{
  ℕ, zero, suc, ◌≡◌, Bool, true, false, Option, none, some, List, [], ◌∷◌, ◌++◌, ◌==◌,
  if◌then◌else◌, length,
}
use electronic_shop.Base.Table.{Table}
use electronic_shop.Catalog.Models.{Product, ProductInventory}
use electronic_shop.Common.Pagination.{PageParams}
use electronic_shop.Catalog.Search.Wanted.{IsWanted}
use electronic_shop.Catalog.Search.{Engine, Filter, matches, list_products}

abbrev pub has_id : ℕ → Table Product → Bool
has_id id [] = false
has_id id ((j, product) ∷ rest) = if id == j then true else has_id id rest

-- The order of a query rearranges its rows, and is the same one for every page.
pub record IsOrder (engine : Engine) (params : PageParams) : Type 0 where
  pub size : (t : Table Product) → length (engine.order_by params t) ≡ length t
  pub members : (id : ℕ) (t : Table Product) → has_id id (engine.order_by params t) ≡ has_id id t
  pub steady :
      (page : ℕ) (t : Table Product)
      → engine.order_by (record params { page = page }) t ≡ engine.order_by params t

module _ (engine : Engine) (inventory : Table ProductInventory) (filter : Filter) where
  -- The product is there and passes every condition of the query.
  abbrev passes : ℕ → Option Product → Bool
  passes id none = false
  passes id (some product) = matches engine inventory filter id product

  -- The product is there, and is one that the filter asks for.
  abbrev pub IsSought : ℕ → Option Product → Type 0
  IsSought id row =
      (product : Product) × (row ≡ some product) × IsWanted engine inventory filter id product

-- The page of the request.
abbrev pub page_at :
    Engine → Table ProductInventory → Filter → PageParams → Table Product → ℕ → List (ℕ × Product)
page_at engine inventory filter params products page =
    (list_products engine inventory filter (record params { page = page }) products).items

-- The pages of the requests from the first to one, one after the other.
unfoldable pub browse :
    Engine → Table ProductInventory → Filter → PageParams → Table Product → ℕ → List (ℕ × Product)
browse engine inventory filter params products zero = []
browse engine inventory filter params products (suc n) =
    browse engine inventory filter params products n
    ++ page_at engine inventory filter params products (suc n)
