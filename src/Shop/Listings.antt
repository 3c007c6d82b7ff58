-- ===== src/Shop/Listings.antt =====
-- The theorems on categories and products at the sample shop.
use electronic_shop.Base.{
  ℕ, ◌==◌, if◌then◌else◌, is_none, ◌≡◌, ◌≢◌, ◌↔◌, refl, true, false, Option, none, some, List, [],
  ◌∷◌, contains, same_text, arith,
}
use electronic_shop.Base.Int.{pos}
use electronic_shop.Base.Table.{Table, lookup}
use electronic_shop.Base.Exec.{ok, transaction}
use electronic_shop.Catalog.Models.{Category, Product}
use electronic_shop.Catalog.Categories.{
  get_descendant_ids, walk, scan, get_by_slug, create, move, set_category,
}
use electronic_shop.Catalog.Categories.Descendants.{Below, descendants_correct}
use electronic_shop.Catalog.Categories.Forest.{IsForest}
use electronic_shop.Base.Amount.{Decimal, toman, before}
use electronic_shop.Catalog.Products.{ProductCreate, ProductUpdate, unset, null, given}
use electronic_shop.Catalog.Products.Catalogue.{IsConsistent}
use electronic_shop.Catalog.Requests.{
  Call, perform, perform_all, IsFresh, AreFresh, categories_acyclic, catalog-IsConsistent,
}
use electronic_shop.Catalog.Categories.Tree.{Nodes, get_tree}
use electronic_shop.Catalog.Categories.Tree.Complete.{times, tree_complete}
use electronic_shop.Catalog.Categories.Granted.{move_granted}
use electronic_shop.Common.Pagination.{PageParams}
use electronic_shop.Catalog.Search.{Engine, Filter, list_products}
use electronic_shop.Catalog.Search.Pages.{browse}
use electronic_shop.Database.{Database}
use electronic_shop.Shop.Samples.{shop}

-- A category under the first one, a move of the first one under it, which is refused, and a deletion,
-- which is refused too.
abbrev calls : List Call
calls =
    Call.creating 2 "cases" "cases" (some 1) (pos 0) ∷ Call.moving 1 (some 2) ∷ Call.deleting 1 ∷ []

calls-AreFresh : AreFresh calls shop
unfolding AreFresh IsFresh perform transaction create move get_by_slug get_descendant_ids walk scan
calls-AreFresh = (refl, (tt, (tt, tt)))

forest : IsForest shop.categories
forest = record {
  keyed = (refl, tt);
  present = λ u v e. ground arith;
  depth = λ v. v;
  deeper = λ u v e. ground arith;
}

categories_acyclic_example :
    IsForest (perform_all calls shop).categories
    × ((v : ℕ) → ¬ Below (perform_all calls shop).categories v v)
categories_acyclic_example = categories_acyclic calls shop calls-AreFresh forest

consistent : IsConsistent shop
consistent = record {
  priced = λ i p e. ground arith;
  categorised = λ i p e. ground arith;
  stocked = λ i p e. ground arith;
  slugs = λ i j p q e f same. ground arith;
  skus = λ i j p q e f same. ground arith;
}

-- A case for 10.40, 10.30 with the discount, which is stored as 10 and 10; then the phone becomes cheaper,
-- and too cheap for its discount, which is refused.
abbrev case : ProductCreate
case = record {
  sku = "C-1";
  name = "case";
  slug = "case";
  short_description = "";
  description = "";
  price = record { whole = 10; digits = 4 ∷ 0 ∷ [] };
  discount_price = some (record { whole = 10; digits = 3 ∷ 0 ∷ [] });
  brand = "b";
  category_id = 1;
  images = [];
  specifications = [];
  is_active = true;
  is_featured = false;
  is_popular = false;
  initial_stock = 3;
}

abbrev priced_at : Decimal → ProductUpdate
priced_at price = record {
  name = unset;
  short_description = unset;
  description = unset;
  price = given price;
  discount_price = unset;
  brand = unset;
  category_id = unset;
  images = null;
  specifications = unset;
  is_active = unset;
  is_featured = unset;
  is_popular = unset;
}

abbrev shelf_calls : List Call
shelf_calls =
    Call.creating_product 2 case
    ∷ Call.updating_product 1 (priced_at (record { whole = 260; digits = 5 ∷ [] }))
    ∷ Call.updating_product 1 (priced_at (toman 200))
    ∷ []

shelf_calls-AreFresh : AreFresh shelf_calls shop
unfolding AreFresh IsFresh before
shelf_calls-AreFresh = ((refl, refl), (tt, (tt, tt)))

catalog-IsConsistent_example : IsConsistent (perform_all shelf_calls shop)
catalog-IsConsistent_example = catalog-IsConsistent shelf_calls shop shelf_calls-AreFresh consistent

abbrev row : Option ℕ → Category
row parent_id = record {
  parent_id = parent_id;
  name = "n";
  slug = "s";
  is_active = true;
  sort_order = pos 0;
}

-- Two categories that stand below each other, and one below both.
abbrev circle : Table Category
circle = (1, row (some 2)) ∷ (2, row (some 1)) ∷ (3, row (some 2)) ∷ []

descendants_correct_example :
    (ds : List ℕ) × (get_descendant_ids 1 circle ≡ some ds)
    × ((v : ℕ) → (contains v ds ≡ true) ↔ Below circle 1 v)
descendants_correct_example = descendants_correct circle 1 (refl, (refl, (refl, tt)))

-- One category at the top with two below it, one of which has one below itself.
abbrev rows : Table Category
rows = (1, row none) ∷ (2, row (some 1)) ∷ (3, row (some 1)) ∷ (4, row (some 3)) ∷ []

abbrev depth_of : ℕ → ℕ
depth_of v = if v == 1 then 0 else if v == 4 then 2 else 1

rows-IsForest : IsForest rows
rows-IsForest = record {
  keyed = (refl, (refl, (refl, (refl, tt))));
  present = λ u v e. ground arith;
  depth = depth_of;
  deeper = λ u v e. ground arith;
}

tree_complete_example :
    (fuel : ℕ) × (ns : Nodes) × (get_tree fuel rows ≡ some ns)
    × ((v : ℕ) → times v ns ≡ (if is_none (lookup v rows) then 0 else 1))
tree_complete_example = tree_complete rows rows-IsForest

abbrev arranged : Database
arranged = record shop { categories = rows }

move_granted_example :
    ((◌≢◌ {A = ℕ} 4 2) × (lookup 4 rows ≢ none) × (¬ Below rows 2 4))
    ↔ (move 2 (some 4) arranged ≡ (ok (row (some 4)), set_category 2 (row (some 4)) arranged))
move_granted_example =
    move_granted arranged 2 4 (row (some 1)) (refl, (refl, (refl, (refl, tt)))) refl

abbrev engine : Engine
engine = record { ilike = same_text; strip = λ s. s; order_by = λ params t. t }

-- The active products that cost at least 100.
abbrev wanted : Filter
wanted = record {
  category_id = none;
  brand = none;
  min_price = some (pos 100);
  max_price = none;
  in_stock_only = true;
  search = none;
  is_featured = none;
  is_active = some true;
}

abbrev first_page : PageParams
first_page = record { page = 1; page_size = 20 }

abbrev seen : List (ℕ × Product)
seen =
    browse engine shop.stock.inventory wanted first_page shop.products
      (list_products engine shop.stock.inventory wanted first_page shop.products).total_pages
