-- ===== src/Catalog/Search.antt =====
-- `ProductRepository.search` (modules/catalog/repository.py) and the route of modules/catalog/router.py
-- that shows a page of it. The database's ILIKE and its order of the rows, and `str.strip`, are parameters.
pub mod Wanted
pub mod Pages
use Prim.Native.Char.{Char, char, code}
use Prim.Native.String as Text
use electronic_shop.Base.{
  ℕ, ◌+◌, String, Bool, true, false, ◌||◌, Option, none, some, List, [], ◌∷◌, ◌==◌, same_text,
  same_bool, if◌then◌else◌, ltb, not, length,
}
use electronic_shop.Base.Int.{ℤ, pos, ltb_ℤ}
use electronic_shop.Base.Table.{Table, lookup}
use electronic_shop.Catalog.Models.{Product, ProductInventory}
use electronic_shop.Common.Pagination
use electronic_shop.Common.Pagination.{PageParams, Page, page_of}

-- Prices are whole numbers, so that a bound between two of them says the same as the next one.
pub record Filter : Type 0 where
  pub category_id : Option ℕ
  pub brand : Option String
  pub min_price : Option ℤ
  pub max_price : Option ℤ
  pub in_stock_only : Bool
  pub search : Option String
  pub is_featured : Option Bool
  pub is_active : Option Bool

-- `order_by` is the order in which the database returns the rows of the query for a page. The sort
-- column may have equal values, so that it may be another one for another page.
pub record Engine : Type 0 where
  pub ilike : String → String → Bool
  pub strip : String → String
  pub order_by : PageParams → Table Product → Table Product

-- `_PERSIAN_NORMALIZE_FROM` to `_PERSIAN_NORMALIZE_TO`, one character at a time, by their numbers: the
-- Arabic letters yeh and kaf become the Persian ones.
abbrev pub normalize_char : Char → Char
normalize_char c =
    if code c == 1610 then char 1740 tt else if code c == 1603 then char 1705 tt else c

unfoldable pub normalize_persian : String → String
normalize_persian Text.[] = Text.[]
normalize_persian (Text.◌∷◌ c s) = Text.◌∷◌ (normalize_char c) (normalize_persian s)

-- A condition that applies where its argument is given.
abbrev pub given {ℓ} : {A : Type ℓ} → Option A → (A → Bool) → Bool
given none test = true
given (some a) test = test a

-- A text that is given and not empty.
abbrev pub given_text : Option String → (String → Bool) → Bool
given_text none test = true
given_text (some Text.[]) test = true
given_text (some (Text.◌∷◌ c s)) test = test (Text.◌∷◌ c s)

abbrev pub is_available : Option ProductInventory → Bool
is_available none = false
is_available (some row) = ltb row.stock_reserved row.stock_total

abbrev pub term : Engine → String → String
term engine search = Text.◌++◌ "%" (Text.◌++◌ (engine.strip search) "%")

unfoldable pub found_by : Engine → Product → String → Bool
found_by engine product search =
    engine.ilike (normalize_persian product.name) (normalize_persian (term engine search))
    || engine.ilike (normalize_persian product.description) (normalize_persian (term engine search))
    || engine.ilike product.sku (term engine search)
    || engine.ilike product.brand (term engine search)

abbrev pub all_of : List Bool → Bool
all_of [] = true
all_of (b ∷ bs) = if b then all_of bs else false

-- `_base_query`, the conditions on one row
unfoldable pub matches : Engine → Table ProductInventory → Filter → ℕ → Product → Bool
matches engine inventory filter id product = all_of (
    given filter.category_id (λ category_id. product.category_id == category_id)
    ∷ given_text filter.brand (λ brand. same_text product.brand brand)
    ∷ given filter.min_price (λ price. not (ltb_ℤ (pos product.price) price))
    ∷ given filter.max_price (λ price. not (ltb_ℤ price (pos product.price)))
    ∷ given filter.is_featured (λ flag. same_bool product.is_featured flag)
    ∷ given filter.is_active (λ flag. same_bool product.is_active flag)
    ∷ (if filter.in_stock_only then is_available (lookup id inventory) else true)
    ∷ given_text filter.search (found_by engine product)
    ∷ [])

unfoldable pub base_query : Engine → Table ProductInventory → Filter → Table Product → Table Product
base_query engine inventory filter [] = []
base_query engine inventory filter ((id, product) ∷ rest) =
    let others = base_query engine inventory filter rest in
    if matches engine inventory filter id product then (id, product) ∷ others else others

-- The page of items, and the number of all.
unfoldable pub search :
    Engine → Table ProductInventory → Filter → PageParams → Table Product → Table Product × ℕ
search engine inventory filter params products =
    let rows = base_query engine inventory filter products in
    (page_of params (engine.order_by params rows), length rows)

unfoldable pub list_products :
    Engine → Table ProductInventory → Filter → PageParams → Table Product → Page (ℕ × Product)
list_products engine inventory filter params products =
    let (items, total) = search engine inventory filter params products in
    Pagination.create items total params
