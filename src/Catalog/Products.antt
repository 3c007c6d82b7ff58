-- ===== src/Catalog/Products.antt =====
-- backend/app/modules/catalog/service.py, class ProductService, over class ProductRepository of
-- repository.py, with the requests of schemas.py. The identifier of a new product is an argument; the
-- page cache that the methods invalidate is left out.
pub mod Catalogue
pub mod Shelves
use electronic_shop.Base.{
  ℕ, String, Bool, true, false, not, ◌||◌, Option, none, some, List, [], ◌∷◌, same_text, ltb,
  if◌then◌else◌,
}
use electronic_shop.Base.Amount.{Decimal, toman, less, is_positive, rounded}
use electronic_shop.Base.Table.{Table, lookup, insert}
use electronic_shop.Base.Exec.{
  Exec, conflict, not_found, internal_error, pure, raise, gets, or_raise, raise_if, modify, ◌>>=◌,
  ◌>>◌,
}
use electronic_shop.Catalog.Models.{Product, ProductInventory, Stock}
use electronic_shop.Database.{Database}

pub record ProductCreate : Type 0 where
  pub sku : String
  pub name : String
  pub slug : String
  pub short_description : String
  pub description : String
  pub price : Decimal
  pub discount_price : Option Decimal
  pub brand : String
  pub category_id : ℕ
  pub images : List String
  pub specifications : List (String × String)
  pub is_active : Bool
  pub is_featured : Bool
  pub is_popular : Bool
  pub initial_stock : ℕ

-- `discount_price is None or discount_price < price`
abbrev pub discount_below : Option Decimal → Decimal → Bool
discount_below none price = true
discount_below (some discount) price = less discount price

-- What the schema checks of the prices: `price > 0`, and `_discount_below_price`.
abbrev pub is_valid : ProductCreate → Bool
is_valid fields =
    if is_positive fields.price then discount_below fields.discount_price fields.price else false

-- A field of `ProductUpdate`: left out, sent as null, or given.
pub data Field (A : Type 0) : Type 0 where
  unset null : Field A
  given : A → Field A

pub record ProductUpdate : Type 0 where
  pub name : Field String
  pub short_description : Field String
  pub description : Field String
  pub price : Field Decimal
  pub discount_price : Field Decimal
  pub brand : Field String
  pub category_id : Field ℕ
  pub images : Field (List String)
  pub specifications : Field (List (String × String))
  pub is_active : Field Bool
  pub is_featured : Field Bool
  pub is_popular : Field Bool

-- `update_fields.get(field, old)`, of a column that is not nullable and of one that is.
abbrev pub get_field : {A : Type 0} → Field A → A → Option A
get_field unset old = some old
get_field null old = none
get_field (given a) old = some a

abbrev pub get_nullable : {A : Type 0} → Field A → Option A → Option A
get_nullable unset old = old
get_nullable null old = none
get_nullable (given a) old = some a

-- A stored price, among those of the request.
abbrev pub as_decimal : Option ℕ → Option Decimal
as_decimal none = none
as_decimal (some price) = some (toman price)

-- NUMERIC(12, 0): a price is rounded to whole toman when it is stored, half a toman upwards, and one
-- of more than twelve digits is refused.
abbrev pub fits_price : ℕ → Bool
fits_price price = ltb price 1000000000000

abbrev pub fits_discount : Option ℕ → Bool
fits_discount none = true
fits_discount (some price) = fits_price price

abbrev pub stored_discount : Option Decimal → Option ℕ
stored_discount none = none
stored_discount (some price) = some (rounded price)

abbrev pub clashes : String → String → Product → Bool
clashes slug sku product = same_text product.slug slug || same_text product.sku sku

-- `ProductRepository.get_by_slug_or_sku`, as the rows of its query.
unfoldable pub by_slug_or_sku : String → String → Table Product → List ℕ
by_slug_or_sku slug sku [] = []
by_slug_or_sku slug sku ((id, product) ∷ rest) =
    let others = by_slug_or_sku slug sku rest in
    if clashes slug sku product then id ∷ others else others

-- `scalar_one_or_none` raises where there are two rows.
abbrev pub refuse_known : List ℕ → Exec Database (Unit {0})
refuse_known [] = pure tt
refuse_known (id ∷ []) = raise conflict
refuse_known (id ∷ other ∷ more) = raise internal_error

abbrev pub get_category : ℕ → Exec Database (Unit {0})
get_category id = do or_raise (← gets (λ d. lookup id d.categories)) not_found; pure tt

abbrev pub get_by_id : ℕ → Exec Database Product
get_by_id id = do or_raise (← gets (λ d. lookup id d.products)) not_found

abbrev pub new_product : ProductCreate → Product
new_product fields = record {
  sku = fields.sku;
  name = fields.name;
  slug = fields.slug;
  short_description = fields.short_description;
  description = fields.description;
  price = rounded fields.price;
  discount_price = stored_discount fields.discount_price;
  brand = fields.brand;
  category_id = fields.category_id;
  images = some fields.images;
  specifications = some fields.specifications;
  is_active = fields.is_active;
  is_featured = fields.is_featured;
  is_popular = fields.is_popular;
}

-- The prices of a row that is flushed.
abbrev pub flush_prices : Product → Exec Database (Unit {0})
flush_prices product =
    raise_if (not (fits_price product.price) || not (fits_discount product.discount_price))
      internal_error

abbrev pub set_product : ℕ → Product → Database → Database
set_product id product d = record d { products = insert id product d.products }

abbrev pub set_inventory : ℕ → ProductInventory → Database → Database
set_inventory id row d = record d {
  stock = record { inventory = insert id row d.stock.inventory; history = d.stock.history };
}

unfoldable pub create : ℕ → ProductCreate → Exec Database Product
unfolding by_slug_or_sku
create id fields = do
  known ← gets (λ d. by_slug_or_sku fields.slug fields.sku d.products)
  refuse_known known
  get_category fields.category_id
  flush_prices (new_product fields)
  modify (set_product id (new_product fields))
  modify (set_inventory id (record { stock_total = fields.initial_stock; stock_reserved = 0 }))
  pure (new_product fields)

abbrev pub check_category : Field ℕ → Exec Database (Unit {0})
check_category unset = pure tt
check_category null = pure tt
check_category (given id) = get_category id

-- A discount that is compared with a price of null is a type error.
abbrev pub check_discount : Option Decimal → Option Decimal → Exec Database (Unit {0})
check_discount none price = pure tt
check_discount (some discount) none = raise internal_error
check_discount (some discount) (some price) = raise_if (not (less discount price)) conflict

abbrev pub is_null : {A : Type 0} → Field A → Bool
is_null unset = false
is_null null = true
is_null (given a) = false

abbrev pub any_of : List Bool → Bool
any_of [] = false
any_of (b ∷ bs) = b || any_of bs

-- A column that is not nullable got null, which is refused when the session is flushed. The two JSONB
-- columns take it, as the JSON value null.
unfoldable pub has_null : ProductUpdate → Bool
has_null fields = any_of (
    is_null fields.name
    ∷ is_null fields.short_description
    ∷ is_null fields.description
    ∷ is_null fields.price
    ∷ is_null fields.brand
    ∷ is_null fields.category_id
    ∷ is_null fields.is_active
    ∷ is_null fields.is_featured
    ∷ is_null fields.is_popular
    ∷ [])

abbrev pub kept : {A : Type 0} → Field A → A → A
kept unset old = old
kept null old = old
kept (given a) old = a

abbrev pub kept_price : Field Decimal → ℕ → ℕ
kept_price unset old = old
kept_price null old = old
kept_price (given price) old = rounded price

abbrev pub kept_discount : Field Decimal → Option ℕ → Option ℕ
kept_discount unset old = old
kept_discount null old = none
kept_discount (given price) old = some (rounded price)

-- The loop of `setattr`, where no column got a null that it does not take.
abbrev pub set_fields : ProductUpdate → Product → Product
set_fields fields product = record product {
  name = kept fields.name product.name;
  short_description = kept fields.short_description product.short_description;
  description = kept fields.description product.description;
  price = kept_price fields.price product.price;
  discount_price = kept_discount fields.discount_price product.discount_price;
  brand = kept fields.brand product.brand;
  category_id = kept fields.category_id product.category_id;
  images = get_nullable fields.images product.images;
  specifications = get_nullable fields.specifications product.specifications;
  is_active = kept fields.is_active product.is_active;
  is_featured = kept fields.is_featured product.is_featured;
  is_popular = kept fields.is_popular product.is_popular;
}

unfoldable pub update : ℕ → ProductUpdate → Exec Database Product
update id fields = do
  product ← get_by_id id
  check_category fields.category_id
  check_discount (get_nullable fields.discount_price (as_decimal product.discount_price))
      (get_field fields.price (toman product.price))
  raise_if (has_null fields) internal_error
  flush_prices (set_fields fields product)
  modify (set_product id (set_fields fields product))
  pure (set_fields fields product)

unfoldable pub archive : ℕ → Exec Database (Unit {0})
archive id = do
  product ← get_by_id id
  modify (set_product id (record product { is_active = false }))
