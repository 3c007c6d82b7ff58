-- ===== src/Catalog/Search/Wanted.antt =====
-- The products that the filter of a search (modules/catalog/repository.py) asks for, described apart from
-- the conditions of its query.
use Prim.Native.String as Text
use text.Mathlib.TextLemmas.{cons-ne-nil}
use electronic_shop.Base.{
  ℕ, ◌<◌, String, ◌≡◌, ◌≢◌, ◌⊎◌, ◌↔◌, refl, Bool, true, Option, none, some, ◌==◌, same_text,
  same_text-eq, same_bool, not, arith,
}
use electronic_shop.Base.Int.{ℤ, pos, ltb_ℤ, ◌≤ℤ◌}
use electronic_shop.Base.Table.{Table, lookup}
use electronic_shop.Catalog.Models.{Product, ProductInventory}
use electronic_shop.Catalog.Search.{
  Engine, Filter, given, given_text, is_available, term, normalize_persian, found_by, matches,
}

-- The pattern of a search text: the text, stripped, with anything before and after it.
abbrev pub IsFound : Engine → Product → String → Type 0
IsFound engine product text =
    (engine.ilike (normalize_persian product.name) (normalize_persian (term engine text)) ≡ true)
    ⊎ (engine.ilike (normalize_persian product.description) (normalize_persian (term engine text))
        ≡ true)
    ⊎ (engine.ilike product.sku (term engine text) ≡ true)
    ⊎ (engine.ilike product.brand (term engine text) ≡ true)

-- What the filter gives, the product has.
pub record IsWanted (engine : Engine) (inventory : Table ProductInventory) (filter : Filter)
    (id : ℕ) (product : Product) : Type 0 where
  pub category : (c : ℕ) → filter.category_id ≡ some c → product.category_id ≡ c
  pub brand : (b : String) → filter.brand ≡ some b → b ≢ "" → product.brand ≡ b
  pub at_least : (n : ℤ) → filter.min_price ≡ some n → n ≤ℤ pos product.price
  pub at_most : (n : ℤ) → filter.max_price ≡ some n → pos product.price ≤ℤ n
  pub featured : (flag : Bool) → filter.is_featured ≡ some flag → product.is_featured ≡ flag
  pub active : (flag : Bool) → filter.is_active ≡ some flag → product.is_active ≡ flag
  pub available :
      filter.in_stock_only ≡ true
      → (row : ProductInventory) × (lookup id inventory ≡ some row)
        × (row.stock_reserved < row.stock_total)
  pub found : (text : String) → filter.search ≡ some text → text ≢ "" → IsFound engine product text

given_lem :
    {A : Type 0} (o : Option A) (test : A → Bool)
    → (given o test ≡ true) ↔ ((a : A) → o ≡ some a → test a ≡ true)
given_lem none test = (λ h a e. cc, λ h. refl)
given_lem (some b) test = (λ h a e. cc, λ h. h b refl)

given_text_lem :
    (o : Option String) (test : String → Bool)
    → (given_text o test ≡ true) ↔ ((a : String) → o ≡ some a → a ≢ "" → test a ≡ true)
given_text_lem none test = (λ h a e n. cc, λ h. refl)
given_text_lem (some Text.[]) test = (λ h a e n. absurd (ground arith), λ h. refl)
given_text_lem (some (Text.◌∷◌ c s)) test =
    (λ h a e n. cc, λ h. h (Text.◌∷◌ c s) refl (cons-ne-nil c s))

found_lem :
    (engine : Engine) (product : Product) (text : String)
    → (found_by engine product text ≡ true) ↔ IsFound engine product text
unfolding found_by
found_lem engine product text = (λ h. ground arith, λ h. ground arith)

same_bool_lem : (a b : Bool) → (same_bool a b ≡ true) ↔ (a ≡ b)
same_bool_lem a b = (λ h. ground arith, λ h. ground arith)

available_lem :
    (o : Option ProductInventory)
    → (is_available o ≡ true)
      ↔ ((row : ProductInventory) × (o ≡ some row) × (row.stock_reserved < row.stock_total))
available_lem none = (λ h. cc, λ (row, e, l). cc)
available_lem (some row) = (λ h. (row, refl, ground arith), λ (other, e, l). ground arith)

module _ (engine : Engine) (inventory : Table ProductInventory) (filter : Filter) (id : ℕ)
    (product : Product) where
  matches-IsWanted :
      matches engine inventory filter id product ≡ true
      → IsWanted engine inventory filter id product
  unfolding matches
  matches-IsWanted h = record {
    category = λ c e. ground arith;
    brand = λ b e n.
        let test : same_text product.brand b ≡ true =
          (given_text_lem filter.brand (same_text product.brand)).0 (ground arith) b e n in
        (same_text-eq product.brand b).0 test;
    at_least = λ n e. ground arith;
    at_most = λ n e. ground arith;
    featured = λ flag e. (same_bool_lem product.is_featured flag).0 (ground arith);
    active = λ flag e. (same_bool_lem product.is_active flag).0 (ground arith);
    available = λ e. (available_lem (lookup id inventory)).0 (ground arith);
    found = λ text e n.
        (found_lem engine product text).0
          ((given_text_lem filter.search (found_by engine product)).0 (ground arith) text e n);
  }

  IsWanted-matches :
      IsWanted engine inventory filter id product
      → matches engine inventory filter id product ≡ true
  unfolding matches
  IsWanted-matches w =
      let category : given filter.category_id (λ c. product.category_id == c) ≡ true =
        (given_lem filter.category_id (λ c. product.category_id == c)).1
          (λ c e. ground (arith, w.category c e)) in
      let brand : given_text filter.brand (same_text product.brand) ≡ true =
        (given_text_lem filter.brand (same_text product.brand)).1
          (λ b e n. (same_text-eq product.brand b).1 (w.brand b e n)) in
      let at_least : given filter.min_price (λ n. not (ltb_ℤ (pos product.price) n)) ≡ true =
        (given_lem filter.min_price (λ n. not (ltb_ℤ (pos product.price) n))).1
          (λ n e. ground (arith, w.at_least n e)) in
      let at_most : given filter.max_price (λ n. not (ltb_ℤ n (pos product.price))) ≡ true =
        (given_lem filter.max_price (λ n. not (ltb_ℤ n (pos product.price)))).1
          (λ n e. ground (arith, w.at_most n e)) in
      let featured : given filter.is_featured (same_bool product.is_featured) ≡ true =
        (given_lem filter.is_featured (same_bool product.is_featured)).1
          (λ flag e. (same_bool_lem product.is_featured flag).1 (w.featured flag e)) in
      let active : given filter.is_active (same_bool product.is_active) ≡ true =
        (given_lem filter.is_active (same_bool product.is_active)).1
          (λ flag e. (same_bool_lem product.is_active flag).1 (w.active flag e)) in
      let stock : (filter.in_stock_only ≡ true → is_available (lookup id inventory) ≡ true) =
        λ e. (available_lem (lookup id inventory)).1 (w.available e) in
      let text : given_text filter.search (found_by engine product) ≡ true =
        (given_text_lem filter.search (found_by engine product)).1
          (λ t e n. (found_lem engine product t).1 (w.found t e n)) in
      ground arith

  -- The query's conditions hold of exactly the products that the filter asks for.
  pub matches_lem :
      (matches engine inventory filter id product ≡ true)
      ↔ IsWanted engine inventory filter id product
  matches_lem = (matches-IsWanted, IsWanted-matches)
