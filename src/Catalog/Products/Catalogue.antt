-- ===== src/Catalog/Products/Catalogue.antt =====
-- The consistency of the catalog's tables under the methods of ProductService
-- (modules/catalog/service.py).
use electronic_shop.Base.{
  Bool, Option, leb, ℕ, String, ◌≡◌, ◌≢◌, ◌⊎◌, inl, inr, refl, true, false, none, some,
  Option-cases, List, [], ◌∷◌, same_text-eq, arith,
}
use electronic_shop.Base.Table.{Table, lookup, insert, lookup-insert}
use electronic_shop.Base.Exec.{ok, transaction, transaction_rule}
use electronic_shop.Catalog.Models.{Product}
use electronic_shop.Catalog.Products.{
  ProductCreate, ProductUpdate, is_valid, by_slug_or_sku, new_product, create, update, archive,
  set_fields, refuse_known, check_discount, get_nullable, get_field, Field, unset, null, given,
  as_decimal, kept_discount,
}
use electronic_shop.Base.Amount.{Decimal, toman, rounded, less-rounded}
use electronic_shop.Database.{Database}

-- `discount_price is None or discount_price <= price`
abbrev pub discount_within : Option ℕ → ℕ → Bool
discount_within none price = true
discount_within (some discount) price = leb discount price

-- Every product's discounted price is at most its price, its category is there, it has a stock row, and
-- no other product has its slug or its sku.
pub record IsConsistent (d : Database) : Type 0 where
  pub priced :
      (i : ℕ) (p : Product)
      → lookup i d.products ≡ some p
      → discount_within p.discount_price p.price ≡ true
  pub categorised :
      (i : ℕ) (p : Product)
      → lookup i d.products ≡ some p
      → lookup p.category_id d.categories ≢ none
  pub stocked :
      (i : ℕ) (p : Product) → lookup i d.products ≡ some p → lookup i d.stock.inventory ≢ none
  pub slugs :
      (i j : ℕ) (p q : Product)
      → lookup i d.products ≡ some p
      → lookup j d.products ≡ some q
      → p.slug ≡ q.slug
      → i ≡ j
  pub skus :
      (i j : ℕ) (p q : Product)
      → lookup i d.products ≡ some p
      → lookup j d.products ≡ some q
      → p.sku ≡ q.sku
      → i ≡ j

pub by_slug_or_sku-nil :
    (slug sku : String) (t : Table Product) (j : ℕ) (q : Product)
    → by_slug_or_sku slug sku t ≡ []
    → lookup j t ≡ some q
    → (q.slug ≢ slug) × (q.sku ≢ sku)
unfolding by_slug_or_sku
by_slug_or_sku-nil slug sku [] j q h e = cc
by_slug_or_sku-nil slug sku ((k, p) ∷ t) j q h e =
    ground
      (arith, by_slug_or_sku-nil slug sku t j q, same_text-eq p.slug slug, same_text-eq p.sku sku)

-- A table of products in which the product `id` is `new`, over consistent tables.
module _ (d d' : Database) (h : IsConsistent d) (id : ℕ) (new : Product)
    (written : d'.products ≡ insert id new d.products) (same : d'.categories ≡ d.categories)
    (there : (j : ℕ) → lookup j d.stock.inventory ≢ none → lookup j d'.stock.inventory ≢ none)
    (row : lookup id d'.stock.inventory ≢ none)
    (price : discount_within new.discount_price new.price ≡ true)
    (category : lookup new.category_id d.categories ≢ none)
    (slug : (j : ℕ) (q : Product) → lookup j d.products ≡ some q → q.slug ≡ new.slug → j ≡ id)
    (sku : (j : ℕ) (q : Product) → lookup j d.products ≡ some q → q.sku ≡ new.sku → j ≡ id) where
  found :
      (i : ℕ) (p : Product)
      → lookup i d'.products ≡ some p
      → ((i ≡ id) × (p ≡ new)) ⊎ (lookup i d.products ≡ some p)
  found i p e = ground (arith, lookup-insert id i new d.products)

  pub written-IsConsistent : IsConsistent d'
  written-IsConsistent = record {
    priced = λ i p e. ground (arith, found i p e, h.priced i p);
    categorised = λ i p e. rw same (ground (arith, found i p e, h.categorised i p));
    stocked = λ i p e. ground (arith, found i p e, h.stocked i p, there i);
    slugs = λ i j p q e f g.
        ground (arith, found i p e, found j q f, h.slugs i j p q, slug i p, slug j q);
    skus =
        λ i j p q e f g. ground (arith, found i p e, found j q f, h.skus i j p q, sku i p, sku j q);
  }

refuse_known_nil : (known : List ℕ) (d : Database) → (refuse_known known d).0 ≡ ok tt → known ≡ []
refuse_known_nil [] d h = refl
refuse_known_nil (i ∷ []) d h = cc
refuse_known_nil (i ∷ j ∷ more) d h = cc

-- The guards on the prices of a request, and the prices that are stored.
abbrev asked_price : Field Decimal → ℕ → Decimal
asked_price unset old = toman old
asked_price null old = toman old
asked_price (given price) old = price

stored_or_given :
    (field : Field Decimal) (old : Option ℕ)
    → (kept_discount field old ≡ none)
      ⊎ ((discount : Decimal) × (get_nullable field (as_decimal old) ≡ some discount)
          × (kept_discount field old ≡ some (rounded discount)))
stored_or_given unset none = inl refl
stored_or_given unset (some n) = inr (toman n, refl, refl)
stored_or_given null old = inl refl
stored_or_given (given price) old = inr (price, refl, refl)

price_kept :
    (fields : ProductUpdate) (old : Product) (d : Database)
    → (check_discount
        (get_nullable fields.discount_price (as_decimal old.discount_price))
        (get_field fields.price (toman old.price))
        d).0
      ≡ ok tt
    → discount_within (set_fields fields old).discount_price (set_fields fields old).price ≡ true
price_kept fields old d h = elim (stored_or_given fields.discount_price old.discount_price) [
  | inl e ↦ ground arith
  | inr (discount, asked, stored) ↦
      ground (arith, less-rounded discount (asked_price fields.price old.price))
]

price_created :
    (fields : ProductCreate)
    → is_valid fields ≡ true
    → discount_within (new_product fields).discount_price (new_product fields).price ≡ true
price_created fields valid = elim (Option-cases fields.discount_price) [
  | inl e ↦ ground arith
  | inr (discount, e) ↦ ground (arith, less-rounded discount fields.price)
]

module _ (d : Database) (h : IsConsistent d) (id : ℕ) where
  pub create-IsConsistent :
      (fields : ProductCreate)
      → is_valid fields ≡ true
      → lookup id d.products ≡ none
      → IsConsistent (transaction (create id fields) d).1
  unfolding create
  create-IsConsistent fields valid fresh =
      transaction_rule IsConsistent (create id fields) d h λ p e.
        let d' = (create id fields d).1 in
        let unknown : by_slug_or_sku fields.slug fields.sku d.products ≡ [] =
          refuse_known_nil (by_slug_or_sku fields.slug fields.sku d.products) d (ground arith) in
        written-IsConsistent d d' h id (new_product fields) (ground arith) (ground arith)
          (λ j there. grind (arith, lookup-insert)) (grind (arith, lookup-insert))
          (price_created fields valid) (ground arith)
          (λ j q f g.
            absurd ((by_slug_or_sku-nil fields.slug fields.sku d.products j q unknown f).0 g))
          (λ j q f g.
            absurd ((by_slug_or_sku-nil fields.slug fields.sku d.products j q unknown f).1 g))

  pub update-IsConsistent :
      (fields : ProductUpdate) → IsConsistent (transaction (update id fields) d).1
  unfolding update
  update-IsConsistent fields = transaction_rule IsConsistent (update id fields) d h λ p e.
      let d' = (update id fields d).1 in
      elim (Option-cases (lookup id d.products)) [
        | inl q ↦ absurd (ground arith)
        | inr (old, there) ↦
            written-IsConsistent d d' h id (set_fields fields old) (ground arith) (ground arith)
              (λ j k. ground arith) (ground (arith, h.stocked id old))
              (price_kept fields old d (ground arith)) (ground (arith, h.categorised id old there))
              (λ j q f g. h.slugs j id q old f there g) (λ j q f g. h.skus j id q old f there g)
      ]

  pub archive-IsConsistent : IsConsistent (transaction (archive id) d).1
  unfolding archive
  archive-IsConsistent = transaction_rule IsConsistent (archive id) d h λ u e.
      let d' = (archive id d).1 in
      elim (Option-cases (lookup id d.products)) [
        | inl q ↦ absurd (ground arith)
        | inr (old, there) ↦
            written-IsConsistent d d' h id (record old { is_active = false }) (ground arith)
              (ground arith) (λ j k. ground arith) (ground (arith, h.stocked id old))
              (h.priced id old there) (h.categorised id old there)
              (λ j q f g. h.slugs j id q old f there g) (λ j q f g. h.skus j id q old f there g)
      ]

pub create-categories :
    (id : ℕ) (fields : ProductCreate) (d : Database)
    → (transaction (create id fields) d).1.categories ≡ d.categories
unfolding create transaction
create-categories id fields d = ground arith

pub update-categories :
    (id : ℕ) (fields : ProductUpdate) (d : Database)
    → (transaction (update id fields) d).1.categories ≡ d.categories
unfolding update transaction
update-categories id fields d = ground arith

pub archive-categories :
    (id : ℕ) (d : Database) → (transaction (archive id) d).1.categories ≡ d.categories
unfolding archive transaction
archive-categories id d = ground arith
