-- ===== src/Catalog/Products/Shelves.antt =====
-- The products' categories under the methods of CategoryService (modules/catalog/service.py).
use electronic_shop.Base.{ℕ, String, ◌≡◌, ◌≢◌, Bool, false, Option, none, some, [], ◌∷◌, arith}
use electronic_shop.Base.Int.{ℤ}
use electronic_shop.Base.Table.{Table, lookup, lookup-insert, lookup-erase}
use electronic_shop.Base.Exec.{transaction, transaction_rule}
use electronic_shop.Catalog.Models.{Product}
use electronic_shop.Catalog.Categories.{create, update, move, delete, has_products}
use electronic_shop.Catalog.Products.Catalogue.{IsConsistent}
use electronic_shop.Database.{Database}

-- Other categories, among which those of the products still are.
recategorised :
    (d d' : Database)
    → IsConsistent d
    → d'.products ≡ d.products
    → d'.stock ≡ d.stock
    → ((i : ℕ) (p : Product)
        → lookup i d.products ≡ some p
        → lookup p.category_id d.categories ≢ none
        → lookup p.category_id d'.categories ≢ none)
    → IsConsistent d'
recategorised d d' h products stock kept = record {
  priced = rw products h.priced;
  categorised = λ i p e. kept i p (ground arith) (ground (arith, h.categorised i p));
  stocked = rw (products, stock) h.stocked;
  slugs = rw products h.slugs;
  skus = rw products h.skus;
}

has_products_lem :
    (id : ℕ) (t : Table Product) (i : ℕ) (p : Product)
    → has_products id t ≡ false
    → lookup i t ≡ some p
    → p.category_id ≢ id
unfolding has_products
has_products_lem id [] i p h e = cc
has_products_lem id ((j, q) ∷ t) i p h e = ground (arith, has_products_lem id t i p)

module _ (d : Database) (h : IsConsistent d) (id : ℕ) where
  pub category_create-IsConsistent :
      (name slug : String) (parent_id : Option ℕ) (sort_order : ℤ)
      → IsConsistent (transaction (create id name slug parent_id sort_order) d).1
  unfolding create
  category_create-IsConsistent name slug parent_id sort_order =
      let m = create id name slug parent_id sort_order in
      transaction_rule IsConsistent m d h λ category e.
        recategorised d (m d).1 h (ground arith) (ground arith)
          (λ i p f there. grind (arith, lookup-insert))

  pub category_update-IsConsistent :
      (name : Option String) (is_active : Option Bool) (sort_order : Option ℤ)
      → IsConsistent (transaction (update id name is_active sort_order) d).1
  unfolding update
  category_update-IsConsistent name is_active sort_order =
      let m = update id name is_active sort_order in
      transaction_rule IsConsistent m d h λ category e.
        recategorised d (m d).1 h (ground arith) (ground arith)
          (λ i p f there. grind (arith, lookup-insert))

  pub category_move-IsConsistent :
      (new_parent_id : Option ℕ) → IsConsistent (transaction (move id new_parent_id) d).1
  unfolding move
  category_move-IsConsistent new_parent_id =
      let m = move id new_parent_id in
      transaction_rule IsConsistent m d h λ category e.
        recategorised d (m d).1 h (ground arith) (ground arith)
          (λ i p f there. grind (arith, lookup-insert))

  pub category_delete-IsConsistent : IsConsistent (transaction (delete id) d).1
  unfolding delete
  category_delete-IsConsistent = transaction_rule IsConsistent (delete id) d h λ u e.
      recategorised d (delete id d).1 h (ground arith) (ground arith) (λ i p f there.
        ground
          (arith, lookup-erase id p.category_id d.categories, has_products_lem id d.products i p))
