-- ===== src/Catalog/Requests.antt =====
-- Sequences of requests of CategoryService and ProductService (modules/catalog/service.py), each in a
-- transaction.
use electronic_shop.Base.{ℕ, String, ◌≡◌, Bool, true, Option, none, List, [], ◌∷◌}
use electronic_shop.Base.Int.{ℤ}
use electronic_shop.Base.Table.{lookup}
use electronic_shop.Base.Exec.{Exec, transaction}
use electronic_shop.Catalog.Categories.{create, update, move, delete}
use electronic_shop.Catalog.Categories.Descendants.{Below}
use electronic_shop.Catalog.Categories.Forest.{IsForest, never-Below}
use electronic_shop.Database.{Database}
use electronic_shop.Catalog.Categories.Steps.{
  create-IsForest, update-IsForest, move-IsForest, delete-IsForest,
}
use electronic_shop.Catalog.Products
use electronic_shop.Catalog.Products.{ProductCreate, ProductUpdate}
use electronic_shop.Catalog.Products.Catalogue.{
  IsConsistent, create-IsConsistent, update-IsConsistent, archive-IsConsistent, create-categories,
  update-categories, archive-categories,
}
use electronic_shop.Catalog.Products.Shelves.{
  category_create-IsConsistent, category_update-IsConsistent, category_move-IsConsistent,
  category_delete-IsConsistent,
}

pub data Call : Type 0 where
  creating : ℕ → String → String → Option ℕ → ℤ → Call
  updating : ℕ → Option String → Option Bool → Option ℤ → Call
  moving : ℕ → Option ℕ → Call
  deleting : ℕ → Call
  creating_product : ℕ → ProductCreate → Call
  updating_product : ℕ → ProductUpdate → Call
  archiving_product : ℕ → Call

abbrev ending : {A : Type 0} → Exec Database A → Database → Database
ending m d = (transaction m d).1

unfoldable pub perform : Call → Database → Database
perform (Call.creating id name slug parent_id sort_order) d =
    ending (create id name slug parent_id sort_order) d
perform (Call.updating id name is_active sort_order) d =
    ending (update id name is_active sort_order) d
perform (Call.moving id new_parent_id) d = ending (move id new_parent_id) d
perform (Call.deleting id) d = ending (delete id) d
perform (Call.creating_product id fields) d = ending (Products.create id fields) d
perform (Call.updating_product id fields) d = ending (Products.update id fields) d
perform (Call.archiving_product id) d = ending (Products.archive id) d

-- A new row gets an identifier of its own, and a new product has passed its schema.
unfoldable pub IsFresh : Call → Database → Type 0
IsFresh (Call.creating id name slug parent_id sort_order) d = lookup id d.categories ≡ none
IsFresh (Call.updating id name is_active sort_order) d = Unit
IsFresh (Call.moving id new_parent_id) d = Unit
IsFresh (Call.deleting id) d = Unit
IsFresh (Call.creating_product id fields) d =
    (lookup id d.products ≡ none) × (Products.is_valid fields ≡ true)
IsFresh (Call.updating_product id fields) d = Unit
IsFresh (Call.archiving_product id) d = Unit

unfoldable pub perform_all : List Call → Database → Database
perform_all [] d = d
perform_all (c ∷ cs) d = perform_all cs (perform c d)

unfoldable pub AreFresh : List Call → Database → Type 0
AreFresh [] d = Unit
AreFresh (c ∷ cs) d = IsFresh c d × AreFresh cs (perform c d)

perform-IsForest :
    (c : Call) (d : Database)
    → IsFresh c d
    → IsForest d.categories
    → IsForest (perform c d).categories
unfolding perform IsFresh
perform-IsForest (Call.creating id name slug parent_id sort_order) d fresh h =
    create-IsForest d h id name slug parent_id sort_order fresh
perform-IsForest (Call.updating id name is_active sort_order) d fresh h =
    update-IsForest d h id name is_active sort_order
perform-IsForest (Call.moving id new_parent_id) d fresh h = move-IsForest d h id new_parent_id
perform-IsForest (Call.deleting id) d fresh h = delete-IsForest d h id
perform-IsForest (Call.creating_product id fields) d fresh h = rw (create-categories id fields d) h
perform-IsForest (Call.updating_product id fields) d fresh h = rw (update-categories id fields d) h
perform-IsForest (Call.archiving_product id) d fresh h = rw (archive-categories id d) h

perform-IsConsistent :
    (c : Call) (d : Database) → IsFresh c d → IsConsistent d → IsConsistent (perform c d)
unfolding perform IsFresh
perform-IsConsistent (Call.creating id name slug parent_id sort_order) d fresh h =
    category_create-IsConsistent d h id name slug parent_id sort_order
perform-IsConsistent (Call.updating id name is_active sort_order) d fresh h =
    category_update-IsConsistent d h id name is_active sort_order
perform-IsConsistent (Call.moving id new_parent_id) d fresh h =
    category_move-IsConsistent d h id new_parent_id
perform-IsConsistent (Call.deleting id) d fresh h = category_delete-IsConsistent d h id
perform-IsConsistent (Call.creating_product id fields) d fresh h =
    create-IsConsistent d h id fields fresh.1 fresh.0
perform-IsConsistent (Call.updating_product id fields) d fresh h = update-IsConsistent d h id fields
perform-IsConsistent (Call.archiving_product id) d fresh h = archive-IsConsistent d h id

-- Whatever sequence of requests on categories and products is served, with new identifiers for new rows
-- and new products that pass their schema, from tables in which every product's discounted price is
-- at most its price, its category and its stock row are there, and its slug and sku are its own, all this
-- holds again: no deletion leaves a product without its category, no update a discount above the price.
pub catalog-IsConsistent :
    (cs : List Call) (d : Database)
    → AreFresh cs d
    → IsConsistent d
    → IsConsistent (perform_all cs d)
unfolding perform_all AreFresh
catalog-IsConsistent [] d fresh h = h
catalog-IsConsistent (c ∷ cs) d fresh h =
    catalog-IsConsistent cs (perform c d) fresh.1 (perform-IsConsistent c d fresh.0 h)

perform_all-IsForest :
    (cs : List Call) (d : Database)
    → AreFresh cs d
    → IsForest d.categories
    → IsForest (perform_all cs d).categories
unfolding perform_all AreFresh
perform_all-IsForest [] d fresh h = h
perform_all-IsForest (c ∷ cs) d fresh h =
    perform_all-IsForest cs (perform c d) fresh.1 (perform-IsForest c d fresh.0 h)

-- Whatever sequence of requests on categories and products is served from a forest, with new
-- identifiers for new rows, the categories are a forest again: no category stands below itself, however the moves
-- were made, and every parent is there.
pub categories_acyclic :
    (cs : List Call) (d : Database)
    → AreFresh cs d
    → IsForest d.categories
    → IsForest (perform_all cs d).categories × ((v : ℕ) → ¬ Below (perform_all cs d).categories v v)
categories_acyclic cs d fresh h =
    let after = perform_all-IsForest cs d fresh h in
    (after, never-Below (perform_all cs d).categories after)
