-- ===== src/Catalog/Categories/Steps.antt =====
-- The categories as a forest under each method of CategoryService (modules/catalog/service.py).
use electronic_shop.Base.{
  ℕ, String, ◌≡◌, inl, inr, Bool, true, Option-cases, Option, none, some, arith,
}
use electronic_shop.Base.Int.{ℤ}
use electronic_shop.Base.Table.{Table, lookup, insert, erase}
use electronic_shop.Base.Exec.{ok, transaction, transaction_rule}
use electronic_shop.Catalog.Models.{Category}
use electronic_shop.Catalog.Categories.{create, update, move, delete}
use electronic_shop.Catalog.Categories.Descendants.{descendants_correct}
use electronic_shop.Catalog.Categories.Forest.{
  IsForest, insert_new-IsForest, insert_same-IsForest, insert_root-IsForest, insert_under-IsForest,
  erase-IsForest,
}
use electronic_shop.Database.{Database}

same-IsForest : (t u : Table Category) → t ≡ u → IsForest u → IsForest t
same-IsForest t u e h = rw e h

abbrev HasForest : Database → Type 0
HasForest d = IsForest d.categories

module _ (d : Database) (h : IsForest d.categories) where
  pub create-IsForest :
      (id : ℕ) (name slug : String) (parent_id : Option ℕ) (sort_order : ℤ)
      → lookup id d.categories ≡ none
      → IsForest (transaction (create id name slug parent_id sort_order) d).1.categories
  unfolding create
  create-IsForest id name slug parent_id sort_order fresh =
      let m = create id name slug parent_id sort_order in
      transaction_rule HasForest m d h λ category e.
        let new : Category = record {
          parent_id = parent_id;
          name = name;
          slug = slug;
          is_active = true;
          sort_order = sort_order;
        } in
        same-IsForest (m d).1.categories (insert id new d.categories) (ground arith)
          (insert_new-IsForest d.categories h id new fresh (λ p q. ground arith))

  pub update-IsForest :
      (id : ℕ) (name : Option String) (is_active : Option Bool) (sort_order : Option ℤ)
      → IsForest (transaction (update id name is_active sort_order) d).1.categories
  unfolding update
  update-IsForest id name is_active sort_order =
      let m = update id name is_active sort_order in
      transaction_rule HasForest m d h λ category e. elim (Option-cases (lookup id d.categories)) [
        | inl q ↦ absurd (ground arith)
        | inr (old, found) ↦
            same-IsForest (m d).1.categories (insert id category d.categories) (ground arith)
              (insert_same-IsForest d.categories h id category found (ground arith))
      ]

  move_below-IsForest :
      (id p : ℕ) (category : Category)
      → (move id (some p) d).0 ≡ ok category
      → IsForest (move id (some p) d).1.categories
  unfolding move
  move_below-IsForest id p category e =
      let (ds, ends, members) = descendants_correct d.categories id h.keyed in
      same-IsForest (move id (some p) d).1.categories (insert id category d.categories)
        (ground arith)
        (insert_under-IsForest d.categories h id category p ds (ground arith) (ground arith)
          (ground arith) members (ground arith))

  pub move-IsForest :
      (id : ℕ) (new_parent_id : Option ℕ)
      → IsForest (transaction (move id new_parent_id) d).1.categories
  unfolding move
  move-IsForest id none = transaction_rule HasForest (move id none) d h λ category e.
      same-IsForest (move id none d).1.categories (insert id category d.categories) (ground arith)
        (insert_root-IsForest d.categories h id category (ground arith))
  move-IsForest id (some p) =
      transaction_rule HasForest (move id (some p)) d h (move_below-IsForest id p)

  pub delete-IsForest : (id : ℕ) → IsForest (transaction (delete id) d).1.categories
  unfolding delete
  delete-IsForest id = transaction_rule HasForest (delete id) d h λ u e.
      same-IsForest (delete id d).1.categories (erase id d.categories) (ground arith)
        (erase-IsForest d.categories id h (ground arith))
