-- ===== src/Catalog/Categories/Forest.antt =====
-- The categories as a forest: no category stands below itself (modules/catalog/service.py).
use electronic_shop.Base.{
  ℕ, suc, ◌+◌, ◌<◌, ◌≡◌, ◌≢◌, ◌↔◌, inl, inr, Bool, true, false, Bool-cases, none, some, List, [],
  ◌∷◌, contains, ◌==◌, ◌||◌, if◌then◌else◌, arith,
}
use mathlib.Core.Path.{subst}
use electronic_shop.Base.Table.{
  Table, lookup, insert, erase, IsKeyed, insert-IsKeyed, erase-IsKeyed, lookup-insert, lookup-erase,
}
use electronic_shop.Catalog.Models.{Category}
use electronic_shop.Catalog.Categories.{has_children}
use electronic_shop.Catalog.Categories.Descendants.{IsChild, Below, child, further}

-- No identifier twice, every parent is there, and a parent stands higher than its children.
pub record IsForest (rows : Table Category) : Type 0 where
  pub keyed : IsKeyed rows
  pub present : (u v : ℕ) → IsChild rows u v → lookup u rows ≢ none
  pub depth : ℕ → ℕ
  pub deeper : (u v : ℕ) → IsChild rows u v → depth u < depth v

Below-depth :
    (rows : Table Category) (h : IsForest rows) (u v : ℕ) → Below rows u v → h.depth u < h.depth v
Below-depth rows h u v (child e) = h.deeper u v e
Below-depth rows h u v (further {u = w} b e) =
    omega (arith, Below-depth rows h u w b, h.deeper w v e)

-- In a forest no category is below itself.
pub never-Below : (rows : Table Category) → IsForest rows → (v : ℕ) → ¬ Below rows v v
never-Below rows h v b = omega (arith, Below-depth rows h v v b)

pub has_children_lem :
    (id : ℕ) (rows : Table Category) (v : ℕ) → has_children id rows ≡ false → ¬ IsChild rows id v
unfolding has_children
has_children_lem id [] v h e = cc
has_children_lem id ((j, c) ∷ rows) v h e = ground (arith, has_children_lem id rows v)

module _ (rows : Table Category) (h : IsForest rows) (id : ℕ) (category : Category) where
  -- A new category, under a parent that is there or none.
  pub insert_new-IsForest :
      lookup id rows ≡ none
      → ((p : ℕ) → category.parent_id ≡ some p → lookup p rows ≢ none)
      → IsForest (insert id category rows)
  insert_new-IsForest new parent =
      let depth : ℕ → ℕ = λ v.
        if v == id
        then suc (elim category.parent_id [ none ↦ 0 | some p ↦ h.depth p ])
        else h.depth v in
      record {
        keyed = insert-IsKeyed id category rows h.keyed;
        present = λ u v e. ground (
          arith,
          lookup-insert id v category rows,
          lookup-insert id u category rows,
          h.present u v,
          parent u,
        );
        depth = depth;
        deeper = λ u v e.
            ground (arith, lookup-insert id v category rows, h.present u v, h.deeper u v, parent u);
      }

  -- A changed category that keeps its parent.
  pub insert_same-IsForest :
      {old : Category}
      → lookup id rows ≡ some old
      → category.parent_id ≡ old.parent_id
      → IsForest (insert id category rows)
  insert_same-IsForest there same = record {
    keyed = insert-IsKeyed id category rows h.keyed;
    present = λ u v e.
        ground (
          arith,
          lookup-insert id v category rows,
          lookup-insert id u category rows,
          h.present u v,
        );
    depth = h.depth;
    deeper = λ u v e. ground (arith, lookup-insert id v category rows, h.deeper u v);
  }

  -- A category without a parent.
  pub insert_root-IsForest : category.parent_id ≡ none → IsForest (insert id category rows)
  insert_root-IsForest root = record {
    keyed = insert-IsKeyed id category rows h.keyed;
    present = λ u v e.
        ground (
          arith,
          lookup-insert id v category rows,
          lookup-insert id u category rows,
          h.present u v,
        );
    depth = h.depth;
    deeper = λ u v e. ground (arith, lookup-insert id v category rows, h.deeper u v);
  }

  -- A category under a parent that is not in its subtree: the subtree moves below that parent.
  pub insert_under-IsForest :
      (p : ℕ) (ds : List ℕ)
      → category.parent_id ≡ some p
      → lookup p rows ≢ none
      → p ≢ id
      → ((v : ℕ) → (contains v ds ≡ true) ↔ Below rows id v)
      → contains p ds ≡ false
      → IsForest (insert id category rows)
  insert_under-IsForest p ds parent there other members outside =
      let inside : ℕ → Bool = λ v. v == id || contains v ds in
      let depth : ℕ → ℕ = λ v. if inside v then h.depth v + suc (h.depth p) else h.depth v in
      let closed : (u v : ℕ) → inside u ≡ true → IsChild rows u v → contains v ds ≡ true =
        λ u v m e. (members v).1 (elim (Bool-cases (u == id)) [
          | inl here ↦ child (subst (λ w. IsChild rows w v) (ground arith) e)
          | inr deep ↦ further ((members u).0 (ground arith)) e
        ]) in
      record {
        keyed = insert-IsKeyed id category rows h.keyed;
        present = λ u v e. ground (
          arith,
          lookup-insert id v category rows,
          lookup-insert id u category rows,
          h.present u v,
        );
        depth = depth;
        deeper =
            λ u v e. ground (arith, lookup-insert id v category rows, h.deeper u v, closed u v);
      }

-- A category without children is taken out.
pub erase-IsForest :
    (rows : Table Category) (id : ℕ)
    → IsForest rows
    → has_children id rows ≡ false
    → IsForest (erase id rows)
erase-IsForest rows id h childless = record {
  keyed = erase-IsKeyed id rows h.keyed;
  present = λ u v e. ground (
    arith,
    lookup-erase id v rows,
    lookup-erase id u rows,
    h.present u v,
    has_children_lem id rows v childless,
  );
  depth = h.depth;
  deeper = λ u v e. ground (arith, lookup-erase id v rows, h.deeper u v);
}
