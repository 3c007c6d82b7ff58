-- ===== src/Catalog/Categories/Tree.antt =====
-- `CategoryService.get_tree` (modules/catalog/service.py), of the rows in the order of their query.
pub mod Complete
use electronic_shop.Base.{
  ℕ, zero, suc, ◌+◌, Bool, true, false, Option, none, some, List, [], ◌∷◌, ◌==◌, if◌then◌else◌,
  is_none,
}
use electronic_shop.Base.Table.{Table}
use electronic_shop.Catalog.Models.{Category}
use electronic_shop.Catalog.Categories.{has_parent}

mutual
  -- A category, by its identifier, with its `children`.
  pub data Node : Type 0 where
    node : ℕ → Nodes → Node

  pub data Nodes : Type 0 where
    no_nodes : Nodes
    nodes : Node → Nodes → Nodes

-- `roots`
unfoldable pub roots_of : Table Category → List ℕ
roots_of [] = []
roots_of ((id, category) ∷ rest) =
    let others = roots_of rest in if is_none category.parent_id then id ∷ others else others

-- `children_map.get(id, [])`
unfoldable pub children_of : ℕ → Table Category → List ℕ
children_of parent_id [] = []
children_of parent_id ((id, category) ∷ rest) =
    let others = children_of parent_id rest in
    if has_parent parent_id category then id ∷ others else others

abbrev pub joined : ℕ → Option Nodes → Option Nodes → Option Nodes
joined id none rest = none
joined id (some children) none = none
joined id (some children) (some rest) = some (nodes (node id children) rest)

-- The loop of `attach` over the nodes of a level, on fuel for the depth of the recursion.
unfoldable pub attach_all : ℕ → Table Category → List ℕ → Option Nodes
attach_all fuel rows [] = some no_nodes
attach_all zero rows (id ∷ ids) = none
attach_all (suc fuel) rows (id ∷ ids) =
    joined id (attach_all fuel rows (children_of id rows)) (attach_all (suc fuel) rows ids)

unfoldable pub get_tree : ℕ → Table Category → Option Nodes
get_tree fuel rows = attach_all fuel rows (roots_of rows)
