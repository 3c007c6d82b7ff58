-- ===== src/Catalog/Categories.antt =====
-- backend/app/modules/catalog/service.py, class CategoryService, over class CategoryRepository of
-- repository.py. The identifier of a new category is an argument; the page cache that the methods
-- invalidate is left out. The order of the rows does not show in a set of identifiers.
pub mod Walk
pub mod Descendants
pub mod Forest
pub mod Steps
pub mod Tree
pub mod Granted
use electronic_shop.Base.{
  ℕ, zero, suc, String, Bool, true, false, not, ◌||◌, Option, none, some, List, [], ◌∷◌, contains,
  length, ◌==◌, same_text, if◌then◌else◌, is_none, get_or,
}
use electronic_shop.Base.Int.{ℤ}
use electronic_shop.Base.Table.{Table, lookup, insert, erase}
use electronic_shop.Base.Exec.{
  Exec, conflict, not_found, internal_error, pure, gets, or_raise, raise_if, modify, when, ◌>>=◌,
  ◌>>◌,
}
use electronic_shop.Catalog.Models.{Category, Product}
use electronic_shop.Database.{Database}

-- `CategoryRepository.get_by_slug` (`slug` is unique)
unfoldable pub get_by_slug : String → Table Category → Option (ℕ × Category)
get_by_slug slug [] = none
get_by_slug slug ((id, category) ∷ rest) =
    if same_text category.slug slug then some (id, category) else get_by_slug slug rest

abbrev pub has_parent : ℕ → Category → Bool
has_parent p category = elim category.parent_id [ none ↦ false | some q ↦ q == p ]

-- The body of the inner loop of `get_descendant_ids`, on the descendants and the frontier, whose last
-- element comes first: a child that is new is added to both.
abbrev pub offer : ℕ → ℕ → Category → List ℕ × List ℕ → List ℕ × List ℕ
offer current id category (descendants, frontier) =
    if has_parent current category
    then if contains id descendants
      then (descendants, frontier)
      else (id ∷ descendants, id ∷ frontier)
    else (descendants, frontier)

unfoldable pub scan : ℕ → Table Category → List ℕ × List ℕ → List ℕ × List ℕ
scan current [] acc = acc
scan current ((id, category) ∷ rest) acc = scan current rest (offer current id category acc)

-- The `while` loop, on fuel.
unfoldable pub walk : ℕ → Table Category → List ℕ × List ℕ → Option (List ℕ)
walk fuel rows (descendants, []) = some descendants
walk zero rows (descendants, current ∷ frontier) = none
walk (suc fuel) rows (descendants, current ∷ frontier) =
    walk fuel rows (scan current rows (descendants, frontier))

unfoldable pub get_descendant_ids : ℕ → Table Category → Option (List ℕ)
get_descendant_ids category_id rows = walk (suc (length rows)) rows ([], category_id ∷ [])

unfoldable pub has_children : ℕ → Table Category → Bool
has_children id [] = false
has_children id ((j, category) ∷ rest) =
    let others = has_children id rest in if has_parent id category then true else others

unfoldable pub has_products : ℕ → Table Product → Bool
has_products id [] = false
has_products id ((j, product) ∷ rest) =
    let others = has_products id rest in if product.category_id == id then true else others

abbrev pub set_category : ℕ → Category → Database → Database
set_category id category d = record d { categories = insert id category d.categories }

abbrev pub get_by_id : ℕ → Exec Database Category
get_by_id id = do or_raise (← gets (λ d. lookup id d.categories)) not_found

abbrev pub check_parent : Option ℕ → Exec Database (Unit {0})
check_parent none = pure tt
check_parent (some parent_id) = do get_by_id parent_id; pure tt

unfoldable pub create : ℕ → String → String → Option ℕ → ℤ → Exec Database Category
create id name slug parent_id sort_order = do
  known ← gets (λ d. get_by_slug slug d.categories)
  raise_if (not (is_none known)) conflict
  check_parent parent_id
  let category : Category = record {
    parent_id = parent_id;
    name = name;
    slug = slug;
    is_active = true;
    sort_order = sort_order;
  }
  modify (set_category id category)
  pure category

unfoldable pub update : ℕ → Option String → Option Bool → Option ℤ → Exec Database Category
update id name is_active sort_order = do
  category ← get_by_id id
  let changed = record category {
    name = get_or name category.name;
    is_active = get_or is_active category.is_active;
    sort_order = get_or sort_order category.sort_order;
  }
  modify (set_category id changed)
  pure changed

-- The guards of `move` on the new parent.
abbrev pub check_move : ℕ → Option ℕ → Exec Database (Unit {0})
check_move id none = pure tt
check_move id (some parent_id) = do
  raise_if (parent_id == id) conflict
  get_by_id parent_id
  found ← gets (λ d. get_descendant_ids id d.categories)
  descendants ← or_raise found internal_error
  raise_if (contains parent_id descendants) conflict

unfoldable pub move : ℕ → Option ℕ → Exec Database Category
move id new_parent_id = do
  category ← get_by_id id
  check_move id new_parent_id
  let moved = record category { parent_id = new_parent_id }
  modify (set_category id moved)
  pure moved

unfoldable pub delete : ℕ → Exec Database (Unit {0})
delete id = do
  get_by_id id
  children ← gets (λ d. has_children id d.categories)
  raise_if children conflict
  products ← gets (λ d. has_products id d.products)
  raise_if products conflict
  modify (λ d. record d { categories = erase id d.categories })
