-- ===== src/Catalog/Categories/Granted.antt =====
-- Which moves and deletions CategoryService (modules/catalog/service.py) grants.
use electronic_shop.Base.{ℕ, ◌≡◌, ◌≢◌, ap, ◌↔◌, inl, inr, Bool-cases, none, some, contains, arith}
use electronic_shop.Base.Table.{lookup, IsKeyed}
use electronic_shop.Base.Exec.{ok}
use electronic_shop.Catalog.Models.{Category}
use electronic_shop.Catalog.Categories.{move, set_category}
use electronic_shop.Catalog.Categories.Descendants.{Below, descendants_correct}
use electronic_shop.Database.{Database}

module _ (d : Database) (keyed : IsKeyed d.categories) (id p : ℕ) (category : Category)
    (found : lookup id d.categories ≡ some category) where
  abbrev pub IsAllowed : Type 0
  IsAllowed = (p ≢ id) × (lookup p d.categories ≢ none) × (¬ Below d.categories id p)

  move_allowed :
      IsAllowed
      → move id (some p) d ≡ (
        ok (record category { parent_id = some p }),
        set_category id (record category { parent_id = some p }) d,
      )
  unfolding move
  move_allowed (other, there, outside) =
      let (ds, returned, members) = descendants_correct d.categories id keyed in
      elim (Bool-cases (contains p ds)) [
        | inl inside ↦ absurd (outside ((members p).0 inside))
        | inr free ↦ ground arith
      ]

  move_forbidden : (result : Category) → (move id (some p) d).0 ≡ ok result → IsAllowed
  unfolding move
  move_forbidden result h =
      let (ds, returned, members) = descendants_correct d.categories id keyed in
      (ground arith, ground arith, λ inside. ground (arith, (members p).1 inside))

-- A category that is there, in tables where no category's identifier stands twice, is moved under a
-- new parent, with nothing else changed, if and only if the parent is another category, is there, and
-- is not below the category.
pub move_granted :
    (d : Database) (id p : ℕ) (category : Category)
    → IsKeyed d.categories
    → lookup id d.categories ≡ some category
    → ((p ≢ id) × (lookup p d.categories ≢ none) × (¬ Below d.categories id p)) ↔ (
        move id (some p) d ≡ (
          ok (record category { parent_id = some p }),
          set_category id (record category { parent_id = some p }) d,
        ))
move_granted d id p category keyed found = (
  move_allowed d keyed id p category found,
  λ e. move_forbidden d keyed id p category found _ (ap (λ x. x.0) e),
)
