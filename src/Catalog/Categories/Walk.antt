-- ===== src/Catalog/Categories/Walk.antt =====
-- The loop of `get_descendant_ids` (modules/catalog/repository.py): how long it runs, and what a round
-- adds to the descendants and to the frontier.
use electronic_shop.Base.{
  ℕ, zero, suc, ◌+◌, ◌≤◌, ◌≡◌, ◌↔◌, ◌⊎◌, refl, Bool, true, false, some, List, [], ◌∷◌, contains,
  length, ◌==◌, if◌then◌else◌, arith,
}
use mathlib.Core.Path.{subst}
use electronic_shop.Base.Table.{Table}
use electronic_shop.Catalog.Models.{Category}
use electronic_shop.Catalog.Categories.{has_parent, offer, scan, walk}

abbrev pub has_id : ℕ → Table Category → Bool
has_id w [] = false
has_id w ((id, category) ∷ rest) = if w == id then true else has_id w rest

-- The rows that are not among the descendants yet.
abbrev pub unseen : List ℕ → Table Category → ℕ
unseen ds [] = 0
unseen ds ((id, category) ∷ rest) =
    let others = unseen ds rest in if contains id ds then others else suc others

unseen-cons_le : (id : ℕ) (ds : List ℕ) (t : Table Category) → unseen (id ∷ ds) t ≤ unseen ds t
unseen-cons_le id ds [] = omega arith
unseen-cons_le id ds ((j, c) ∷ t) = ground (arith, unseen-cons_le id ds t)

unseen-cons :
    (id : ℕ) (ds : List ℕ) (t : Table Category)
    → has_id id t ≡ true
    → contains id ds ≡ false
    → suc (unseen (id ∷ ds) t) ≤ unseen ds t
unseen-cons id ds [] m h = cc
unseen-cons id ds ((j, c) ∷ t) m h = ground (arith, unseen-cons id ds t, unseen-cons_le id ds t)

pub unseen-nil : (t : Table Category) → unseen [] t ≡ length t
unseen-nil [] = refl
unseen-nil ((j, c) ∷ t) = omega (arith, unseen-nil t)

-- Each identifier that a round adds to the frontier is a row's that was not seen before.
scan_work :
    (all : Table Category) (current : ℕ) (rows : Table Category) (ds fr : List ℕ)
    → ((w : ℕ) → has_id w rows ≡ true → has_id w all ≡ true)
    → let (ds', fr') = scan current rows (ds, fr) in
      unseen ds' all + length fr' ≤ unseen ds all + length fr
unfolding scan
scan_work all current [] ds fr h = omega arith
scan_work all current ((id, c) ∷ rows) ds fr h =
    let (ds', fr') = offer current id c (ds, fr) in
    let rest = scan_work all current rows ds' fr' (λ w m. h w (ground arith)) in
    let there : has_id id all ≡ true = h id (ground arith) in
    ground (arith, rest, unseen-cons id ds all)

pub walk_returns :
    (fuel : ℕ) (rows : Table Category) (ds fr : List ℕ)
    → unseen ds rows + length fr ≤ fuel
    → (result : List ℕ) × (walk fuel rows (ds, fr) ≡ some result)
unfolding walk
walk_returns fuel rows ds [] h = (ds, ground arith)
walk_returns zero rows ds (current ∷ fr) h = absurd (omega arith)
walk_returns (suc fuel) rows ds (current ∷ fr) h =
    walk_returns fuel rows (scan current rows (ds, fr)).0 (scan current rows (ds, fr)).1
      (omega (arith, scan_work rows current rows ds fr (λ w m. m)))

-- A property of the two lists that a round keeps holds at the end, with an empty frontier.
pub walk_rule {ℓ} :
    (rows : Table Category) (P : List ℕ → List ℕ → Type ℓ)
    → ((current : ℕ) (ds fr : List ℕ)
        → P ds (current ∷ fr)
        → P (scan current rows (ds, fr)).0 (scan current rows (ds, fr)).1)
    → (fuel : ℕ) (ds fr result : List ℕ) → P ds fr
    → walk fuel rows (ds, fr) ≡ some result
    → P result []
unfolding walk
walk_rule rows P keep fuel ds [] result p h = subst (λ r. P r []) (ground arith) p
walk_rule rows P keep zero ds (current ∷ fr) result p h = cc
walk_rule rows P keep (suc fuel) ds (current ∷ fr) result p h =
    walk_rule rows P keep fuel _ _ result (keep current ds fr p) h

-- The row of `w` is there, with `current` as its parent.
abbrev pub child_in : ℕ → ℕ → Table Category → Bool
child_in current w [] = false
child_in current w ((id, category) ∷ rest) =
    if w == id
    then if has_parent current category then true else child_in current w rest
    else child_in current w rest

pub contains-scan :
    (current w : ℕ) (rows : Table Category) (ds fr : List ℕ)
    → (contains w (scan current rows (ds, fr)).0 ≡ true)
      ↔ ((contains w ds ≡ true) ⊎ (child_in current w rows ≡ true))
unfolding scan
contains-scan current w [] ds fr = ground arith
contains-scan current w ((id, c) ∷ rows) ds fr =
    let (ds', fr') = offer current id c (ds, fr) in
    ground (arith, contains-scan current w rows ds' fr')

-- What enters the frontier is what enters the descendants.
pub frontier-scan :
    (current w : ℕ) (rows : Table Category) (ds fr : List ℕ)
    → (contains w (scan current rows (ds, fr)).1 ≡ true) ↔ (
        (contains w fr ≡ true)
        ⊎ ((contains w (scan current rows (ds, fr)).0 ≡ true) × (contains w ds ≡ false)))
unfolding scan
frontier-scan current w [] ds fr = ground arith
frontier-scan current w ((id, c) ∷ rows) ds fr =
    let (ds', fr') = offer current id c (ds, fr) in
    ground (arith, frontier-scan current w rows ds' fr', contains-scan current w rows ds' fr')
