-- ===== src/Catalog/Categories/Tree/Complete.antt =====
-- The tree of `CategoryService.get_tree` (modules/catalog/service.py) holds the categories.
use electronic_shop.Base.{
  ℕ, zero, suc, ◌+◌, ◌≤◌, ◌<◌, ◌≡◌, ◌≢◌, refl, Bool, true, false, Option, Option-cases, none, some,
  List, [], ◌∷◌, ◌==◌, contains, if◌then◌else◌, is_none, arith, inl, inr,
}
use electronic_shop.Base.Table.{Table, lookup, IsKeyed}
use electronic_shop.Catalog.Models.{Category}
use electronic_shop.Catalog.Categories.Descendants.{IsChild, parent_of}
use electronic_shop.Catalog.Categories.Forest.{IsForest}
use electronic_shop.Catalog.Categories.Tree.{
  Node, node, Nodes, no_nodes, nodes, roots_of, children_of, attach_all, get_tree,
}

abbrev pub one_if : Bool → ℕ
one_if true = 1
one_if false = 0

abbrev mutual
  -- How often a category stands in a tree.
  pub times_in : ℕ → Node → ℕ
  times_in v (node id children) = one_if (v == id) + times v children

  pub times : ℕ → Nodes → ℕ
  times v no_nodes = 0
  times v (nodes n rest) = times_in v n + times v rest

abbrev count : ℕ → List ℕ → ℕ
count v [] = 0
count v (id ∷ ids) = one_if (v == id) + count v ids

abbrev times_parent : Option ℕ → Nodes → ℕ
times_parent none ns = 0
times_parent (some p) ns = times p ns

abbrev is_child : ℕ → Option ℕ → Bool
is_child p none = false
is_child p (some q) = q == p

count-children_of :
    (p v : ℕ) (rows : Table Category)
    → IsKeyed rows
    → count v (children_of p rows) ≡ one_if (is_child p (parent_of (lookup v rows)))
unfolding children_of
count-children_of p v [] keyed = refl
count-children_of p v ((id, c) ∷ rows) keyed = ground (arith, count-children_of p v rows keyed.1)

count-roots_of :
    (v : ℕ) (rows : Table Category)
    → IsKeyed rows
    → (lookup v rows ≡ none → count v (roots_of rows) ≡ 0)
      × ((c : Category)
          → lookup v rows ≡ some c
          → count v (roots_of rows) ≡ one_if (is_none c.parent_id))
unfolding roots_of
count-roots_of v [] keyed = (λ e. refl, λ c e. cc)
count-roots_of v ((id, c) ∷ rows) keyed =
    let rest = count-roots_of v rows keyed.1 in
    (λ e. ground (arith, rest.0), λ c e. ground (arith, rest.0, rest.1 c))

-- A category stands in a level as often as it was asked for there, and once per time of its parent.
times-attach_all :
    (v : ℕ) (rows : Table Category)
    → IsKeyed rows
    → (fuel : ℕ) (ids : List ℕ) (ns : Nodes) → attach_all fuel rows ids ≡ some ns
    → times v ns ≡ count v ids + times_parent (parent_of (lookup v rows)) ns
unfolding attach_all
times-attach_all v rows keyed fuel [] ns h = ground arith
times-attach_all v rows keyed zero (id ∷ ids) ns h = cc
times-attach_all v rows keyed (suc fuel) (id ∷ ids) ns h =
    let below = times-attach_all v rows keyed fuel (children_of id rows) in
    let beside = times-attach_all v rows keyed (suc fuel) ids in
    let offered = count-children_of id v rows keyed in
    elim (Option-cases (attach_all fuel rows (children_of id rows))) [
      | inl e ↦ absurd (ground arith)
      | inr (children, e) ↦ elim (Option-cases (attach_all (suc fuel) rows ids)) [
        | inl f ↦ absurd (ground arith)
        | inr (rest, f) ↦ ground (arith, below children e, beside rest f)
      ]
    ]

-- A bound on the depths of the rows.
abbrev bound : (ℕ → ℕ) → Table Category → ℕ
bound depth [] = 0
bound depth ((id, c) ∷ rows) = suc (depth id) + bound depth rows

depth-bound :
    (depth : ℕ → ℕ) (rows : Table Category) (v : ℕ)
    → lookup v rows ≢ none
    → depth v < bound depth rows
depth-bound depth [] v h = absurd (h refl)
depth-bound depth ((id, c) ∷ rows) v h = ground (arith, depth-bound depth rows v)

count-contains : (v : ℕ) (ids : List ℕ) → contains v ids ≡ true → 1 ≤ count v ids
count-contains v [] m = cc
count-contains v (id ∷ ids) m = ground (arith, count-contains v ids)

children_of-IsChild :
    (p v : ℕ) (rows : Table Category)
    → IsKeyed rows
    → contains v (children_of p rows) ≡ true
    → IsChild rows p v
children_of-IsChild p v rows keyed m =
    let there = count-contains v (children_of p rows) m in
    ground (arith, count-children_of p v rows keyed)

attach_all_returns :
    (rows : Table Category) (h : IsForest rows) (fuel : ℕ) (ids : List ℕ)
    → ((w : ℕ)
        → contains w ids ≡ true
        → (h.depth w < bound h.depth rows) × (bound h.depth rows ≤ fuel + h.depth w))
    → (ns : Nodes) × (attach_all fuel rows ids ≡ some ns)
unfolding attach_all
attach_all_returns rows h fuel [] deep = (no_nodes, ground arith)
attach_all_returns rows h zero (id ∷ ids) deep = absurd (omega (arith, deep id (ground arith)))
attach_all_returns rows h (suc fuel) (id ∷ ids) deep =
    let (rest, e) = attach_all_returns rows h (suc fuel) ids (λ w m. deep w (ground arith)) in
    let (children, f) = attach_all_returns rows h fuel (children_of id rows) (λ w m.
      let child = children_of-IsChild id w rows h.keyed m in
      let there : lookup w rows ≢ none = λ e. ground arith in
      (
        depth-bound h.depth rows w there,
        omega (arith, deep id (ground arith), h.deeper id w child),
      )) in
    (nodes (node id children) rest, rw (e, f) refl)

module _ (rows : Table Category) (h : IsForest rows) (fuel : ℕ) (ns : Nodes) where
  times_once :
      get_tree fuel rows ≡ some ns
      → (n v : ℕ) (c : Category) → h.depth v < n
      → lookup v rows ≡ some c
      → times v ns ≡ 1
  unfolding get_tree
  times_once e zero v c d found = absurd (omega arith)
  times_once e (suc n) v c d found =
      let step = times-attach_all v rows h.keyed fuel (roots_of rows) ns e in
      let root = (count-roots_of v rows h.keyed).1 c found in
      elim (Option-cases c.parent_id) [
        | inl top ↦ ground arith
        | inr (p, under) ↦
            let child : IsChild rows p v = ground arith in
            elim (Option-cases (lookup p rows)) [
              | inl missing ↦ absurd (h.present p v child missing)
              | inr (q, there) ↦
                  let above : times p ns ≡ 1 =
                    times_once e n p q (omega (arith, h.deeper p v child)) there in
                  ground arith
            ]
      ]

  times_never : get_tree fuel rows ≡ some ns → (v : ℕ) → lookup v rows ≡ none → times v ns ≡ 0
  unfolding get_tree
  times_never e v missing = ground (
    arith,
    times-attach_all v rows h.keyed fuel (roots_of rows) ns e,
    (count-roots_of v rows h.keyed).0,
  )

-- Where the categories are a forest, `get_tree` returns: `attach` does not recurse for ever, and the
-- tree that it builds holds every category exactly once and nothing else.
pub tree_complete :
    (rows : Table Category)
    → IsForest rows
    → (fuel : ℕ) × (ns : Nodes) × (get_tree fuel rows ≡ some ns)
      × ((v : ℕ) → times v ns ≡ (if is_none (lookup v rows) then 0 else 1))
unfolding get_tree
tree_complete rows h =
    let fuel = bound h.depth rows in
    let (ns, e) = attach_all_returns rows h fuel (roots_of rows) (λ w m.
      let often = count-contains w (roots_of rows) m in
      let there : lookup w rows ≢ none =
        λ missing. ground (arith, (count-roots_of w rows h.keyed).0 missing) in
      (depth-bound h.depth rows w there, omega arith)) in
    (
      fuel,
      ns,
      e,
      λ v. elim (Option-cases (lookup v rows)) [
        | inl missing ↦ ground (arith, times_never rows h fuel ns e v missing)
        | inr (c, found) ↦
            ground (arith, times_once rows h fuel ns e (suc (h.depth v)) v c (omega arith) found)
      ],
    )
