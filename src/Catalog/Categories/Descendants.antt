-- ===== src/Catalog/Categories/Descendants.antt =====
-- `get_descendant_ids` (modules/catalog/repository.py) against the subtree that it stands for.
use electronic_shop.Base.{
  ℕ, suc, ◌≡◌, ◌↔◌, ◌⊎◌, inl, inr, refl, true, false, Option, none, some, List, [], ◌∷◌, contains,
  length, arith, sym,
}
use electronic_shop.Base.Table.{Table, lookup, IsKeyed}
use electronic_shop.Catalog.Models.{Category}
use electronic_shop.Catalog.Categories.{scan, get_descendant_ids}
use electronic_shop.Catalog.Categories.Walk.{
  child_in, unseen-nil, walk_returns, walk_rule, contains-scan, frontier-scan,
}

abbrev pub parent_of : Option Category → Option ℕ
parent_of none = none
parent_of (some category) = category.parent_id

-- `v` is a row whose parent is `u`.
abbrev pub IsChild : Table Category → ℕ → ℕ → Type 0
IsChild rows u v = parent_of (lookup v rows) ≡ some u

-- The rows below `a`: its children, their children, and so on.
pub data Below (rows : Table Category) (a : ℕ) : ℕ → Type 0 where
  child : {v : ℕ} → IsChild rows a v → Below rows a v
  further : {u v : ℕ} → Below rows a u → IsChild rows u v → Below rows a v

child_in-absent :
    (u v : ℕ) (rows : Table Category) → lookup v rows ≡ none → child_in u v rows ≡ false
child_in-absent u v [] h = refl
child_in-absent u v ((id, c) ∷ rows) h = ground (arith, child_in-absent u v rows)

child_in-IsChild :
    (u v : ℕ) (rows : Table Category) → IsKeyed rows → (child_in u v rows ≡ true) ↔ IsChild rows u v
child_in-IsChild u v [] keyed = (λ h. cc, λ h. cc)
child_in-IsChild u v ((id, c) ∷ rows) keyed =
    ground (arith, child_in-IsChild u v rows keyed.1, child_in-absent u id rows keyed.0)

module _ (rows : Table Category) (keyed : IsKeyed rows) (a : ℕ) where
  record Inv (ds fr : List ℕ) : Type 0 where
    queued : (v : ℕ) → contains v fr ≡ true → (v ≡ a) ⊎ (contains v ds ≡ true)
    sound : (v : ℕ) → contains v ds ≡ true → Below rows a v
    closed :
        (u v : ℕ)
        → (u ≡ a) ⊎ (contains u ds ≡ true)
        → IsChild rows u v
        → (contains u fr ≡ true) ⊎ (contains v ds ≡ true)

  Inv-start : Inv [] (a ∷ [])
  Inv-start = record {
    queued = λ v h. ground arith;
    sound = λ v h. cc;
    closed = λ u v h e. ground arith;
  }

  child-Below : (u v : ℕ) → (u ≡ a) ⊎ Below rows a u → IsChild rows u v → Below rows a v
  child-Below u v (inl e) h = child (rw (sym e) h)
  child-Below u v (inr b) h = further b h

  Inv-scan :
      (current : ℕ) (ds fr : List ℕ)
      → Inv ds (current ∷ fr)
      → Inv (scan current rows (ds, fr)).0 (scan current rows (ds, fr)).1
  Inv-scan current ds fr h =
      let members = λ (w : ℕ). contains-scan current w rows ds fr in
      let queue = λ (w : ℕ). frontier-scan current w rows ds fr in
      let family = λ (w : ℕ). child_in-IsChild current w rows keyed in
      let here : (current ≡ a) ⊎ Below rows a current = elim (h.queued current (ground arith)) [
        | inl e ↦ inl e
        | inr m ↦ inr (h.sound current m)
      ] in
      record {
        queued = λ v q. ground (arith, members v, queue v, h.queued v);
        sound = λ v m. elim ((members v).0 m) [
          | inl old ↦ h.sound v old
          | inr new ↦ child-Below current v here ((family v).0 new)
        ];
        closed = λ u v old e. ground (arith, members u, members v, queue u, family v, h.closed u v);
      }

  complete : (ds : List ℕ) → Inv ds [] → {v : ℕ} → Below rows a v → contains v ds ≡ true
  complete ds h {v} (child e) = elim (h.closed a v (inl refl) e) [ inl x ↦ cc | inr m ↦ m ]
  complete ds h {v} (further {u} b e) = elim (h.closed u v (inr (complete ds h b)) e) [
    | inl x ↦ cc
    | inr m ↦ m
  ]

-- Where no category's identifier stands twice, `get_descendant_ids` ends, within one round per row
-- and one more, and returns exactly the categories below the given one: its children, their
-- children, and so on.
pub descendants_correct :
    (rows : Table Category) (a : ℕ)
    → IsKeyed rows
    → (ds : List ℕ) × (get_descendant_ids a rows ≡ some ds)
      × ((v : ℕ) → (contains v ds ≡ true) ↔ Below rows a v)
unfolding get_descendant_ids
descendants_correct rows a keyed =
    let (ds, e) =
      walk_returns (suc (length rows)) rows [] (a ∷ []) (omega (arith, unseen-nil rows)) in
    let inv =
      walk_rule rows (Inv rows keyed a) (Inv-scan rows keyed a) (suc (length rows)) [] (a ∷ []) ds
        (Inv-start rows keyed a) e in
    (ds, e, λ v. (inv.sound v, complete rows keyed a ds inv))
