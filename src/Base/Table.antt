-- ===== src/Base/Table.antt =====
-- A database table as an association list from primary keys to rows.
use electronic_shop.Base.Tests.{◌==◌, if◌then◌else◌}
use Prim.Native.Nat.{ℕ, ◌+◌}
use mathlib.Core.Path.{◌≡◌, refl}
use mathlib.Core.Option.{Option, none, some}
use mathlib.Core.List.{List, [], ◌∷◌}
use native.Mathlib.Omega.{arith}

abbrev pub Table {ℓ} : Type ℓ → Type ℓ
Table V = List (ℕ × V)

module _ {ℓ} {V : Type ℓ} where
  -- SELECT … WHERE id = k
  abbrev pub lookup : ℕ → Table V → Option V
  lookup k [] = none
  lookup k ((j, v) ∷ t) = if k == j then some v else lookup k t

  -- INSERT, or UPDATE … WHERE id = k where the key is there
  abbrev pub insert : ℕ → V → Table V → Table V
  insert k v [] = (k, v) ∷ []
  insert k v ((j, w) ∷ t) = if k == j then (k, v) ∷ t else (j, w) ∷ insert k v t

  -- DELETE … WHERE id = k
  abbrev pub erase : ℕ → Table V → Table V
  erase k [] = []
  erase k ((j, w) ∷ t) = let rest = erase k t in if k == j then rest else (j, w) ∷ rest

  pub lookup-insert :
      (k j : ℕ) (v : V) (t : Table V)
      → lookup j (insert k v t) ≡ (if j == k then some v else lookup j t)
  lookup-insert k j v [] = refl
  lookup-insert k j v ((i, w) ∷ t) = ground (arith, lookup-insert k j v t)

  pub lookup-insert_self : (k : ℕ) (v : V) (t : Table V) → lookup k (insert k v t) ≡ some v
  lookup-insert_self k v t = ground (arith, lookup-insert k k v t)

  pub lookup-erase :
      (k j : ℕ) (t : Table V) → lookup j (erase k t) ≡ (if j == k then none else lookup j t)
  lookup-erase k j [] = ground arith
  lookup-erase k j ((i, w) ∷ t) = ground (arith, lookup-erase k j t)

  -- A sum over the rows, by a measure of one row.
  abbrev pub sum : (V → ℕ) → Table V → ℕ
  sum f [] = 0
  sum f ((j, v) ∷ t) = f v + sum f t

  pub sum-insert_new :
      (f : V → ℕ) (k : ℕ) (v : V) (t : Table V)
      → lookup k t ≡ none
      → sum f (insert k v t) ≡ sum f t + f v
  sum-insert_new f k v [] h = omega arith
  sum-insert_new f k v ((j, w) ∷ t) h = ground (arith, sum-insert_new f k v t)

  pub sum-insert_old :
      (f : V → ℕ) (k : ℕ) (v w : V) (t : Table V)
      → lookup k t ≡ some w
      → sum f (insert k v t) + f w ≡ sum f t + f v
  sum-insert_old f k v w [] h = cc
  sum-insert_old f k v w ((j, u) ∷ t) h = ground (arith, sum-insert_old f k v w t)

module _ {ℓ} {V : Type ℓ} where
  -- No primary key stands in the table twice.
  abbrev pub IsKeyed : Table V → Type ℓ
  IsKeyed [] = Unit
  IsKeyed ((k, v) ∷ t) = (lookup k t ≡ none) × IsKeyed t

  pub insert-IsKeyed : (k : ℕ) (v : V) (t : Table V) → IsKeyed t → IsKeyed (insert k v t)
  insert-IsKeyed k v [] h = (refl, tt)
  insert-IsKeyed k v ((j, w) ∷ t) h =
      ground (arith, insert-IsKeyed k v t h.1, lookup-insert k j v t)

  pub erase-IsKeyed : (k : ℕ) (t : Table V) → IsKeyed t → IsKeyed (erase k t)
  erase-IsKeyed k [] h = tt
  erase-IsKeyed k ((j, w) ∷ t) h = ground (arith, erase-IsKeyed k t h.1, lookup-erase k j t)
