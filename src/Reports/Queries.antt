-- ===== src/Reports/Queries.antt =====
-- The aggregating queries of backend/app/modules/reports/service.py, on lists of rows.
use electronic_shop.Base.{ℕ, ◌+◌, Bool, true, false, List, [], ◌∷◌, if◌then◌else◌, leb}

module _ {A : Type 0} where
  -- SELECT sum(f) … WHERE p
  unfoldable pub sum_where : (A → Bool) → (A → ℕ) → List A → ℕ
  sum_where p f [] = 0
  sum_where p f (x ∷ xs) = let rest = sum_where p f xs in if p x then f x + rest else rest

  -- SELECT count(*) … WHERE p
  abbrev pub count_where : (A → Bool) → List A → ℕ
  count_where p xs = sum_where p (λ x. 1) xs

  -- SELECT … WHERE p
  unfoldable pub where_rows : (A → Bool) → List A → List A
  where_rows p [] = []
  where_rows p (x ∷ xs) = let rest = where_rows p xs in if p x then x ∷ rest else rest

  abbrev pub every : A → Bool
  every x = true

module _ {K : Type 0} (same : K → K → Bool) where
  -- The groups with an amount added to that of one key.
  abbrev pub add : K → ℕ → List (K × ℕ) → List (K × ℕ)
  add k n [] = (k, n) ∷ []
  add k n ((j, m) ∷ t) = if same k j then (j, m + n) ∷ t else (j, m) ∷ add k n t

  -- SELECT key, sum(f) … GROUP BY key
  unfoldable pub group_sum : {A : Type 0} → (A → K) → (A → ℕ) → List A → List (K × ℕ)
  group_sum key f [] = []
  group_sum key f (x ∷ xs) = add (key x) (f x) (group_sum key f xs)

  abbrev pub group_count : {A : Type 0} → (A → K) → List A → List (K × ℕ)
  group_count key xs = group_sum key (λ x. 1) xs

-- `x.between(start, end)`
abbrev pub between : ℕ → ℕ → ℕ → Bool
between start end x = if leb start x then leb x end else false
