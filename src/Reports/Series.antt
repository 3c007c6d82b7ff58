-- ===== src/Reports/Series.antt =====
-- The totals of a daily series and of a distribution (modules/reports/service.py).
use electronic_shop.Base.{
  ℕ, zero, suc, ◌+◌, ◌≡◌, refl, sym, ap, ◌∙◌, Bool, false, List, [], ◌∷◌, ◌==◌, if◌then◌else◌, ltb,
  leb, get_or, arith,
}
use electronic_shop.Base.Table.{Table, lookup}
use electronic_shop.Reports.Models.{DailyPoint}
use electronic_shop.Reports.Queries.{sum_where, every, add, group_sum}
use electronic_shop.Reports.Service.{series_from}

-- The sum of the values of a series.
abbrev pub total_of : List DailyPoint → ℕ
total_of [] = 0
total_of (point ∷ points) = point.value + total_of points

-- The sum of the amounts of the groups.
abbrev pub total_in : {K : Type 0} → List (K × ℕ) → ℕ
total_in [] = 0
total_in ((k, n) ∷ t) = n + total_in t

module _ {A K : Type 0} (same : K → K → Bool) (key : A → K) (f : A → ℕ) where
  total_in-add : (k : K) (n : ℕ) (t : List (K × ℕ)) → total_in (add same k n t) ≡ n + total_in t
  total_in-add k n [] = refl
  total_in-add k n ((j, m) ∷ t) = ground (arith, total_in-add k n t)

  -- No row is lost in the groups.
  pub total_in-group_sum : (xs : List A) → total_in (group_sum same key f xs) ≡ sum_where every f xs
  unfolding group_sum sum_where
  total_in-group_sum [] = refl
  total_in-group_sum (x ∷ xs) =
      total_in-add (key x) (f x) (group_sum same key f xs)
      ∙ ap (λ n. f x + n) (total_in-group_sum xs)

abbrev amount_at : ℕ → Table ℕ → ℕ
amount_at d t = get_or (lookup d t) 0

amount_at-add :
    (d k n : ℕ) (t : Table ℕ)
    → amount_at d (add ◌==◌ k n t) ≡ (if d == k then n + amount_at d t else amount_at d t)
amount_at-add d k n [] = ground arith
amount_at-add d k n ((j, m) ∷ t) = ground (arith, amount_at-add d k n t)

module _ {A : Type 0} (date : A → ℕ) (f : A → ℕ) where
  amount_at-group_sum :
      (d : ℕ) (xs : List A)
      → amount_at d (group_sum ◌==◌ date f xs) ≡ sum_where (λ x. d == date x) f xs
  unfolding group_sum sum_where
  amount_at-group_sum d [] = refl
  amount_at-group_sum d (x ∷ xs) =
      ground
        (arith, amount_at-group_sum d xs, amount_at-add d (date x) (f x) (group_sum ◌==◌ date f xs))

  -- A date is one of so many from a first one on.
  abbrev pub dated_in : ℕ → ℕ → A → Bool
  dated_in start days x = if leb start (date x) then ltb (date x) (start + days) else false

  dated_in-none : (start : ℕ) (xs : List A) → sum_where (dated_in start 0) f xs ≡ 0
  unfolding sum_where
  dated_in-none start [] = refl
  dated_in-none start (x ∷ xs) = ground (arith, dated_in-none start xs)

  dated_in-more :
      (start days : ℕ) (xs : List A)
      → sum_where (dated_in start (suc days)) f xs
        ≡ sum_where (λ x. start == date x) f xs + sum_where (dated_in (suc start) days) f xs
  unfolding sum_where
  dated_in-more start days [] = omega arith
  dated_in-more start days (x ∷ xs) = ground (arith, dated_in-more start days xs)

  -- A series of the groups by date holds what the rows of its dates have.
  pub total_of-series_from :
      (days start : ℕ) (xs : List A)
      → total_of (series_from (group_sum ◌==◌ date f xs) start days)
        ≡ sum_where (dated_in start days) f xs
  unfolding series_from
  total_of-series_from zero start xs = sym (dated_in-none start xs)
  total_of-series_from (suc days) start xs = omega (
    arith,
    amount_at-group_sum start xs,
    dated_in-more start days xs,
    total_of-series_from days (suc start) xs,
  )
