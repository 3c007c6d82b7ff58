-- ===== src/Base/Amount.antt =====
-- Decimal amounts of zero or more, as the requests of modules/catalog/schemas.py and
-- modules/wallet/schemas.py send them, and what a NUMERIC column without decimal places stores of one.
use electronic_shop.Base.{
  ℕ, suc, ◌≤◌, ◌≡◌, refl, Bool, true, false, List, [], ◌∷◌, ◌==◌, ltb, leb, if◌then◌else◌, arith,
}

-- The digits after the decimal point, from the first one on.
pub record Decimal : Type 0 where
  pub whole : ℕ
  pub digits : List ℕ

abbrev pub toman : ℕ → Decimal
toman n = record { whole = n; digits = [] }

-- The first digit after the point.
abbrev pub first : List ℕ → ℕ
first [] = 0
first (d ∷ ds) = d

unfoldable pub has_part : List ℕ → Bool
has_part [] = false
has_part (d ∷ ds) = if d == 0 then has_part ds else true

abbrev pub is_positive : Decimal → Bool
is_positive a = if a.whole == 0 then has_part a.digits else true

-- The digits of one fraction are less than those of another.
unfoldable pub before : List ℕ → List ℕ → Bool
before ds [] = false
before [] (e ∷ es) = if e == 0 then before [] es else true
before (d ∷ ds) (e ∷ es) = let rest = before ds es in if d == e then rest else ltb d e

abbrev pub less : Decimal → Decimal → Bool
less a b = if a.whole == b.whole then before a.digits b.digits else ltb a.whole b.whole

-- Half a unit and more is rounded up.
abbrev pub rounded : Decimal → ℕ
rounded a = if leb 5 (first a.digits) then suc a.whole else a.whole

before-first : (ds es : List ℕ) → before ds es ≡ true → first ds ≤ first es
unfolding before
before-first ds [] h = cc
before-first [] (e ∷ es) h = ground arith
before-first (d ∷ ds) (e ∷ es) h = ground arith

-- Rounding keeps the order, though not strictly.
pub less-rounded : (a b : Decimal) → less a b ≡ true → leb (rounded a) (rounded b) ≡ true
less-rounded a b h = ground (arith, before-first a.digits b.digits)

first-has_part : (ds : List ℕ) → has_part ds ≡ false → first ds ≡ 0
unfolding has_part
first-has_part [] h = refl
first-has_part (d ∷ ds) h = ground arith

pub rounded_whole : (a : Decimal) → has_part a.digits ≡ false → rounded a ≡ a.whole
rounded_whole a h = ground (arith, first-has_part a.digits h)
