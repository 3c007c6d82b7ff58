-- ===== src/Common/Pagination/Covers.antt =====
-- The pages of common/pagination.py against the rows of the query.
use electronic_shop.Base.{
  ℕ, zero, suc, ◌+◌, ◌-◌, ◌*◌, ◌≤◌, ◌<◌, ◌≡◌, ◌≢◌, ◌↔◌, refl, ◌∙◌, List, [], ◌∷◌, ◌++◌, take, drop,
  length, true, arith,
}
use native.Mathlib.Nat.{le-div_iff_mul-le, lt-div-mul-add, suc-mul, suc-add}
use electronic_shop.Common.Pagination.{PageParams, is_valid, offset, page_of, total_pages}

module _ {A : Type 0} where
  take_nil : (b : ℕ) → take {A = A} b [] ≡ []
  take_nil zero = refl
  take_nil (suc b) = refl

  take-append : (a b : ℕ) (xs : List A) → take (a + b) xs ≡ take a xs ++ take b (drop a xs)
  take-append zero b xs = ground arith
  take-append (suc a) b [] = rw (suc-add a b, take_nil b) refl
  take-append (suc a) b (x ∷ xs) = rw (suc-add a b) (cc (take-append a b xs))

  take_all : (n : ℕ) (xs : List A) → length xs ≤ n → take n xs ≡ xs
  take_all zero [] h = refl
  take_all zero (x ∷ xs) h = absurd (omega arith)
  take_all (suc n) [] h = refl
  take_all (suc n) (x ∷ xs) h = cc (take_all n xs (omega arith))

  -- There is something to take past what is dropped.
  take-drop_nil : (a b : ℕ) (xs : List A) → 1 ≤ b → (take b (drop a xs) ≢ []) ↔ (a < length xs)
  take-drop_nil zero zero xs h = absurd (omega arith)
  take-drop_nil zero (suc b) [] h = ground arith
  take-drop_nil zero (suc b) (x ∷ xs) h = ground arith
  take-drop_nil (suc a) zero xs h = absurd (omega arith)
  take-drop_nil (suc a) (suc b) [] h = ground arith
  take-drop_nil (suc a) (suc b) (x ∷ xs) h = ground (arith, take-drop_nil a (suc b) xs)

-- The pages up to a number, one after the other.
unfoldable pub reading : {A : Type 0} → ℕ → ℕ → List A → List A
reading size zero rows = []
reading size (suc n) rows =
    reading size n rows ++ page_of (record { page = suc n; page_size = size }) rows

times_less : (p s : ℕ) → 1 ≤ p → p * s ≡ (p - 1) * s + s
times_less zero s h = absurd (omega arith)
times_less (suc p) s h = let less : suc p - 1 ≡ p = omega arith in rw less (suc-mul p s)

pub reading-take :
    {A : Type 0} (size n : ℕ) (rows : List A) → reading size n rows ≡ take (n * size) rows
unfolding reading
reading-take size zero rows = ground arith
reading-take size (suc n) rows =
    let more : suc n * size ≡ n * size + size = suc-mul n size in
    let less : suc n - 1 ≡ n = omega arith in
    rw (more, less, reading-take size n rows, take-append (n * size) size rows) refl

module _ (total : ℕ) (params : PageParams) (valid : is_valid params ≡ true) where
  total_pages_enough : total ≤ total_pages total params * params.page_size
  total_pages_enough =
      let small =
        lt-div-mul-add {a = total + params.page_size - 1} {b = params.page_size} (ground arith) in
      let positive : 1 ≤ params.page_size = ground arith in ground arith

  page_exists : (params.page ≤ total_pages total params) ↔ (offset params < total)
  page_exists =
      let exact =
        le-div_iff_mul-le {k = params.page_size} {x = params.page}
          {y = total + params.page_size - 1} (ground arith) in
      let positive : 1 ≤ params.page_size = ground arith in
      let first : 1 ≤ params.page = ground arith in
      let product = times_less params.page params.page_size first in ground arith

-- For valid parameters, reading the pages from the first one to the last one gives exactly the
-- rows of the query, in order and each once, and a page shows something if and
-- only if its number is at most the number of pages.
pub pages_cover :
    {A : Type 0} (params : PageParams) (rows : List A)
    → is_valid params ≡ true
    → (reading params.page_size (total_pages (length rows) params) rows ≡ rows)
      × ((page_of params rows ≢ []) ↔ (params.page ≤ total_pages (length rows) params))
pages_cover params rows valid =
    let positive : 1 ≤ params.page_size = ground arith in
    let shown = take-drop_nil (offset params) params.page_size rows positive in
    let exists = page_exists (length rows) params valid in
    (
      reading-take params.page_size (total_pages (length rows) params) rows
          ∙ take_all _ rows (total_pages_enough (length rows) params valid),
      ((λ h. exists.1 (shown.0 h)), (λ h. shown.1 (exists.0 h))),
    )
