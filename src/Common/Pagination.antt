-- ===== src/Common/Pagination.antt =====
-- backend/app/common/pagination.py: the slice of a query that a page shows, and the number of pages.
pub mod Covers
use electronic_shop.Base.{
  ℕ, zero, suc, ◌+◌, ◌-◌, ◌*◌, ◌/◌, Bool, List, take, drop, leb, ◌==◌, if◌then◌else◌, false,
}

abbrev pub max_page_size : ℕ
max_page_size = 100

abbrev pub default_page_size : ℕ
default_page_size = 20

pub record PageParams : Type 0 where
  pub page : ℕ
  pub page_size : ℕ

-- What the model's fields require.
abbrev pub is_valid : PageParams → Bool
is_valid params =
    if leb 1 params.page
    then if leb 1 params.page_size then leb params.page_size max_page_size else false
    else false

abbrev pub offset : PageParams → ℕ
offset params = (params.page - 1) * params.page_size

-- `OFFSET params.offset LIMIT params.page_size` of a query with these rows
abbrev pub page_of : {A : Type 0} → PageParams → List A → List A
page_of params rows = take params.page_size (drop (offset params) rows)

-- `Page.create`, the number of pages
abbrev pub total_pages : ℕ → PageParams → ℕ
total_pages total params =
    if total == 0 then 0 else (total + params.page_size - 1) / params.page_size

pub record Page (A : Type 0) : Type 0 where
  pub items : List A
  pub page : ℕ
  pub page_size : ℕ
  pub total : ℕ
  pub total_pages : ℕ

abbrev pub create : {A : Type 0} → List A → ℕ → PageParams → Page A
create items total params = record {
  items = items;
  page = params.page;
  page_size = params.page_size;
  total = total;
  total_pages = total_pages total params;
}
