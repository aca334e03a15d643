-- ===== src/Pagination.antt =====
-- src/common/pagination/pagination.helper.ts. The arguments are what `Number(…)` gives: `none` is
-- NaN. Numbers are exact here; the program's are, below 2 ^ 53.
pub mod Bounds
mod Tests
use nestjs_chat.Base.{
  ℕ, suc, ◌+◌, ◌-◌, ◌*◌, ◌/◌, min, max, Bool, true, false, Option, none, some, List, ltb,
}

-- a number that is not NaN: an infinity, or the fraction of `n` and `suc d`
pub data Real : Type 0 where
  infinity : (negative : Bool) → Real
  fraction : (negative : Bool) (n d : ℕ) → Real

-- what can stand after `Math.max(1, …)`
pub data Whole : Type 0 where
  whole : ℕ → Whole
  unbounded : Whole

pub record PaginationOptions : Type 0 where
  pub page : Whole
  pub page_size : ℕ
  pub offset : Whole
  pub limit : ℕ

-- `if (isNaN(x)) x = d`
abbrev pub or_default : ℕ → Option Real → Real
or_default d none = fraction false d 0
or_default d (some x) = x

-- `Math.max(1, Math.floor(x))`
abbrev pub at_least_one : Real → Whole
at_least_one (infinity true) = whole 1
at_least_one (infinity false) = unbounded
at_least_one (fraction true n d) = whole 1
at_least_one (fraction false n d) = whole (max 1 (n / suc d))

-- `Math.min(100, x)`
abbrev pub at_most_100 : Whole → ℕ
at_most_100 (whole n) = min 100 n
at_most_100 unbounded = 100

-- `(page - 1) * pageSize`, of a size that is not 0
abbrev pub offset_of : Whole → ℕ → Whole
offset_of (whole page) page_size = whole ((page - 1) * page_size)
offset_of unbounded page_size = unbounded

unfoldable pub parse : (page page_size : Option Real) → PaginationOptions
parse page page_size =
    let sanitized_page = at_least_one (or_default 1 page) in
    let sanitized_page_size = at_most_100 (at_least_one (or_default 15 page_size)) in
    record {
      page = sanitized_page;
      page_size = sanitized_page_size;
      offset = offset_of sanitized_page sanitized_page_size;
      limit = sanitized_page_size;
    }

pub record PageMeta : Type 0 where
  pub page : Whole
  pub page_size : ℕ
  pub total : ℕ
  pub total_pages : ℕ
  pub has_next : Bool
  pub has_previous : Bool

pub record PaginatedResult (A : Type 0) : Type 0 where
  pub items : List A
  pub meta : PageMeta

-- `page < totalPages` and `page > 1`
abbrev pub is_before : Whole → ℕ → Bool
is_before (whole page) n = ltb page n
is_before unbounded n = false

abbrev pub is_after_first : Whole → Bool
is_after_first (whole page) = ltb 1 page
is_after_first unbounded = true

-- `Math.ceil(total / limit)`, of a limit that is not 0, as `parse` gives it
abbrev pub pages : (total limit : ℕ) → ℕ
pages total limit = (total + (limit - 1)) / limit

unfoldable pub create_result : {A : Type 0} → List A → ℕ → PaginationOptions → PaginatedResult A
create_result items total options = record {
  items = items;
  meta = record {
    page = options.page;
    page_size = options.page_size;
    total = total;
    total_pages = pages total options.limit;
    has_next = is_before options.page (pages total options.limit);
    has_previous = is_after_first options.page;
  };
}
