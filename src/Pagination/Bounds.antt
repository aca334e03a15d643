-- ===== src/Pagination/Bounds.antt =====
-- The bounds of a page.
use nestjs_chat.Base.{
  ℕ, zero, suc, ◌≡◌, refl, ◌+◌, ◌-◌, ◌*◌, ◌≤◌, Bool, true, false, Option, List, ltb, arith,
}
use native.Mathlib.Nat.{le-div_iff_mul-le}
use nestjs_chat.Pagination.{
  Real, infinity, fraction, Whole, whole, unbounded, parse, pages, is_before, is_after_first,
  at_most_100, at_least_one, or_default, offset_of, create_result,
}

abbrev pub is_positive : Whole → Bool
is_positive (whole n) = ltb 0 n
is_positive unbounded = true

at_least_one_positive : (x : Real) → is_positive (at_least_one x) ≡ true
at_least_one_positive (infinity true) = refl
at_least_one_positive (infinity false) = refl
at_least_one_positive (fraction true n d) = refl
at_least_one_positive (fraction false n d) = ground arith

at_most_100_bounds :
    (w : Whole) → is_positive w ≡ true → (1 ≤ at_most_100 w) × (at_most_100 w ≤ 100)
at_most_100_bounds (whole n) h = (ground arith, ground arith)
at_most_100_bounds unbounded h = (ground arith, ground arith)

-- where the page ends
abbrev pub end_of : Whole → ℕ → Whole
end_of (whole offset) limit = whole (offset + limit)
end_of unbounded limit = unbounded

mul_step : (p limit : ℕ) → suc p * limit ≡ p * limit + limit
mul_step p limit = omega arith

-- as many items as fill the pages up to this one
abbrev pub filled : Whole → (page_size : ℕ) → Whole
filled (whole page) page_size = whole (page * page_size)
filled unbounded page_size = unbounded

end_of-offset_of :
    (w : Whole) (limit : ℕ)
    → is_positive w ≡ true
    → end_of (offset_of w limit) limit ≡ filled w limit
end_of-offset_of unbounded limit h = refl
end_of-offset_of (whole (suc p)) limit h = ground (arith, mul_step p limit)
end_of-offset_of (whole zero) limit h = absurd (ground arith)

-- Whatever is asked for, the page is 1 at least, its size is from 1 to 100 and is the limit, and the
-- page ends where the pages up to this one are filled: the offset and the limit are together the page
-- times its size.
pub parse-bounds :
    (page page_size : Option Real)
    → (is_positive (parse page page_size).page ≡ true)
      × (1 ≤ (parse page page_size).page_size)
      × ((parse page page_size).page_size ≤ 100)
      × ((parse page page_size).limit ≡ (parse page page_size).page_size)
      × (end_of (parse page page_size).offset (parse page page_size).limit
          ≡ filled (parse page page_size).page (parse page page_size).page_size)
unfolding parse
parse-bounds page page_size =
    let (low, high) =
      at_most_100_bounds (at_least_one (or_default 15 page_size))
        (at_least_one_positive (or_default 15 page_size)) in
    (
      at_least_one_positive (or_default 1 page),
      low,
      high,
      refl,
      end_of-offset_of (at_least_one (or_default 1 page))
          (at_most_100 (at_least_one (or_default 15 page_size)))
          (at_least_one_positive (or_default 1 page)),
    )

next_iff :
    (page limit total : ℕ) → 1 ≤ limit → ltb page (pages total limit) ≡ ltb (page * limit) total
next_iff page limit total positive =
    let bound = le-div_iff_mul-le {k = limit} {x = suc page} {y = total + (limit - 1)} positive in
    ground (arith, bound.0, bound.1)

next_eq :
    (w : Whole) (limit total : ℕ)
    → is_positive w ≡ true
    → 1 ≤ limit
    → is_before w (pages total limit) ≡ is_before (end_of (offset_of w limit) limit) total
next_eq unbounded limit total h positive = refl
next_eq (whole (suc p)) limit total h positive =
    ground (arith, next_iff (suc p) limit total positive, mul_step p limit)
next_eq (whole zero) limit total h positive = absurd (ground arith)

previous_eq :
    (w : Whole) (limit : ℕ)
    → is_positive w ≡ true
    → 1 ≤ limit
    → is_after_first w ≡ is_positive (offset_of w limit)
previous_eq unbounded limit h positive = refl
previous_eq (whole (suc (suc p))) (suc l) h positive = ground (arith, mul_step p (suc l))
previous_eq (whole (suc zero)) (suc l) h positive = ground arith
previous_eq (whole (suc p)) zero h positive = absurd (ground arith)
previous_eq (whole zero) limit h positive = absurd (ground arith)

-- Of a page that was asked for in whatever way, the result says that there is a next page exactly if
-- items are left after the page's end, and that there is one before exactly if items stand before its
-- offset.
pub create_result-parse :
    {A : Type 0} (items : List A) (total : ℕ) (page page_size : Option Real)
    → ((create_result items total (parse page page_size)).meta.has_next
        ≡ is_before (end_of (parse page page_size).offset (parse page page_size).limit) total)
      × ((create_result items total (parse page page_size)).meta.has_previous
          ≡ is_positive (parse page page_size).offset)
unfolding parse create_result
create_result-parse items total page page_size =
    let positive = at_least_one_positive (or_default 1 page) in
    let (low, high) =
      at_most_100_bounds (at_least_one (or_default 15 page_size))
        (at_least_one_positive (or_default 15 page_size)) in
    (
      next_eq (at_least_one (or_default 1 page))
          (at_most_100 (at_least_one (or_default 15 page_size))) total positive low,
      previous_eq (at_least_one (or_default 1 page))
          (at_most_100 (at_least_one (or_default 15 page_size))) positive low,
    )
