-- ===== src/Pagination/Tests.antt =====
-- Pages at concrete inputs.
use nestjs_chat.Base.{◌≡◌, ◌≤◌, refl, true, false, none, some, List, [], ◌∷◌, ℕ}
use nestjs_chat.Pagination.{
  infinity, fraction, whole, unbounded, PaginationOptions, parse, create_result, is_before,
}
use nestjs_chat.Pagination.Bounds.{filled, is_positive, end_of, parse-bounds, create_result-parse}

-- the page 2.5 of size -3
abbrev odd : PaginationOptions
unfolding parse
odd = parse (some (fraction false 5 1)) (some (fraction true 3 0))

odd_is : odd ≡ record { page = whole 2; page_size = 1; offset = whole 1; limit = 1 }
unfolding odd
odd_is = refl

-- an infinite page has an infinite offset
endless_is :
    (parse (some (infinity false)) none)
    ≡ record { page = unbounded; page_size = 15; offset = unbounded; limit = 15 }
unfolding parse
endless_is = refl

-- the one item of the page
abbrev one_item : List ℕ
one_item = 7 ∷ []

parse-bounds_example :
    (is_positive odd.page ≡ true)
    × (1 ≤ odd.page_size)
    × (odd.page_size ≤ 100)
    × (odd.limit ≡ odd.page_size)
    × (end_of odd.offset odd.limit ≡ filled odd.page odd.page_size)
unfolding odd
parse-bounds_example = parse-bounds (some (fraction false 5 1)) (some (fraction true 3 0))

create_result-parse_example :
    ((create_result one_item 3 odd).meta.has_next ≡ is_before (end_of odd.offset odd.limit) 3)
    × ((create_result one_item 3 odd).meta.has_previous ≡ is_positive odd.offset)
unfolding odd
create_result-parse_example =
    create_result-parse one_item 3 (some (fraction false 5 1)) (some (fraction true 3 0))
