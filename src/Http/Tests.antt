-- ===== src/Http/Tests.antt =====
-- The theorems on paging at a concrete request.
use myadmin.Common.{
  ℕ, ◌≤◌, String, ◌≡◌, refl, Option, none, some, List, arith, if◌then◌else◌, ◌==◌, nat_eq,
  string_eq, text_eq, codes,
}
use myadmin.Http.Paging.{
  PageBounds, page_query, positive_integer_query, integer_in, digits_value, is_digit,
}
use myadmin.Http.Paging.Bounds.{page_query-bounds, page_query-to_text}

abbrev usual : PageBounds
usual = record { page_maximum = 10000; page_size_fallback = 20; page_size_maximum = 100 }

-- `?page=3&pageSize=50`
abbrev third : String → Option (List ℕ)
third name =
    if name == "page"
    then some (codes "3")
    else if name == "pageSize"
    then some (codes "50")
    else none

third_page : page_query third usual ≡ some (record { page = 3; page_size = 50 })
unfolding page_query positive_integer_query integer_in digits_value is_digit
third_page = refl

zero_page : page_query (λ name. if name == "page" then some (codes "0") else none) usual ≡ none
unfolding page_query positive_integer_query integer_in digits_value is_digit
zero_page = refl

page_query-bounds_example : (1 ≤ 3) × (3 ≤ 10000) × (1 ≤ 50) × (50 ≤ 100)
page_query-bounds_example =
    page_query-bounds third usual (record { page = 3; page_size = 50 }) (omega arith) (omega arith)
      (omega arith) third_page

page_query-to_text_example : page_query third usual ≡ some (record { page = 3; page_size = 50 })
page_query-to_text_example =
    page_query-to_text third usual 3 50 refl refl (omega arith) (omega arith) (omega arith)
      (omega arith) (omega arith) (omega arith)
