-- ===== src/Http/Paging.antt =====
-- apps/server/src/http/paging.ts. `get` stands for `searchParams.get` of the request's URL.
pub mod Bounds
use myadmin.Common.{
  ℕ, zero, suc, ◌+◌, ◌-◌, ◌*◌, ◌/◌, ◌%◌, ◌^◌, ◌≤◌, ◌<◌, min, max, String, ◌≡◌, refl, sym, ap, subst,
  ◌∙◌, ◌≢◌, ◌↔◌, ◌⊎◌, inl, inr, Bool, true, false, not, ◌&&◌, ◌||◌, Option, none, some, List, [],
  ◌∷◌, ◌++◌, map, append_assoc, append-nil, arith, eq_iff, ltb, leb, if◌then◌else◌, ltb→lt, lt→ltb,
  leb→le, le→leb, Eq, ◌==◌, nat_eq, string_eq, text_eq, Bool-cases, Option-cases, is_some,
  or_default, Result, ok, err, ◌>>=◌, ◌>>◌, guard, Number, nat, neg, not_whole, max_safe_integer,
  codes, is_space, all_space, is_blank, units, utf16_length, length, get_elem?, set, any, all,
  filter, find?, bit, count_if, All, length-append, length-map, get_elem?-set_self,
  get_elem?-set_ne, count_if-set, set-set, set_self, count_if-append, All-append, All-get, All-set,
  All-imp, if_both, all_iff, find?-map, find?-sound, find?-map-none, All-filter, find?-append_none,
  any-eq-false, bit_le, pow-suc, mul_comm, mul_assoc, some-injective, Result-cases, map_option,
}

unfoldable pub is_digit : ℕ → Bool
is_digit c = leb b'0' c && leb c b'9'

-- `Number(value)` on digits, exact: what is not safe is refused.
unfoldable pub digits_value : ℕ → List ℕ → ℕ
digits_value n [] = n
digits_value n (c ∷ cs) = digits_value (n * 10 + (c - b'0')) cs

-- What `positiveIntegerQuery` and `offsetQuery` share: the first takes 1 and more, the second 0 and more.
unfoldable pub integer_in : ℕ → ℕ → List ℕ → Option ℕ
unfolding is_digit digits_value
integer_in minimum maximum value =
    let parsed = digits_value 0 value in
    if not (all is_digit value)
    then none
    else if leb parsed max_safe_integer && leb minimum parsed && leb parsed maximum
    then some parsed
    else none

abbrev pub query_or_fallback : ℕ → Option (List ℕ) → ℕ → ℕ → Option ℕ
query_or_fallback minimum none fallback maximum = some fallback
query_or_fallback minimum (some []) fallback maximum = some fallback
query_or_fallback minimum (some (c ∷ cs)) fallback maximum = integer_in minimum maximum (c ∷ cs)

unfoldable pub positive_integer_query : Option (List ℕ) → ℕ → ℕ → Option ℕ
positive_integer_query value fallback maximum = query_or_fallback 1 value fallback maximum

unfoldable pub offset_query : Option (List ℕ) → ℕ → ℕ → Option ℕ
offset_query value fallback maximum = query_or_fallback 0 value fallback maximum

pub record PageBounds : Type 0 where
  pub page_maximum : ℕ
  pub page_size_fallback : ℕ
  pub page_size_maximum : ℕ

pub record PageQuery : Type 0 where
  pub page : ℕ
  pub page_size : ℕ

abbrev pub both : Option ℕ → Option ℕ → Option PageQuery
both none page_size = none
both (some page) none = none
both (some page) (some page_size) = some (record { page = page; page_size = page_size })

unfoldable pub page_query : (String → Option (List ℕ)) → PageBounds → Option PageQuery
page_query get bounds =
    both (positive_integer_query (get "page") 1 bounds.page_maximum)
      (positive_integer_query (get "pageSize") bounds.page_size_fallback bounds.page_size_maximum)

pub record CursorQuery : Type 0 where
  pub cursor : Option (List ℕ)
  pub limit : ℕ

abbrev pub some_text : Option (List ℕ) → Option (List ℕ)
some_text none = none
some_text (some []) = none
some_text (some (c ∷ cs)) = some (c ∷ cs)

unfoldable pub cursor_query : (String → Option (List ℕ)) → ℕ → ℕ → Option CursorQuery
cursor_query get limit_fallback limit_maximum =
    map_option (λ limit. record { cursor = some_text (get "cursor"); limit = limit })
      (positive_integer_query (get "limit") limit_fallback limit_maximum)
