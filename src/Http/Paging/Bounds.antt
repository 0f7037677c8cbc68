-- ===== src/Http/Paging/Bounds.antt =====
-- Pages that a client asks for, and what the server makes of them.
use myadmin.Common.{
  ℕ, zero, suc, ◌+◌, ◌-◌, ◌*◌, ◌/◌, ◌%◌, ◌≤◌, ◌<◌, String, ◌≡◌, refl, ap, ◌∙◌, inl, inr, Bool, true,
  ◌&&◌, Option, none, some, List, [], ◌∷◌, ◌++◌, arith, ltb, if◌then◌else◌, ltb→lt, le→leb, nat_eq,
  string_eq, text_eq, Bool-cases, max_safe_integer, all, some-injective,
}
use myadmin.Http.Paging.{
  is_digit, digits_value, integer_in, positive_integer_query, PageBounds, PageQuery, both,
  page_query,
}

integer_in-bounds :
    (minimum maximum n : ℕ) (value : List ℕ)
    → integer_in minimum maximum value ≡ some n
    → (minimum ≤ n) × (n ≤ maximum)
unfolding integer_in
integer_in-bounds minimum maximum n value h = ground arith

query-bounds :
    (value : Option (List ℕ)) (fallback maximum n : ℕ)
    → 1 ≤ fallback
    → fallback ≤ maximum
    → positive_integer_query value fallback maximum ≡ some n
    → (1 ≤ n) × (n ≤ maximum)
unfolding positive_integer_query
query-bounds none fallback maximum n low high h = ground arith
query-bounds (some []) fallback maximum n low high h = ground arith
query-bounds (some (c ∷ cs)) fallback maximum n low high h =
    integer_in-bounds 1 maximum n (c ∷ cs) h

-- The decimal digits of a number, on fuel: as many rounds as the number counts are enough.
abbrev pub digits_on : ℕ → ℕ → List ℕ
digits_on zero n = (b'0' + n) ∷ []
digits_on (suc fuel) n =
    let rest = digits_on fuel (n / 10) in
    if ltb n 10 then (b'0' + n) ∷ [] else rest ++ (b'0' + n % 10) ∷ []

abbrev pub to_text : ℕ → List ℕ
to_text n = digits_on n n

digits_value-append :
    (start : ℕ) (xs : List ℕ) (c : ℕ)
    → digits_value start (xs ++ c ∷ []) ≡ digits_value start xs * 10 + (c - b'0')
unfolding digits_value
digits_value-append start [] c = refl
digits_value-append start (x ∷ xs) c = digits_value-append (start * 10 + (x - b'0')) xs c

digits_value_one : (n : ℕ) → digits_value 0 ((b'0' + n) ∷ []) ≡ n
unfolding digits_value
digits_value_one n = omega arith

digits_value-digits_on : (fuel n : ℕ) → n ≤ fuel → digits_value 0 (digits_on fuel n) ≡ n
digits_value-digits_on zero n h = digits_value_one n
digits_value-digits_on (suc fuel) n h = elim (Bool-cases (ltb n 10)) [
  | inl small ↦ rw small (digits_value_one n)
  | inr big ↦ rw big (
      digits_value-append 0 (digits_on fuel (n / 10)) (b'0' + n % 10)
      ∙ ap (λ m. m * 10 + (b'0' + n % 10 - b'0'))
          (digits_value-digits_on fuel (n / 10) (ground (arith, big)))
      ∙ omega arith)
]

all-append : (p : ℕ → Bool) (xs ys : List ℕ) → all p (xs ++ ys) ≡ (all p xs && all p ys)
all-append p [] ys = refl
all-append p (x ∷ xs) ys = ground (arith, all-append p xs ys)

one_digit : (n : ℕ) → n < 10 → all is_digit ((b'0' + n) ∷ []) ≡ true
unfolding is_digit
one_digit n h = ground arith

last_digit : (n : ℕ) → n % 10 < 10
last_digit n = omega arith

digits_on-all : (fuel n : ℕ) → n ≤ fuel → all is_digit (digits_on fuel n) ≡ true
digits_on-all zero n h = one_digit n (omega arith)
digits_on-all (suc fuel) n h = elim (Bool-cases (ltb n 10)) [
  | inl small ↦ rw small (one_digit n (ltb→lt n 10 small))
  | inr big ↦ rw big (
      all-append is_digit (digits_on fuel (n / 10)) ((b'0' + n % 10) ∷ [])
      ∙ rw (digits_on-all fuel (n / 10) (ground (arith, big)), one_digit (n % 10) (last_digit n))
          refl)
]

integer_in-to_text :
    (minimum maximum n : ℕ)
    → minimum ≤ n
    → n ≤ maximum
    → n ≤ max_safe_integer
    → integer_in minimum maximum (to_text n) ≡ some n
unfolding integer_in
integer_in-to_text minimum maximum n low high safe =
    rw
      (
        digits_on-all n n (omega arith),
        digits_value-digits_on n n (omega arith),
        le→leb n max_safe_integer safe,
        le→leb minimum n low,
        le→leb n maximum high,
      )
      refl

-- The empty text, which has no digits, is not read as a number.
no_digits : (maximum : ℕ) → integer_in 1 maximum [] ≡ none
unfolding integer_in digits_value
no_digits maximum = refl

query-integer_in :
    (value : List ℕ) (fallback maximum n : ℕ)
    → integer_in 1 maximum value ≡ some n
    → positive_integer_query (some value) fallback maximum ≡ some n
unfolding positive_integer_query
query-integer_in [] fallback maximum n h = cc (h, no_digits maximum)
query-integer_in (c ∷ cs) fallback maximum n h = h

query-to_text :
    (fallback maximum n : ℕ)
    → 1 ≤ n
    → n ≤ maximum
    → n ≤ max_safe_integer
    → positive_integer_query (some (to_text n)) fallback maximum ≡ some n
query-to_text fallback maximum n low high safe =
    query-integer_in (to_text n) fallback maximum n (integer_in-to_text 1 maximum n low high safe)

both-parts :
    (page page_size : Option ℕ) (q : PageQuery)
    → both page page_size ≡ some q
    → (page ≡ some q.page) × (page_size ≡ some q.page_size)
both-parts none page_size q h = cc h
both-parts (some page) none q h = cc h
both-parts (some page) (some page_size) q h =
    let same = some-injective (record { page = page; page_size = page_size }) q h in
    (ap (λ (x : PageQuery). some x.page) same, ap (λ (x : PageQuery). some x.page_size) same)

-- A page that the server accepts lies within the bounds of its route, where the route's own fallback does.
pub page_query-bounds :
    (get : String → Option (List ℕ)) (bounds : PageBounds) (q : PageQuery)
    → 1 ≤ bounds.page_maximum
    → 1 ≤ bounds.page_size_fallback
    → bounds.page_size_fallback ≤ bounds.page_size_maximum
    → page_query get bounds ≡ some q
    → (1 ≤ q.page)
      × (q.page ≤ bounds.page_maximum)
      × (1 ≤ q.page_size)
      × (q.page_size ≤ bounds.page_size_maximum)
unfolding page_query
page_query-bounds get bounds q some_page low high h =
    let (page, page_size) =
      both-parts (positive_integer_query (get "page") 1 bounds.page_maximum)
        (positive_integer_query (get "pageSize") bounds.page_size_fallback bounds.page_size_maximum)
        q h in
    let (page_low, page_high) =
      query-bounds (get "page") 1 bounds.page_maximum q.page (omega arith) some_page page in
    let (size_low, size_high) =
      query-bounds (get "pageSize") bounds.page_size_fallback bounds.page_size_maximum q.page_size
        low high page_size in
    (page_low, page_high, size_low, size_high)

-- Every page within the bounds of a route can be asked for, in decimal digits, where these bounds are safe
-- integers of JavaScript.
pub page_query-to_text :
    (get : String → Option (List ℕ)) (bounds : PageBounds) (page page_size : ℕ)
    → get "page" ≡ some (to_text page)
    → get "pageSize" ≡ some (to_text page_size)
    → 1 ≤ page
    → page ≤ bounds.page_maximum
    → 1 ≤ page_size
    → page_size ≤ bounds.page_size_maximum
    → bounds.page_maximum ≤ max_safe_integer
    → bounds.page_size_maximum ≤ max_safe_integer
    → page_query get bounds ≡ some (record { page = page; page_size = page_size })
unfolding page_query
page_query-to_text get bounds page page_size at at_size low high low_size high_size safe safe_size =
    rw
      (
        at,
        at_size,
        query-to_text 1 bounds.page_maximum page low high (omega arith),
        query-to_text bounds.page_size_fallback bounds.page_size_maximum page_size low_size
            high_size (omega arith),
      )
      refl
