-- ===== src/Sql/Trimming.antt =====
-- What trimming a piece of a text keeps, and what it leaves out.
use myadmin.Common.{
  ℕ, zero, suc, ◌+◌, ◌-◌, ◌≤◌, ◌<◌, ◌≡◌, refl, ap, subst, ◌∙◌, ◌≢◌, inl, inr, Bool, true, false,
  not, ◌||◌, Option, none, some, List, [], ◌∷◌, arith, ltb, ltb→lt, ◌==◌, nat_eq, string_eq,
  Bool-cases, Option-cases, is_space, length, get_elem?,
}
use myadmin.Sql.Slices.{take, drop, first_non_space, trim_end}

-- A unit that is there and no white space.
abbrev pub is_text : Option ℕ → Bool
is_text none = false
is_text (some c) = not (is_space c)

-- A unit that is white space or a semicolon.
abbrev pub is_gap : Option ℕ → Bool
is_gap none = false
is_gap (some c) = is_space c || (c == b';')

pub get_elem?-take :
    (n : ℕ) (cs : List ℕ) (i : ℕ) → i < n → get_elem? (take n cs) i ≡ get_elem? cs i
unfolding take
get_elem?-take zero cs i h = absurd (omega arith)
get_elem?-take (suc n) [] i h = refl
get_elem?-take (suc n) (c ∷ cs) zero h = refl
get_elem?-take (suc n) (c ∷ cs) (suc i) h = get_elem?-take n cs i (omega arith)

pub get_elem?-drop : (n : ℕ) (cs : List ℕ) (i : ℕ) → get_elem? (drop n cs) i ≡ get_elem? cs (i + n)
unfolding drop
get_elem?-drop zero cs i = let e : i ≡ i + 0 = omega arith in ap (get_elem? cs) e
get_elem?-drop (suc n) [] i = refl
get_elem?-drop (suc n) (c ∷ cs) i =
    let e : suc (i + n) ≡ i + suc n = omega arith in
    get_elem?-drop n cs i ∙ ap (get_elem? (c ∷ cs)) e

pub length-drop : (n : ℕ) (cs : List ℕ) → length (drop n cs) ≡ length cs - n
unfolding drop
length-drop zero cs = omega arith
length-drop (suc n) [] = omega arith
length-drop (suc n) (c ∷ cs) = omega (arith, length-drop n cs)

-- How the search goes on behind a first unit.
skipped :
    (c : ℕ) (cs : List ℕ) (i : ℕ)
    → first_non_space (c ∷ cs) ≡ some (suc i)
    → (is_space c ≡ true) × (first_non_space cs ≡ some i)
unfolding first_non_space
skipped c cs i h = (ground arith, ground arith)

skipped_all :
    (c : ℕ) (cs : List ℕ)
    → first_non_space (c ∷ cs) ≡ none
    → (is_space c ≡ true) × (first_non_space cs ≡ none)
unfolding first_non_space
skipped_all c cs h = (ground arith, ground arith)

-- The first unit that is no white space.
pub first_found :
    (cs : List ℕ) (i : ℕ)
    → first_non_space cs ≡ some i
    → (i < length cs) × (is_text (get_elem? cs i) ≡ true)
unfolding first_non_space
first_found [] i h = cc
first_found (c ∷ cs) zero h = (omega arith, ground arith)
first_found (c ∷ cs) (suc i) h =
    let (l, t) = first_found cs i (skipped c cs i h).1 in (omega (arith, l), t)

pub before_first :
    (cs : List ℕ) (i j : ℕ) → first_non_space cs ≡ some i → j < i → is_gap (get_elem? cs j) ≡ true
unfolding first_non_space
before_first [] i j h l = cc
before_first (c ∷ cs) zero j h l = absurd (omega arith)
before_first (c ∷ cs) (suc i) zero h l = ground (arith, skipped c cs i h)
before_first (c ∷ cs) (suc i) (suc j) h l =
    before_first cs i j (skipped c cs i h).1 (omega (arith, l))

pub all_space_gap :
    (cs : List ℕ) (j : ℕ)
    → first_non_space cs ≡ none
    → j < length cs
    → is_gap (get_elem? cs j) ≡ true
unfolding first_non_space
all_space_gap [] j h l = absurd (omega arith)
all_space_gap (c ∷ cs) zero h l = ground (arith, skipped_all c cs h)
all_space_gap (c ∷ cs) (suc j) h l = all_space_gap cs j (skipped_all c cs h).1 (omega (arith, l))

-- Moving the end back over white space: it passes only that, and stops behind a text unit.
pub trim_end-le : (sql : List ℕ) (start n : ℕ) → trim_end sql start n ≤ start + n
unfolding trim_end
trim_end-le sql start zero = omega arith
trim_end-le sql start (suc n) = ground (arith, trim_end-le sql start n)

pub ltb-false : (a b : ℕ) → ltb a b ≡ false → b ≤ a
ltb-false a b h = ground arith

pub after_trim :
    (sql : List ℕ) (start n i : ℕ)
    → trim_end sql start n ≤ i
    → i < start + n
    → is_gap (get_elem? sql i) ≡ true
unfolding trim_end
after_trim sql start zero i h l = absurd (omega arith)
after_trim sql start (suc n) i h l = elim (Option-cases (get_elem? sql (start + n))) [
  | inl none_there ↦ ground arith
  | inr (c, e) ↦ elim (Bool-cases (ltb i (start + n))) [
    | inl less ↦ ground (arith, after_trim sql start n i)
    | inr last ↦
        let same : start + n ≡ i = omega (arith, ltb-false i (start + n) last) in
        subst (λ j. is_gap (get_elem? sql j) ≡ true) same (ground arith)
  ]
]

in_bounds : (cs : List ℕ) (i : ℕ) → i < length cs → get_elem? cs i ≢ none
in_bounds [] i h e = omega arith
in_bounds (c ∷ cs) zero h e = cc
in_bounds (c ∷ cs) (suc i) h e = in_bounds cs i (omega arith) e

trim_space :
    (sql : List ℕ) (start n c : ℕ)
    → get_elem? sql (start + n) ≡ some c
    → is_space c ≡ true
    → trim_end sql start (suc n) ≡ trim_end sql start n
unfolding trim_end
trim_space sql start n c e space = ground arith

trim_text :
    (sql : List ℕ) (start n c : ℕ)
    → get_elem? sql (start + n) ≡ some c
    → is_space c ≡ false
    → trim_end sql start (suc n) ≡ start + suc n
unfolding trim_end
trim_text sql start n c e text = ground arith

text_before :
    (sql : List ℕ) (start n k c : ℕ)
    → get_elem? sql (start + n) ≡ some c
    → is_space c ≡ true
    → is_text (get_elem? sql (start + k)) ≡ true
    → k < suc n
    → k < n
text_before sql start n k c e space t l = elim (Bool-cases (ltb k n)) [
  | inl h ↦ ltb→lt k n h
  | inr h ↦
      let same : k ≡ n = omega (arith, ltb-false k n h) in
      let there : is_text (get_elem? sql (start + n)) ≡ true =
        subst (λ j. is_text (get_elem? sql (start + j)) ≡ true) same t in
      absurd (ground arith)
]

pub last_found :
    (sql : List ℕ) (start n k : ℕ)
    → start + n ≤ length sql
    → k < n
    → is_text (get_elem? sql (start + k)) ≡ true
    → (start + k < trim_end sql start n)
      × (is_text (get_elem? sql (trim_end sql start n - 1)) ≡ true)
last_found sql start zero k b l t = absurd (omega arith)
last_found sql start (suc n) k b l t = elim (Option-cases (get_elem? sql (start + n))) [
  | inl none_there ↦ absurd (in_bounds sql (start + n) (omega arith) none_there)
  | inr (c, e) ↦ elim (Bool-cases (is_space c)) [
    | inl space ↦
        rw (trim_space sql start n c e space)
          (last_found sql start n k (omega arith) (text_before sql start n k c e space t l) t)
    | inr text ↦
        let back : start + n ≡ start + suc n - 1 = omega arith in
        rw (trim_text sql start n c e text)
          (omega (arith, l), subst (λ j. is_text (get_elem? sql j) ≡ true) back (ground arith))
  ]
]
