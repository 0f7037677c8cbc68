-- ===== src/Sql/Pieces.antt =====
-- The statements that trimming makes of the pieces of a text.
use myadmin.Common.{
  ℕ, zero, suc, ◌+◌, ◌-◌, ◌≤◌, ◌<◌, ◌≡◌, refl, ap, subst, ◌∙◌, inl, inr, true, none, some, List, [],
  ◌∷◌, ◌++◌, arith, ltb, ltb→lt, nat_eq, string_eq, Bool-cases, Option-cases, length, get_elem?,
  some-injective,
}
use myadmin.Sql.Slices.{
  QueryStatement, take, drop, slice, first_non_space, trim_end, trim_statement, push_trimmed,
}
use myadmin.Sql.Trimming.{
  is_text, is_gap, get_elem?-take, get_elem?-drop, length-drop, first_found, before_first,
  all_space_gap, trim_end-le, after_trim, last_found, ltb-false,
}

-- From one offset up to another there are only white space and semicolons.
abbrev pub Gap : List ℕ → ℕ → ℕ → Type 0
Gap sql from to = (i : ℕ) → from ≤ i → i < to → is_gap (get_elem? sql i) ≡ true

-- The statement is a piece of the text between two offsets, from a text unit to a text unit.
pub record IsPiece (sql : List ℕ) (from to : ℕ) (x : QueryStatement) : Type 0 where
  pub after : from ≤ x.start_offset
  pub not_empty : x.start_offset < x.end_offset
  pub within : x.end_offset ≤ to
  pub copied : x.sql ≡ slice sql x.start_offset x.end_offset
  pub first_text : is_text (get_elem? sql x.start_offset) ≡ true
  pub last_text : is_text (get_elem? sql (x.end_offset - 1)) ≡ true
  pub lead : Gap sql from x.start_offset
  pub trail : Gap sql x.end_offset to

get_elem?-slice :
    (sql : List ℕ) (from to i : ℕ)
    → i < to - from
    → get_elem? (slice sql from to) i ≡ get_elem? sql (i + from)
unfolding slice
get_elem?-slice sql from to i l =
    get_elem?-take (to - from) (drop from sql) i l ∙ get_elem?-drop from sql i

length-take_eq : (n : ℕ) (cs : List ℕ) → n ≤ length cs → length (take n cs) ≡ n
unfolding take
length-take_eq zero cs h = refl
length-take_eq (suc n) [] h = absurd (omega arith)
length-take_eq (suc n) (c ∷ cs) h = ap suc (length-take_eq n cs (omega arith))

length-slice :
    (sql : List ℕ) (from to : ℕ) → to ≤ length sql → length (slice sql from to) ≡ to - from
unfolding slice
length-slice sql from to b =
    length-take_eq (to - from) (drop from sql) (omega (arith, length-drop from sql))

sub_add : (i from : ℕ) → from ≤ i → i - from + from ≡ i
sub_add i from h = omega arith

swap : (k from : ℕ) → k + from ≡ from + k
swap k from = omega arith

abbrev piece_at : List ℕ → ℕ → ℕ → ℕ → QueryStatement
piece_at sql from to k = record {
  sql = slice sql (from + k) (trim_end sql from (to - from));
  start_offset = from + k;
  end_offset = trim_end sql from (to - from);
}

piece_at-IsPiece :
    (sql : List ℕ) (from to k : ℕ)
    → to ≤ length sql
    → first_non_space (slice sql from to) ≡ some k
    → IsPiece sql from to (piece_at sql from to k)
piece_at-IsPiece sql from to k b e =
    let (in_slice, text) = first_found (slice sql from to) k e in
    let l : k < to - from = omega (arith, in_slice, length-slice sql from to b) in
    let there : is_text (get_elem? sql (from + k)) ≡ true =
      subst (λ j. is_text (get_elem? sql j) ≡ true) (swap k from)
        (subst (λ o. is_text o ≡ true) (get_elem?-slice sql from to k l) text) in
    let (far, last) = last_found sql from (to - from) k (omega (arith, l)) l there in
    record {
      after = omega arith;
      not_empty = far;
      within = omega (arith, trim_end-le sql from (to - from), l);
      copied = refl;
      first_text = there;
      last_text = last;
      lead = λ i above below.
          subst (λ j. is_gap (get_elem? sql j) ≡ true) (sub_add i from above)
            (subst (λ o. is_gap o ≡ true)
              (get_elem?-slice sql from to (i - from) (omega (arith, above, below, l)))
              (before_first (slice sql from to) k (i - from) e (omega (arith, above, below))));
      trail = λ i above below. after_trim sql from (to - from) i above (omega (arith, below, l));
    }

piece_found :
    (sql : List ℕ) (from to k : ℕ)
    → first_non_space (slice sql from to) ≡ some k
    → some (piece_at sql from to k) ≡ trim_statement sql from to
unfolding trim_statement
piece_found sql from to k e = rw (e, trim_statement) refl

-- A piece of a text is trimmed to a statement that lies in it, with nothing but white space around.
pub trim_statement-IsPiece :
    (sql : List ℕ) (from to : ℕ) (x : QueryStatement)
    → to ≤ length sql
    → trim_statement sql from to ≡ some x
    → IsPiece sql from to x
unfolding trim_statement
trim_statement-IsPiece sql from to x b h =
    elim (Option-cases (first_non_space (slice sql from to))) [
      | inl nothing ↦ ground arith
      | inr (k, e) ↦
          subst (IsPiece sql from to) (some-injective _ x (piece_found sql from to k e ∙ h))
            (piece_at-IsPiece sql from to k b e)
    ]

pub trim_statement-none :
    (sql : List ℕ) (from to : ℕ)
    → to ≤ length sql
    → trim_statement sql from to ≡ none
    → Gap sql from to
unfolding trim_statement
trim_statement-none sql from to b h i l g =
    elim (Option-cases (first_non_space (slice sql from to))) [
      | inl nothing ↦
          let below : i - from < to - from = omega (arith, l, g) in
          subst (λ j. is_gap (get_elem? sql j) ≡ true) (sub_add i from l)
            (subst (λ o. is_gap o ≡ true) (get_elem?-slice sql from to (i - from) below)
              (all_space_gap (slice sql from to) (i - from) nothing
                (omega (arith, below, length-slice sql from to b))))
      | inr (k, e) ↦ ground arith
    ]

-- Statements that follow each other in a text, with nothing but gaps between and around them.
abbrev pub Covers : List ℕ → ℕ → ℕ → List QueryStatement → Type 0
Covers sql from to [] = (from ≤ to) × Gap sql from to
Covers sql from to (x ∷ xs) = IsPiece sql from x.end_offset x × Covers sql x.end_offset to xs

Gap-append : (sql : List ℕ) (from mid to : ℕ) → Gap sql from mid → Gap sql mid to → Gap sql from to
Gap-append sql from mid to g h i above below = elim (Bool-cases (ltb i mid)) [
  | inl less ↦ g i above (ltb→lt i mid less)
  | inr more ↦ h i (ltb-false i mid more) below
]

Covers-extend :
    (sql : List ℕ) (from mid to : ℕ) (xs : List QueryStatement)
    → Covers sql from mid xs
    → mid ≤ to
    → Gap sql mid to
    → Covers sql from to xs
Covers-extend sql from mid to [] (l, g) m h = (omega arith, Gap-append sql from mid to g h)
Covers-extend sql from mid to (x ∷ xs) (p, c) m h =
    (p, Covers-extend sql x.end_offset mid to xs c m h)

Covers-snoc :
    (sql : List ℕ) (from mid to : ℕ) (xs : List QueryStatement) (x : QueryStatement)
    → Covers sql from mid xs
    → IsPiece sql mid to x
    → Covers sql from to (xs ++ x ∷ [])
Covers-snoc sql from mid to [] x (l, g) p = (
  record {
    after = omega (arith, p.after);
    not_empty = p.not_empty;
    within = omega arith;
    copied = p.copied;
    first_text = p.first_text;
    last_text = p.last_text;
    lead = Gap-append sql from mid x.start_offset g p.lead;
    trail = λ i above below. absurd (omega (arith, above, below));
  },
  (p.within, p.trail),
)
Covers-snoc sql from mid to (y ∷ ys) x (q, c) p = (q, Covers-snoc sql y.end_offset mid to ys x c p)

-- Pushing the next piece covers the text up to its end.
pub push_trimmed-Covers :
    (sql : List ℕ) (mid to : ℕ) (xs : List QueryStatement)
    → mid ≤ to
    → to ≤ length sql
    → Covers sql 0 mid xs
    → Covers sql 0 to (push_trimmed sql mid to xs)
unfolding push_trimmed
push_trimmed-Covers sql mid to xs m b c = elim (Option-cases (trim_statement sql mid to)) [
  | inl nothing ↦
      rw (nothing, push_trimmed)
        (Covers-extend sql 0 mid to xs c m (trim_statement-none sql mid to b nothing))
  | inr (x, e) ↦
      rw (e, push_trimmed)
        (Covers-snoc sql 0 mid to xs x c (trim_statement-IsPiece sql mid to x b e))
]

-- A semicolon behind the end may be passed over.
pub Covers-semicolon :
    (sql : List ℕ) (to : ℕ) (xs : List QueryStatement)
    → Covers sql 0 to xs
    → is_gap (get_elem? sql to) ≡ true
    → Covers sql 0 (to + 1) xs
Covers-semicolon sql to xs c e =
    Covers-extend sql 0 to (to + 1) xs c (omega arith) (λ i above below.
      subst (λ j. is_gap (get_elem? sql j) ≡ true) (omega (arith, above, below)) e)
