-- ===== src/Sql/Ordering.antt =====
-- packages/database-mysql/src/query/split-statements.ts: statements in the order of the text.
use myadmin.Common.{
  ℕ, ◌-◌, ◌≤◌, ◌<◌, ◌≡◌, inl, inr, true, List, [], ◌∷◌, ◌++◌, arith, nat_eq, string_eq, text_eq,
  Option-cases, length, get_elem?,
}
use myadmin.Sql.Slices.{QueryStatement, slice, push_trimmed, trim_statement}
use myadmin.Sql.Trimming.{is_text}
use myadmin.Sql.Pieces.{IsPiece, trim_statement-IsPiece}

-- Statements in their order that do not overlap: each is the piece of the text between its offsets, from a
-- unit that is no white space to such a unit.
abbrev pub Ordered : List ℕ → ℕ → ℕ → List QueryStatement → Type 0
Ordered sql from to [] = from ≤ to
Ordered sql from to (x ∷ xs) =
    (from ≤ x.start_offset)
    × (x.start_offset < x.end_offset)
    × (x.sql ≡ slice sql x.start_offset x.end_offset)
    × (is_text (get_elem? sql x.start_offset) ≡ true)
    × (is_text (get_elem? sql (x.end_offset - 1)) ≡ true)
    × Ordered sql x.end_offset to xs

pub Ordered-extend :
    (sql : List ℕ) (from mid to : ℕ) (xs : List QueryStatement)
    → Ordered sql from mid xs
    → mid ≤ to
    → Ordered sql from to xs
Ordered-extend sql from mid to [] l m = omega arith
Ordered-extend sql from mid to (x ∷ xs) (a, b, c, d, e, rest) m =
    (a, b, c, d, e, Ordered-extend sql x.end_offset mid to xs rest m)

Ordered-snoc :
    (sql : List ℕ) (from mid to : ℕ) (xs : List QueryStatement) (x : QueryStatement)
    → Ordered sql from mid xs
    → IsPiece sql mid to x
    → Ordered sql from to (xs ++ x ∷ [])
Ordered-snoc sql from mid to [] x l p =
    (omega (arith, p.after), p.not_empty, p.copied, p.first_text, p.last_text, p.within)
Ordered-snoc sql from mid to (y ∷ ys) x (a, b, c, d, e, rest) p =
    (a, b, c, d, e, Ordered-snoc sql y.end_offset mid to ys x rest p)

pub push_trimmed-Ordered :
    (sql : List ℕ) (mid to : ℕ) (xs : List QueryStatement)
    → mid ≤ to
    → to ≤ length sql
    → Ordered sql 0 mid xs
    → Ordered sql 0 to (push_trimmed sql mid to xs)
unfolding push_trimmed
push_trimmed-Ordered sql mid to xs m b c = elim (Option-cases (trim_statement sql mid to)) [
  | inl nothing ↦ rw (nothing, push_trimmed) (Ordered-extend sql 0 mid to xs c m)
  | inr (x, e) ↦
      rw (e, push_trimmed)
        (Ordered-snoc sql 0 mid to xs x c (trim_statement-IsPiece sql mid to x b e))
]
