-- ===== src/Sql/Slices.antt =====
-- What packages/database-postgresql/src/query/split-statements.ts and the same file of
-- packages/database-mysql share. A text is the list of its UTF-16 code units.
use myadmin.Common.{
  ℕ, zero, suc, ◌+◌, ◌-◌, Bool, true, false, ◌&&◌, Option, none, some, List, [], ◌∷◌, ◌++◌,
  if◌then◌else◌, ◌==◌, nat_eq, string_eq, is_space, get_elem?,
}

pub record QueryStatement : Type 0 where
  pub sql : List ℕ
  pub start_offset : ℕ
  pub end_offset : ℕ

unfoldable pub take : ℕ → List ℕ → List ℕ
take zero cs = []
take (suc n) [] = []
take (suc n) (c ∷ cs) = c ∷ take n cs

unfoldable pub drop : ℕ → List ℕ → List ℕ
drop zero cs = cs
drop (suc n) [] = []
drop (suc n) (c ∷ cs) = drop n cs

-- `slice`
unfoldable pub slice : List ℕ → ℕ → ℕ → List ℕ
unfolding take drop
slice sql from to = take (to - from) (drop from sql)

-- `search(/\S/)`; `none` is -1.
unfoldable pub first_non_space : List ℕ → Option ℕ
first_non_space [] = none
first_non_space (c ∷ cs) =
    if is_space c then elim (first_non_space cs) [ none ↦ none | some i ↦ some (suc i) ] else some 0

-- The loop that moves the end of a statement back over white space, on the length that is left.
unfoldable pub trim_end : List ℕ → ℕ → ℕ → ℕ
trim_end sql start zero = start
trim_end sql start (suc n) = elim (get_elem? sql (start + n)) [
  | none ↦ start + suc n
  | some c ↦ if is_space c then trim_end sql start n else start + suc n
]

unfoldable pub trim_statement : List ℕ → ℕ → ℕ → Option QueryStatement
trim_statement sql start end = elim (first_non_space (slice sql start end)) [
  | none ↦ none
  | some leading ↦
      let trimmed_end = trim_end sql start (end - start) in
      some (record {
        sql = slice sql (start + leading) trimmed_end;
        start_offset = start + leading;
        end_offset = trimmed_end;
      })
]

-- `if (statement) statements.push(statement)`
unfoldable pub push_trimmed : List ℕ → ℕ → ℕ → List QueryStatement → List QueryStatement
push_trimmed sql start end statements = elim (trim_statement sql start end) [
  | none ↦ statements
  | some x ↦ statements ++ x ∷ []
]

-- `startsWith`, on what is left of the text.
unfoldable pub starts_with : List ℕ → List ℕ → Bool
starts_with [] cs = true
starts_with (d ∷ ds) [] = false
starts_with (d ∷ ds) (c ∷ cs) = (d == c) && starts_with ds cs

-- `sql[index + 1] === c`
abbrev pub next_is : ℕ → List ℕ → Bool
next_is c [] = false
next_is c (n ∷ cs) = n == c
