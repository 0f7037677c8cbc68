-- ===== src/Sql/Postgres.antt =====
-- packages/database-postgresql/src/query/split-statements.ts
use myadmin.Common.{
  ℕ, zero, suc, ◌+◌, ◌-◌, Bool, ◌&&◌, ◌||◌, Option, none, some, List, [], ◌∷◌, leb, if◌then◌else◌,
  ◌==◌, nat_eq, string_eq, length, map_option,
}
use myadmin.Sql.Slices.{QueryStatement, push_trimmed, starts_with, next_is}

pub data Mode : Type 0 where
  normal single double line_comment block_comment : Mode

-- The variables of `splitPostgresqlStatements`.
pub record Scan : Type 0 where
  pub statements : List QueryStatement
  pub start : ℕ
  pub mode : Mode
  pub block_depth : ℕ
  pub dollar_tag : Option (List ℕ)

-- `[A-Za-z_]`
unfoldable pub is_tag_start : ℕ → Bool
is_tag_start c = (leb b'A' c && leb c b'Z') || (leb b'a' c && leb c b'z') || (c == b'_')

-- `[A-Za-z0-9_]`
unfoldable pub is_tag_char : ℕ → Bool
is_tag_char c = is_tag_start c || (leb b'0' c && leb c b'9')

-- What is left of a tag, from its second unit on: name and closing dollar sign.
unfoldable pub tag_rest : List ℕ → Option (List ℕ)
tag_rest [] = none
tag_rest (c ∷ cs) =
    let rest = tag_rest cs in
    if c == b'$' then some (b'$' ∷ []) else if is_tag_char c then map_option (◌∷◌ c) rest else none

-- `dollarTagAt`, after the first dollar sign.
unfoldable pub dollar_tag_at : List ℕ → Option (List ℕ)
dollar_tag_at [] = none
dollar_tag_at (c ∷ cs) =
    if (c == b'$') || is_tag_start c then map_option (◌∷◌ b'$') (tag_rest (c ∷ cs)) else none

module _ (sql : List ℕ) where
  abbrev push : ℕ → Scan → Scan
  push end s = record s { statements = push_trimmed sql s.start end s.statements; start = end + 1 }

  -- The body of the loop at `index`, where `current` stands before `rest`; with what it adds to
  -- `index`.
  abbrev step_comment : ℕ → List ℕ → Scan → Scan × ℕ
  step_comment current rest s =
      if (current == b'/') && next_is b'*' rest
      then (record s { block_depth = s.block_depth + 1 }, 1)
      else if (current == b'*') && next_is b'/' rest
      then (
        record s {
          block_depth = s.block_depth - 1;
          mode = if s.block_depth - 1 == 0 then normal else block_comment;
        },
        1,
      )
      else (s, 0)

  abbrev step_single : ℕ → List ℕ → Scan → Scan × ℕ
  step_single current rest s =
      if current == b'\''
      then if next_is b'\'' rest then (s, 1) else (record s { mode = normal }, 0)
      else if current == b'\\'
      then (s, 1)
      else (s, 0)

  abbrev step_double : ℕ → List ℕ → Scan → Scan × ℕ
  step_double current rest s =
      if current == b'"'
      then if next_is b'"' rest then (s, 1) else (record s { mode = normal }, 0)
      else (s, 0)

  abbrev step_tagged : List ℕ → ℕ → List ℕ → Scan → Scan × ℕ
  step_tagged tag current rest s =
      if starts_with tag (current ∷ rest)
      then (record s { dollar_tag = none }, length tag - 1)
      else (s, 0)

  unfoldable pub step_normal : ℕ → ℕ → List ℕ → Scan → Scan × ℕ
  step_normal index current rest s =
      if (current == b'-') && next_is b'-' rest
      then (record s { mode = line_comment }, 1)
      else if (current == b'/') && next_is b'*' rest
      then (record s { mode = block_comment; block_depth = 1 }, 1)
      else if current == b'\''
      then (record s { mode = single }, 0)
      else if current == b'"'
      then (record s { mode = double }, 0)
      else if current == b'$'
      then elim (dollar_tag_at rest) [
        | none ↦ (record s { dollar_tag = none }, 0)
        | some tag ↦ (record s { dollar_tag = some tag }, length tag - 1)
      ]
      else if current == b';'
      then (push index s, 0)
      else (s, 0)

  unfoldable pub step : ℕ → ℕ → List ℕ → Scan → Scan × ℕ
  step index current rest s = elim s.mode [
    | line_comment ↦ if current == 10 then (record s { mode = normal }, 0) else (s, 0)
    | block_comment ↦ step_comment current rest s
    | single ↦ step_single current rest s
    | double ↦ step_double current rest s
    | normal ↦ elim s.dollar_tag [
      | some tag ↦ step_tagged tag current rest s
      | none ↦ step_normal index current rest s
    ]
  ]

  -- The loop, over what is left of the text; `skip` counts the units that a round has passed.
  unfoldable pub scan : ℕ → ℕ → List ℕ → Scan → Scan
  scan index skip [] s = s
  scan index (suc skip) (c ∷ rest) s = scan (index + 1) skip rest s
  scan index zero (c ∷ rest) s =
      let (s', skip) = step index c rest s in scan (index + 1) skip rest s'

  unfoldable pub start_scan : Scan
  start_scan = record {
    statements = [];
    start = 0;
    mode = normal;
    block_depth = 0;
    dollar_tag = none;
  }

  unfoldable pub split_postgresql_statements : List QueryStatement
  split_postgresql_statements =
      let s = scan 0 0 sql start_scan in push_trimmed sql s.start (length sql) s.statements
