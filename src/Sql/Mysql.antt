-- ===== src/Sql/Mysql.antt =====
-- packages/database-mysql/src/query/split-statements.ts
use myadmin.Common.{
  ℕ, zero, suc, ◌+◌, ◌-◌, Bool, true, false, ◌&&◌, ◌||◌, Option, none, some, List, [], ◌∷◌, ltb,
  leb, if◌then◌else◌, ◌==◌, nat_eq, string_eq, text_eq, codes, is_space, length,
}
use myadmin.Sql.Slices.{QueryStatement, push_trimmed, starts_with, next_is}

pub data Mode : Type 0 where
  normal single double backtick line_comment block_comment : Mode

-- The variables of `splitMysqlStatements`.
pub record Scan : Type 0 where
  pub statements : List QueryStatement
  pub start : ℕ
  pub delimiter : List ℕ
  pub mode : Mode
  pub block_depth : ℕ
  pub line_start : Bool

abbrev is_blank_unit : ℕ → Bool
is_blank_unit c = (c == 32) || (c == 9)

-- `[ \t]*`: how many there are, and what follows.
unfoldable pub blank_run : List ℕ → ℕ × List ℕ
blank_run [] = (0, [])
blank_run (c ∷ cs) =
    let (n, rest) = blank_run cs in if is_blank_unit c then (suc n, rest) else (0, c ∷ cs)

-- `[^\s]+`, or nothing, and what follows.
unfoldable pub word_run : List ℕ → List ℕ × List ℕ
word_run [] = ([], [])
word_run (c ∷ cs) =
    let (word, rest) = word_run cs in if is_space c then ([], c ∷ cs) else (c ∷ word, rest)

-- `(?:\r?\n|$)`: the length of the end of the line, if one is there.
unfoldable pub line_end : List ℕ → Option ℕ
line_end [] = some 0
line_end (c ∷ cs) = if c == 10 then some 1 else if (c == 13) && next_is 10 cs then some 2 else none

abbrev lower : ℕ → ℕ
lower c = if leb b'A' c && leb c b'Z' then c + 32 else c

-- A keyword in either case, and what follows.
unfoldable pub drop_keyword : List ℕ → List ℕ → Option (List ℕ)
drop_keyword [] cs = some cs
drop_keyword (k ∷ ks) [] = none
drop_keyword (k ∷ ks) (c ∷ cs) =
    let rest = drop_keyword ks cs in if lower c == k then rest else none

-- The new delimiter, and the length of the match, if the line ends behind it.
abbrev pub directive_end : List ℕ → ℕ → Option ℕ → Option (List ℕ × ℕ)
directive_end word n none = none
directive_end word n (some m) = some (word, n + m)

-- What follows the keyword, which ends at `n`.
unfoldable pub directive_word : ℕ → List ℕ → Option (List ℕ × ℕ)
directive_word n after_keyword =
    let (gap, after_gap) = blank_run after_keyword in
    let (word, after_word) = word_run after_gap in
    let (tail, after_tail) = blank_run after_word in
    if (gap == 0) || (length word == 0)
    then none
    else directive_end word (n + gap + length word + tail) (line_end after_tail)

abbrev pub directive_rest : ℕ → Option (List ℕ) → Option (List ℕ × ℕ)
directive_rest n none = none
directive_rest n (some after_keyword) = directive_word n after_keyword

-- The `DELIMITER` directive at the head of a text: the new delimiter and the length of the match.
unfoldable pub directive_at : List ℕ → Option (List ℕ × ℕ)
directive_at cs =
    let (indent, after_indent) = blank_run cs in
    directive_rest (indent + 9) (drop_keyword (codes "delimiter") after_indent)

-- `current === '\n' || (lineStart && (current === ' ' || current === '\t'))`
abbrev stays_line_start : ℕ → Bool → Bool
stays_line_start c line_start = (c == 10) || (line_start && is_blank_unit c)

abbrev closing : Mode → ℕ
closing single = b'\''
closing double = b'"'
closing _ = b'`'

module _ (sql : List ℕ) where
  -- A delimiter at `index`: the statement before it is pushed.
  abbrev push : ℕ → Scan → Scan
  push end s = record s {
    statements = push_trimmed sql s.start end s.statements;
    start = end + length s.delimiter;
  }

  unfoldable pub step_comment : ℕ → List ℕ → Scan → Scan × ℕ
  step_comment current rest s =
      if (current == b'/') && next_is b'*' rest
      then (record s { block_depth = s.block_depth + 1; line_start = false }, 1)
      else if (current == b'*') && next_is b'/' rest
      then (
        record s {
          block_depth = s.block_depth - 1;
          mode = if s.block_depth - 1 == 0 then normal else block_comment;
          line_start = false;
        },
        1,
      )
      else (record s { line_start = current == 10 }, 0)

  unfoldable pub step_quoted : ℕ → List ℕ → Scan → Scan × ℕ
  step_quoted current rest s =
      let after = record s { line_start = stays_line_start current s.line_start } in
      if current == b'\\'
      then (after, 1)
      else if current == closing s.mode
      then if next_is current rest then (after, 1) else (record after { mode = normal }, 0)
      else (after, 0)

  -- Behind the test for the delimiter.
  unfoldable pub step_plain : ℕ → List ℕ → Scan → Scan × ℕ
  step_plain current rest s =
      let after = record s { line_start = stays_line_start current s.line_start } in
      if (current == b'-') && next_is b'-' rest
      then (record after { mode = line_comment }, 1)
      else if current == b'#'
      then (record after { mode = line_comment }, 0)
      else if (current == b'/') && next_is b'*' rest
      then (record after { mode = block_comment; block_depth = 1 }, 1)
      else if current == b'\''
      then (record after { mode = single }, 0)
      else if current == b'"'
      then (record after { mode = double }, 0)
      else if current == b'`'
      then (record after { mode = backtick }, 0)
      else (after, 0)

  unfoldable pub step_normal : ℕ → ℕ → List ℕ → Scan → Scan × ℕ
  step_normal index current rest s =
      if ltb 0 (length s.delimiter) && starts_with s.delimiter (current ∷ rest)
      then (record (push index s) { line_start = false }, length s.delimiter - 1)
      else step_plain current rest s

  -- A directive moves behind itself, and the text before it is forgotten.
  abbrev pub step_directive : ℕ → ℕ → List ℕ → Scan → Option (List ℕ × ℕ) → Scan × ℕ
  step_directive index current rest s none = step_normal index current rest s
  step_directive index current rest s (some (delimiter, n)) =
      (record s { delimiter = delimiter; start = index + n; line_start = true }, n - 1)

  -- A directive is taken only at the start of a line.
  unfoldable pub step_line : ℕ → ℕ → List ℕ → Scan → Scan × ℕ
  step_line index current rest s =
      if s.line_start
      then step_directive index current rest s (directive_at (current ∷ rest))
      else step_normal index current rest s

  abbrev pub step_mode : Mode → ℕ → ℕ → List ℕ → Scan → Scan × ℕ
  step_mode line_comment index current rest s =
      if current == 10 then (record s { mode = normal; line_start = true }, 0) else (s, 0)
  step_mode block_comment index current rest s = step_comment current rest s
  step_mode normal index current rest s = step_line index current rest s
  step_mode single index current rest s = step_quoted current rest s
  step_mode double index current rest s = step_quoted current rest s
  step_mode backtick index current rest s = step_quoted current rest s

  -- The body of the loop at `index`, with what it adds to `index`.
  unfoldable pub step : ℕ → ℕ → List ℕ → Scan → Scan × ℕ
  step index current rest s = step_mode s.mode index current rest s

  unfoldable pub scan : ℕ → ℕ → List ℕ → Scan → Scan
  scan index skip [] s = s
  scan index (suc skip) (c ∷ rest) s = scan (index + 1) skip rest s
  scan index zero (c ∷ rest) s =
      let (s', skip) = step index c rest s in scan (index + 1) skip rest s'

  unfoldable pub start_scan : Scan
  start_scan = record {
    statements = [];
    start = 0;
    delimiter = b';' ∷ [];
    mode = normal;
    block_depth = 0;
    line_start = true;
  }

  unfoldable pub split_mysql_statements : List QueryStatement
  split_mysql_statements =
      let s = scan 0 0 sql start_scan in push_trimmed sql s.start (length sql) s.statements
