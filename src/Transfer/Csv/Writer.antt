-- ===== src/Transfer/Csv/Writer.antt =====
-- packages/export/src/index.ts: the CSV branch of `writeRows`.
use myadmin.Common.{ℕ, Bool, ◌||◌, List, [], ◌∷◌, ◌++◌, if◌then◌else◌, ◌==◌, nat_eq, string_eq, any}

-- `value.includes(delimiter) || /["\r\n]/.test(value)`
unfoldable pub is_special : ℕ → ℕ → Bool
is_special delimiter c = (c == delimiter) || ((c == b'"') || ((c == b'\r') || (c == b'\n')))

-- `replaceAll('"', '""')`
unfoldable pub double_quotes : List ℕ → List ℕ
double_quotes [] = []
double_quotes (c ∷ cs) =
    let rest = double_quotes cs in if c == b'"' then b'"' ∷ b'"' ∷ rest else c ∷ rest

unfoldable pub escape_csv : ℕ → List ℕ → List ℕ
escape_csv delimiter value =
    if any (is_special delimiter) value then b'"' ∷ (double_quotes value ++ b'"' ∷ []) else value

-- `map(escapeCsv).join(delimiter)`
unfoldable pub join_fields : ℕ → List (List ℕ) → List ℕ
join_fields delimiter [] = []
join_fields delimiter (value ∷ []) = escape_csv delimiter value
join_fields delimiter (value ∷ (next ∷ values)) =
    escape_csv delimiter value ++ delimiter ∷ join_fields delimiter (next ∷ values)

unfoldable pub write_line : ℕ → List (List ℕ) → List ℕ
write_line delimiter values = join_fields delimiter values ++ b'\n' ∷ []

unfoldable pub write_lines : ℕ → List (List (List ℕ)) → List ℕ
write_lines delimiter [] = []
write_lines delimiter (values ∷ rows) = write_line delimiter values ++ write_lines delimiter rows

-- `writeRows` for CSV, on rows whose cells are texts already: the line of columns, if it is asked
-- for, then the rows.
unfoldable pub write_csv : ℕ → Bool → List (List ℕ) → List (List (List ℕ)) → List ℕ
write_csv delimiter header columns rows =
    if header
    then write_line delimiter columns ++ write_lines delimiter rows
    else write_lines delimiter rows

-- The delimiters that an export and an import may ask for.
unfoldable pub is_delimiter : ℕ → Bool
is_delimiter c = (c == b',') || ((c == b';') || (c == b'\t'))
