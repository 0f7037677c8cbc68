-- ===== src/Transfer/Csv/Reader.antt =====
-- packages/import/src/index.ts: `csvRecords`. What the decoder makes of a chunk of bytes is given,
-- with the number of its bytes.
use myadmin.Common.{
  ℕ, zero, suc, ◌+◌, Bool, true, false, not, ◌&&◌, ◌||◌, List, [], ◌∷◌, ◌++◌, ltb, if◌then◌else◌,
  ◌==◌, nat_eq, string_eq, length,
}

pub record CsvRecord : Type 0 where
  pub values : List (List ℕ)
  pub bytes_processed : ℕ

-- The variables of the generator, and the records that it has yielded.
pub record Reader : Type 0 where
  pub field : List ℕ
  pub row : List (List ℕ)
  pub quoted : Bool
  pub at_field_start : Bool
  pub bytes_processed : ℕ
  pub records : List CsvRecord

unfoldable pub start_reader : Reader
start_reader = record {
  field = [];
  row = [];
  quoted = false;
  at_field_start = true;
  bytes_processed = 0;
  records = [];
}

-- `text[index + 1] === c`
abbrev pub followed_by : ℕ → List ℕ → Bool
followed_by c [] = false
followed_by c (n ∷ rest) = n == c

-- `row.push(field)`
abbrev pub push_field : Reader → Reader
push_field r = record r { row = r.row ++ r.field ∷ []; field = []; at_field_start = true }

abbrev pub yield_row : Reader → Reader
yield_row r = record r {
  records = r.records ++ record { values = r.row; bytes_processed = r.bytes_processed } ∷ [];
  row = [];
}

abbrev pub add_unit : ℕ → Reader → Reader
add_unit c r = record r { field = r.field ++ c ∷ [] }

-- One round of the loop: the unit `c` before `rest`, and what it adds to `index`.
unfoldable pub step_quoted : ℕ → List ℕ → Reader → Reader × ℕ
step_quoted c rest r =
    if c == b'"'
    then if followed_by b'"' rest then (add_unit b'"' r, 1) else (record r { quoted = false }, 0)
    else (add_unit c r, 0)

unfoldable pub step_plain : ℕ → ℕ → Reader → Reader
step_plain delimiter c r =
    if (c == b'"') && r.at_field_start
    then record r { quoted = true; at_field_start = false }
    else if c == delimiter
    then push_field r
    else if c == b'\n'
    then yield_row (push_field r)
    else if not (c == b'\r')
    then record (add_unit c r) { at_field_start = false }
    else r

unfoldable pub step : ℕ → ℕ → List ℕ → Reader → Reader × ℕ
unfolding step_quoted step_plain
step delimiter c rest r = if r.quoted then step_quoted c rest r else (step_plain delimiter c r, 0)

-- The loop over one chunk; `skip` counts the units that a round has passed.
unfoldable pub read_text : ℕ → ℕ → List ℕ → Reader → Reader
read_text delimiter skip [] r = r
read_text delimiter (suc skip) (c ∷ rest) r = read_text delimiter skip rest r
read_text delimiter zero (c ∷ rest) r =
    let (r', skip) = step delimiter c rest r in read_text delimiter skip rest r'

unfoldable pub read_chunks : ℕ → List (ℕ × List ℕ) → Reader → Reader
read_chunks delimiter [] r = r
read_chunks delimiter ((bytes, text) ∷ chunks) r =
    read_chunks delimiter chunks
      (read_text delimiter 0 text (record r { bytes_processed = r.bytes_processed + bytes }))

-- The end of the input: `tail` is what the decoder still held.
unfoldable pub finish : List ℕ → Reader → List CsvRecord
finish tail r =
    let field = r.field ++ tail in
    if ltb 0 (length r.row) || ltb 0 (length field)
    then r.records
      ++ record { values = r.row ++ field ∷ []; bytes_processed = r.bytes_processed } ∷ []
    else r.records

unfoldable pub csv_records : ℕ → List (ℕ × List ℕ) → List ℕ → List CsvRecord
csv_records delimiter chunks tail = finish tail (read_chunks delimiter chunks start_reader)
