-- ===== src/Transfer/Csv/RoundTrip.antt =====
-- What the export writes as CSV, the import reads back.
use myadmin.Common.{
  ℕ, ◌+◌, ◌≡◌, refl, ap, ◌∙◌, ◌≢◌, inl, inr, Bool, true, false, List, [], ◌∷◌, ◌++◌, map,
  append_assoc, append-nil, arith, if◌then◌else◌, ◌==◌, nat_eq, string_eq, Bool-cases, any, All,
}
use myadmin.Transfer.Csv.Writer.{
  is_delimiter, is_special, write_line, write_lines, write_csv, double_quotes, escape_csv,
  join_fields, write_line, write_lines, write_csv,
}
use myadmin.Transfer.Csv.Reader.{
  CsvRecord, read_chunks, finish, csv_records, start_reader, CsvRecord, Reader, start_reader,
  followed_by, yield_row, step_quoted, step_plain, step, read_text, read_chunks, finish,
  csv_records,
}

-- A reader in the middle of a field.
abbrev in_field : List ℕ → Bool → Bool → Reader → Reader
in_field field quoted start r = record r { field = field; quoted = quoted; at_field_start = start }

-- Nothing is at the start of a field once it has a unit.
abbrev start_after : Bool → List ℕ → Bool
start_after start [] = start
start_after start (c ∷ cs) = false

shift : (done value : List ℕ) (c : ℕ) → (done ++ c ∷ []) ++ value ≡ done ++ c ∷ value
shift done value c = rw append_assoc refl

start_false : (value : List ℕ) → start_after false value ≡ false
start_false [] = refl
start_false (c ∷ cs) = refl

row_values_lem :
    (rows : List (List (List ℕ))) (bytes : ℕ)
    → map
        (λ (x : CsvRecord). x.values)
        (map (λ values. record { values = values; bytes_processed = bytes }) rows)
      ≡ rows
row_values_lem [] bytes = refl
row_values_lem (row ∷ rows) bytes = ap (λ rest. row ∷ rest) (row_values_lem rows bytes)

module _ (delimiter : ℕ) where
  plain_unit :
      (done rest : List ℕ) (c : ℕ) (start : Bool) (r : Reader)
      → is_special delimiter c ≡ false
      → step delimiter c rest (in_field done false start r)
        ≡ (in_field (done ++ c ∷ []) false false r, 0)
  unfolding step step_plain is_special
  plain_unit done rest c start r h = ground arith

  read_plain :
      (done value rest : List ℕ) (start : Bool) (r : Reader)
      → any (is_special delimiter) value ≡ false
      → read_text delimiter 0 (value ++ rest) (in_field done false start r)
        ≡ read_text delimiter 0 rest (in_field (done ++ value) false (start_after start value) r)
  unfolding read_text
  read_plain done [] rest start r h = rw append-nil refl
  read_plain done (c ∷ value) rest start r h =
      rw (plain_unit done (value ++ rest) c start r (ground arith), read_text)
        (read_plain (done ++ c ∷ []) value rest false r (ground arith)
          ∙ rw (start_false value, shift done value c) refl)

  doubled_unit :
      (done rest : List ℕ) (r : Reader)
      → read_text delimiter 0 (b'"' ∷ b'"' ∷ rest) (in_field done true false r)
        ≡ read_text delimiter 0 rest (in_field (done ++ b'"' ∷ []) true false r)
  unfolding read_text step step_quoted
  doubled_unit done rest r = refl

  quoted_unit :
      (done rest : List ℕ) (c : ℕ) (r : Reader)
      → (c == b'"') ≡ false
      → step delimiter c rest (in_field done true false r)
        ≡ (in_field (done ++ c ∷ []) true false r, 0)
  unfolding step step_quoted
  quoted_unit done rest c r h = ground arith

  read_quoted :
      (done value rest : List ℕ) (r : Reader)
      → read_text delimiter 0 (double_quotes value ++ rest) (in_field done true false r)
        ≡ read_text delimiter 0 rest (in_field (done ++ value) true false r)
  unfolding read_text double_quotes
  read_quoted done [] rest r = rw append-nil refl
  read_quoted done (c ∷ value) rest r = elim (Bool-cases (c == b'"')) [
    | inl quote ↦
        let same : c ≡ b'"' = (nat_eq.same_iff c b'"').0 quote in
        rw same (
          doubled_unit done (double_quotes value ++ rest) r
          ∙ read_quoted (done ++ b'"' ∷ []) value rest r
          ∙ rw (shift done value b'"') refl)
    | inr other ↦
        rw (other, quoted_unit done (double_quotes value ++ rest) c r other, read_text)
          (read_quoted (done ++ c ∷ []) value rest r
            ∙ ap (λ f. read_text delimiter 0 rest (in_field f true false r)) (shift done value c))
  ]

  opening :
      (rest : List ℕ) (r : Reader)
      → read_text delimiter 0 (b'"' ∷ rest) (in_field [] false true r)
        ≡ read_text delimiter 0 rest (in_field [] true false r)
  unfolding read_text step step_plain
  opening rest r = refl

  closing :
      (done rest : List ℕ) (r : Reader)
      → followed_by b'"' rest ≡ false
      → read_text delimiter 0 (b'"' ∷ rest) (in_field done true false r)
        ≡ read_text delimiter 0 rest (in_field done false false r)
  unfolding read_text step step_quoted
  closing done rest r free = rw free refl

  special_start :
      (value : List ℕ) → any (is_special delimiter) value ≡ true → start_after true value ≡ false
  special_start [] h = cc
  special_start (c ∷ cs) h = refl

  -- A whole field, before whatever does not begin with a quotation mark.
  read_field :
      (value rest : List ℕ) (r : Reader)
      → followed_by b'"' rest ≡ false
      → read_text delimiter 0 (escape_csv delimiter value ++ rest) (in_field [] false true r)
        ≡ read_text delimiter 0 rest (in_field value false (start_after true value) r)
  unfolding escape_csv
  read_field value rest r free = elim (Bool-cases (any (is_special delimiter) value)) [
    | inl special ↦
        rw (special, special_start value special, append_assoc)
          (opening (double_quotes value ++ b'"' ∷ rest) r
            ∙ read_quoted [] value (b'"' ∷ rest) r
            ∙ closing value rest r free)
    | inr plain ↦ rw plain (read_plain [] value rest true r plain)
  ]

  -- A reader at the start of a field, behind some fields of its row.
  abbrev in_row : List (List ℕ) → Reader → Reader
  in_row row r = in_field [] false true (record r { row = row })

  module _ (fits : is_delimiter delimiter ≡ true) where
    delimiter_step :
        (value : List ℕ) (row : List (List ℕ)) (start : Bool) (r : Reader)
        → step_plain delimiter delimiter (in_field value false start (record r { row = row }))
          ≡ in_row (row ++ value ∷ []) r
    unfolding step_plain is_delimiter
    delimiter_step value row start r = ground arith

    newline_step :
        (value : List ℕ) (row : List (List ℕ)) (start : Bool) (r : Reader)
        → step_plain delimiter b'\n' (in_field value false start (record r { row = row }))
          ≡ in_row [] (yield_row (record r { row = row ++ value ∷ [] }))
    unfolding step_plain is_delimiter
    newline_step value row start r = ground arith

    delimiter_unit :
        (value rest : List ℕ) (row : List (List ℕ)) (start : Bool) (r : Reader)
        → read_text delimiter 0
            (delimiter ∷ rest)
            (in_field value false start (record r { row = row }))
          ≡ read_text delimiter 0 rest (in_row (row ++ value ∷ []) r)
    unfolding read_text step
    delimiter_unit value rest row start r =
        ap (read_text delimiter 0 rest) (delimiter_step value row start r)

    newline_unit :
        (value rest : List ℕ) (row : List (List ℕ)) (start : Bool) (r : Reader)
        → read_text delimiter 0 (b'\n' ∷ rest) (in_field value false start (record r { row = row }))
          ≡ read_text delimiter 0 rest
              (in_row [] (yield_row (record r { row = row ++ value ∷ [] })))
    unfolding read_text step
    newline_unit value rest row start r =
        ap (read_text delimiter 0 rest) (newline_step value row start r)

    free_delimiter : (rest : List ℕ) → followed_by b'"' (delimiter ∷ rest) ≡ false
    unfolding is_delimiter
    free_delimiter rest = ground arith

    read_fields :
        (values : List (List ℕ)) (rest : List ℕ) (row : List (List ℕ)) (r : Reader)
        → values ≢ []
        → read_text delimiter 0 (join_fields delimiter values ++ b'\n' ∷ rest) (in_row row r)
          ≡ read_text delimiter 0 rest (in_row [] (yield_row (record r { row = row ++ values })))
    unfolding join_fields
    read_fields [] rest row r some_value = absurd (some_value refl)
    read_fields (value ∷ []) rest row r some_value =
        read_field value (b'\n' ∷ rest) (record r { row = row }) refl
        ∙ newline_unit value rest row (start_after true value) r
    read_fields (value ∷ (next ∷ values)) rest row r some_value = rw append_assoc (
        read_field value (delimiter ∷ (join_fields delimiter (next ∷ values) ++ b'\n' ∷ rest))
          (record r { row = row })
          (free_delimiter (join_fields delimiter (next ∷ values) ++ b'\n' ∷ rest))
        ∙ delimiter_unit value (join_fields delimiter (next ∷ values) ++ b'\n' ∷ rest) row
            (start_after true value) r
        ∙ read_fields (next ∷ values) rest (row ++ value ∷ []) r (λ e. cc)
        ∙ rw append_assoc refl)

    read_line :
        (values : List (List ℕ)) (rest : List ℕ) (r : Reader)
        → values ≢ []
        → read_text delimiter 0 (write_line delimiter values ++ rest) (in_row [] r)
          ≡ read_text delimiter 0 rest (in_row [] (yield_row (record r { row = values })))
    unfolding write_line
    read_line values rest r some_value = rw append_assoc (read_fields values rest [] r some_value)

    read_lines :
        (rows : List (List (List ℕ))) (r : Reader)
        → All (λ values. values ≢ []) rows
        → read_text delimiter 0 (write_lines delimiter rows) (in_row [] r)
          ≡ in_row [] (record r {
            records =
                r.records
                ++ map
                    (λ values. record { values = values; bytes_processed = r.bytes_processed })
                    rows;
          })
    unfolding write_lines
    read_lines [] r h = unfold read_text in rw append-nil refl
    read_lines (values ∷ rows) r (some_value, later) =
        read_line values (write_lines delimiter rows) r some_value
        ∙ read_lines rows (record (yield_row (record r { row = values })) { row = [] }) later
        ∙ rw append_assoc refl

    read_written :
        (rows : List (List (List ℕ))) (bytes : ℕ)
        → All (λ values. values ≢ []) rows
        → map
            (λ (x : CsvRecord). x.values)
            (csv_records delimiter ((bytes, write_lines delimiter rows) ∷ []) [])
          ≡ rows
    unfolding csv_records read_chunks start_reader finish
    read_written rows bytes h =
        ap (λ r. map (λ (x : CsvRecord). x.values) (finish [] r))
          (read_lines rows (record start_reader { bytes_processed = 0 + bytes }) h)
        ∙ row_values_lem rows (0 + bytes)

    -- What is written as CSV with a delimiter that the import knows, and arrives in one chunk, is read
    -- back: the records are the rows, behind the column names where the header was asked for, value by
    -- value, whatever the values hold; every row has a value, and there is a column.
    pub csv_records-write_csv :
        (header : Bool) (columns : List (List ℕ)) (rows : List (List (List ℕ))) (bytes : ℕ)
        → columns ≢ []
        → All (λ values. values ≢ []) rows
        → map
            (λ (x : CsvRecord). x.values)
            (csv_records delimiter ((bytes, write_csv delimiter header columns rows) ∷ []) [])
          ≡ (if header then columns ∷ rows else rows)
    unfolding write_csv
    csv_records-write_csv true columns rows bytes some_column some_values =
        unfold write_lines in read_written (columns ∷ rows) bytes (some_column, some_values)
    csv_records-write_csv false columns rows bytes some_column some_values =
        read_written rows bytes some_values
