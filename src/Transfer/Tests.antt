-- ===== src/Transfer/Tests.antt =====
-- The theorems on import and export at concrete tables, files and databases.
use myadmin.Common.{
  ℕ, String, ◌≡◌, refl, sym, ap, ◌∙◌, inl, inr, Bool, true, false, none, some, List, [], ◌∷◌, ◌++◌,
  map, append_assoc, append-nil, ltb, if◌then◌else◌, ◌==◌, nat_eq, string_eq, text_eq, Bool-cases,
  Result, ok, err, codes, length, any, some-injective,
}
use myadmin.Transfer.Csv.Writer.{
  is_delimiter, is_special, double_quotes, escape_csv, join_fields, write_line, write_lines,
  write_csv,
}
use myadmin.Transfer.Csv.Reader.{
  CsvRecord, start_reader, step_quoted, step_plain, step, read_text, read_chunks, finish,
  csv_records,
}
use myadmin.Transfer.Csv.RoundTrip.{csv_records-write_csv}
use myadmin.Transfer.Csv.Chunks.{row_values, csv_records-chunks}
use myadmin.Transfer.Cells.{
  Numbers, boolean_cell, typed_csv_value, known_type_value, is_integer_type, is_decimal_type,
  is_boolean_type, boolean_value,
}
use myadmin.Transfer.Batches.{
  Port, PendingRow, insert_all, insert_rows, insert_row, start_batches, add_rows, add_row, flush,
  flush_batch, insert_pending, row_succeeded, row_failed, report, check_signal,
}
use myadmin.Transfer.Batches.Counts.{Accounted, CountsRows, insert_all-Accounted}
use myadmin.Transfer.Batches.Stripping.{strip_end}
use myadmin.Transfer.Batches.Refinement.{singles, IsAtomic, insert_all-insert_rows}
use myadmin.Transfer.Import.{
  take, CsvImportOptions, preview_csv, preview_rows, csv_rows, numbered_rows, mapped_values,
}
use myadmin.Transfer.Import.Preview.{preview_csv_lem}
use myadmin.Transfer.Import.Typing.{DescribedColumn}

abbrev columns : List (List ℕ)
columns = codes "id" ∷ codes "note" ∷ []

abbrev rows : List (List (List ℕ))
rows = (codes "1" ∷ codes "a \"b\", c" ∷ []) ∷ (codes "2" ∷ codes "" ∷ []) ∷ []

-- A row of empty text is a line with a delimiter, and quoted text keeps its quotation marks.
written : write_csv b';' true columns rows ≡ codes "id;note\n1;\"a \"\"b\"\", c\"\n2;\n"
unfolding write_csv write_lines write_line join_fields escape_csv double_quotes is_special
written = refl

csv_records-write_csv_example :
    map
      (λ (x : CsvRecord). x.values)
      (csv_records b';' ((24, write_csv b';' true columns rows) ∷ []) [])
    ≡ columns ∷ rows
csv_records-write_csv_example =
    csv_records-write_csv b';' (unfold is_delimiter in refl) true columns rows 24 (λ e. cc e)
      ((λ e. cc e), ((λ e. cc e), tt))

csv_records-chunks_example :
    row_values (csv_records b',' ((3, codes "a,\"b") ∷ (4, codes "\"\"c\"\n") ∷ []) [])
    ≡ row_values (csv_records b',' ((7, codes "a,\"b\"\"c\"\n") ∷ []) [])
csv_records-chunks_example =
    csv_records-chunks b',' ((3, codes "a,\"b") ∷ []) 4 7 (codes "\"\"c\"\n") [] (refl, tt)

-- Where a chunk ends between the two quotation marks of a quoted one, the value is not the same.
split_quote :
    row_values (csv_records b',' ((3, codes "\"b\"") ∷ (4, codes "\"c\"\n") ∷ []) [])
    ≡ (codes "b\"c\"" ∷ []) ∷ []
unfolding csv_records read_chunks read_text start_reader step step_quoted step_plain finish
split_quote = refl

whole_quote :
    row_values (csv_records b',' ((7, codes "\"b\"\"c\"\n") ∷ []) []) ≡ (codes "b\"c" ∷ []) ∷ []
unfolding csv_records read_chunks read_text start_reader step step_quoted step_plain finish
whole_quote = refl

-- A table that refuses the value "x", and is left as it was by a statement that fails.
abbrev is_bad : List (List ℕ) → Bool
is_bad row = any (λ value. value == codes "x") row

-- What `strict` answers once it is known whether a row is bad.
abbrev accepted :
    Bool → List (List (List ℕ)) → List (List (List ℕ)) → Result String ℕ × List (List (List ℕ))
accepted bad new table = if bad then (err "x", table) else (ok (length new), table ++ new)

abbrev strict_insert :
    List (List (List ℕ)) → List (List (List ℕ)) → Result String ℕ × List (List (List ℕ))
strict_insert new table =
    if any is_bad new then (err "x", table) else (ok (length new), table ++ new)

abbrev strict : Port (List (List (List ℕ))) String (List ℕ)
strict = record { insert_batch = strict_insert; aborted = λ table. false }

strict-singles :
    (new table : List (List (List ℕ)))
    → singles strict new table ≡ (if any is_bad new then none else some (table ++ new))
strict-singles [] table = rw append-nil refl
strict-singles (row ∷ new) table = elim (Bool-cases (is_bad row)) [
  | inl bad ↦ rw bad refl
  | inr good ↦ rw (good, strict-singles new (table ++ row ∷ [])) (rw append_assoc refl)
]

strict-IsAtomic : IsAtomic strict
strict-IsAtomic new table = elim (Bool-cases (any is_bad new)) [
  | inl bad ↦
      let none_left : singles strict new table ≡ none = rw (strict-singles new table, bad) refl in
      (λ w h. cc (h, none_left), λ h. ("x", rw bad refl))
  | inr good ↦
      let all_in : singles strict new table ≡ some (table ++ new) =
        rw (strict-singles new table, good) refl in
      (λ w h. rw (good, some-injective (table ++ new) w (sym all_in ∙ h)) refl, λ h. cc (h, all_in))
]

strict-CountsRows : CountsRows strict
strict-CountsRows new table table' affected h = elim (Bool-cases (any is_bad new)) [
  | inl bad ↦ cc (h, ap (λ b. accepted b new table) bad)
  | inr good ↦ cc (h, ap (λ b. accepted b new table) good)
]

abbrev pending : List PendingRow
pending =
    record { values = codes "a" ∷ []; bytes_processed = 2; row_number = 2 }
    ∷ record { values = codes "x" ∷ []; bytes_processed = 4; row_number = 3 }
    ∷ record { values = codes "b" ∷ []; bytes_processed = 6; row_number = 4 }
    ∷ []

insert_all-Accounted_example : Accounted 3 (insert_all strict (λ values. values) 6 2 pending [])
insert_all-Accounted_example =
    insert_all-Accounted strict (λ values. values) strict-CountsRows 6 2 pending []

insert_all-insert_rows_example :
    strip_end (insert_all strict (λ values. values) 6 2 pending [])
    ≡ insert_rows strict (λ values. values) pending (start_batches [])
insert_all-insert_rows_example =
    insert_all-insert_rows strict (λ values. values) (λ table. refl) strict-IsAtomic 6 2 pending []

-- Of the batch that has a bad value, the other row is inserted.
all_inserted :
    (insert_all strict (λ values. values) 6 2 pending []).0.world
    ≡ (codes "a" ∷ []) ∷ (codes "b" ∷ []) ∷ []
unfolding insert_all insert_rows insert_row start_batches add_rows add_row flush flush_batch
    insert_pending row_succeeded row_failed report check_signal
all_inserted = refl

abbrev usual : CsvImportOptions
usual = record {
  delimiter = none;
  header = none;
  null_literal = none;
  batch_size = none;
  mapping = [];
}

abbrev two_records : List CsvRecord
two_records =
    record { values = codes "id" ∷ []; bytes_processed = 3 }
    ∷ record { values = codes "7" ∷ []; bytes_processed = 5 }
    ∷ []

preview_csv_lem_example :
    ((preview_csv (λ n. codes "c") none two_records).rows
      ≡ take 20 (preview_rows true (row_values two_records)))
    × ((preview_csv (λ n. codes "c") none two_records).truncated
        ≡ ltb 20 (length (preview_rows true (row_values two_records))))
preview_csv_lem_example = preview_csv_lem (λ n. codes "c") none two_records

-- Without a header, the first two rows both have the number 1.
same_number :
    map
      (λ (r : PendingRow). r.row_number)
      (csv_rows false
        (0 ∷ [])
        (record { values = codes "id" ∷ []; bytes_processed = 3 })
        (record { values = codes "7" ∷ []; bytes_processed = 5 } ∷ []))
    ≡ 1 ∷ 1 ∷ []
unfolding csv_rows numbered_rows mapped_values
same_number = refl

-- A value is typed by the column that it goes to.
abbrev plain_numbers : Numbers ℕ
plain_numbers = record {
  to_number = λ value. length value;
  is_integer = λ n. n == 2;
  is_finite = λ n. true;
  lower_text = λ value. value;
  lower_type = λ type. type;
}

-- A column of numbers, and one of text.
abbrev described_columns : List DescribedColumn
described_columns =
    record { name = codes "id"; data_type = "integer" }
    ∷ record { name = codes "note"; data_type = "text" }
    ∷ []

-- A stand-in for numbers: a text is its own number.
abbrev text_numbers : Numbers (List ℕ)
text_numbers = record {
  to_number = λ value. value;
  is_integer = λ n. true;
  is_finite = λ n. true;
  lower_text = λ value. value;
  lower_type = λ type. type;
}

typed_boolean : typed_csv_value plain_numbers (some (codes "1")) (some "bool") ≡ boolean_cell true
unfolding typed_csv_value known_type_value is_integer_type is_decimal_type is_boolean_type
    boolean_value
typed_boolean = refl
