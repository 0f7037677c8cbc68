-- ===== src/Transfer/Import/Exported.antt =====
-- The texts of a table that was exported as CSV with its header are read back row by row.
use myadmin.Common.{
  ℕ, zero, suc, ◌+◌, ◌≡◌, refl, sym, ap, subst, ◌∙◌, ◌≢◌, true, false, none, some, List, [], ◌∷◌,
  ◌++◌, map, append_assoc, arith, ◌==◌, nat_eq, string_eq, text_eq, or_default, ok, length,
  get_elem?, All, length-append, All-imp,
}
use myadmin.Transfer.Batches.{PendingRow}
use myadmin.Transfer.Csv.Reader.{CsvRecord, csv_records}
use myadmin.Transfer.Csv.Writer.{is_delimiter, write_csv}
use myadmin.Transfer.Csv.RoundTrip.{csv_records-write_csv}
use myadmin.Transfer.Import.{
  CsvImportOptions, Mapping, index_of, mapping_indexes, csv_headers, csv_mappings, mapped_values,
  numbered_rows, csv_rows, csv_import_rows,
}

abbrev pub Distinct : List (List ℕ) → Type 0
Distinct [] = Unit
Distinct (x ∷ xs) = All (λ y. (x == y) ≡ false) xs × Distinct xs

-- The numbers from `k` on.
abbrev range : ℕ → ℕ → List ℕ
range k zero = []
range k (suc n) = k ∷ range (suc k) n

same_refl : (x : List ℕ) → (x == x) ≡ true
same_refl x = (text_eq.same_iff x x).1 refl

All-middle :
    (P : List ℕ → Type 0) (before : List (List ℕ)) (x : List ℕ) (after : List (List ℕ))
    → All P (before ++ x ∷ after)
    → P x
All-middle P [] x after h = h.0
All-middle P (y ∷ before) x after h = All-middle P before x after h.1

index_of-append :
    (before : List (List ℕ)) (name : List ℕ) (after : List (List ℕ))
    → Distinct (before ++ name ∷ after)
    → index_of name (before ++ name ∷ after) ≡ some (length before)
unfolding index_of
index_of-append [] name after h = rw same_refl refl
index_of-append (x ∷ before) name after (fresh, h) =
    rw
      (
        All-middle (λ y. (x == y) ≡ false) before name after fresh,
        index_of-append before name after h,
      )
      refl

shift :
    (before : List (List ℕ)) (x : List ℕ) (after : List (List ℕ))
    → before ++ x ∷ after ≡ (before ++ x ∷ []) ++ after
shift before x after = rw append_assoc refl

get_elem?-append :
    (before : List (List ℕ)) (x : List ℕ) (after : List (List ℕ))
    → get_elem? (before ++ x ∷ after) (length before) ≡ some x
get_elem?-append [] x after = refl
get_elem?-append (y ∷ before) x after = get_elem?-append before x after

module _ (headers : List (List ℕ)) where
  -- The columns behind some others have the numbers that follow.
  mapping_indexes_each :
      (before after : List (List ℕ)) (k : ℕ)
      → Distinct headers
      → headers ≡ before ++ after
      → length before ≡ k
      → mapping_indexes headers (csv_mappings [] after) ≡ ok (range k (length after))
  unfolding mapping_indexes csv_mappings
  mapping_indexes_each before [] k h e n = refl
  mapping_indexes_each before (name ∷ after) k h e n =
      let found : index_of name headers ≡ some k =
        rw (e, sym n) (index_of-append before name after (subst Distinct e h)) in
      rw
        (
          found,
          mapping_indexes_each (before ++ name ∷ []) after (suc k) h (e ∙ shift before name after)
              (rw length-append (omega arith)),
        )
        refl

  mapped_values_each :
      (before after : List (List ℕ)) (k : ℕ)
      → headers ≡ before ++ after
      → length before ≡ k
      → mapped_values (range k (length after)) headers ≡ after
  unfolding mapped_values
  mapped_values_each before [] k e n = refl
  mapped_values_each before (x ∷ after) k e n =
      let value : get_elem? headers k ≡ some x = rw (e, sym n) (get_elem?-append before x after) in
      rw
        (
          value,
          mapped_values_each (before ++ x ∷ []) after (suc k) (e ∙ shift before x after)
              (rw length-append (omega arith)),
        )
        refl

numbered_rows_each :
    (n number : ℕ) (records : List CsvRecord)
    → All (λ row. length row ≡ n) (map (λ (x : CsvRecord). x.values) records)
    → map (λ (r : PendingRow). r.values) (numbered_rows (range 0 n) number records)
      ≡ map (λ (x : CsvRecord). x.values) records
unfolding numbered_rows
numbered_rows_each n number [] h = refl
numbered_rows_each n number (x ∷ records) (fits, later) =
    rw (numbered_rows_each n (number + 1) records later) (
      ap (λ row. row ∷ map (λ (x : CsvRecord). x.values) records)
        (ap (λ m. mapped_values (range 0 m) x.values) (sym fits)
          ∙ mapped_values_each x.values [] x.values 0 refl refl))

abbrev skip_first : List (List (List ℕ)) → List (List (List ℕ))
skip_first [] = []
skip_first (x ∷ xs) = xs

length-zero : (xs : List (List ℕ)) → length xs ≡ 0 → xs ≡ []
length-zero [] h = refl
length-zero (x ∷ xs) h = absurd (omega arith)

targets_each :
    (names : List (List ℕ)) → map (λ (m : Mapping). m.target) (csv_mappings [] names) ≡ names
unfolding csv_mappings
targets_each [] = refl
targets_each (name ∷ names) = ap (λ rest. name ∷ rest) (targets_each names)

csv_import_rows-header :
    (to_text : ℕ → List ℕ) (options : CsvImportOptions) (first : CsvRecord)
    (records : List CsvRecord)
    → options.header ≡ none
    → options.mapping ≡ []
    → Distinct first.values
    → csv_import_rows to_text options (first ∷ records)
      ≡ ok (first.values, numbered_rows (range 0 (length first.values)) 2 records)
unfolding csv_import_rows csv_headers csv_rows
csv_import_rows-header to_text options first records header mapping distinct =
    rw
      (
        header,
        mapping,
        mapping_indexes_each first.values [] first.values 0 distinct refl refl,
        targets_each,
      )
      refl

-- The records of an exported table, once they are known to hold its columns and rows.
imported :
    (to_text : ℕ → List ℕ) (options : CsvImportOptions) (columns : List (List ℕ))
    (rows : List (List (List ℕ))) (records : List CsvRecord)
    → options.header ≡ none
    → options.mapping ≡ []
    → Distinct columns
    → All (λ row. length row ≡ length columns) rows
    → map (λ (x : CsvRecord). x.values) records ≡ columns ∷ rows
    → (inserted : List PendingRow) × (csv_import_rows to_text options records
        ≡ ok (columns, inserted))
      × (map (λ (r : PendingRow). r.values) inserted ≡ rows)
imported to_text options columns rows [] header mapping distinct whole e = cc e
imported to_text options columns rows (first ∷ records) header mapping distinct whole e =
    let head : first.values ≡ columns = ap (λ l. or_default (get_elem? l 0) []) e in
    let tail : map (λ (x : CsvRecord). x.values) records ≡ rows = ap (λ l. skip_first l) e in
    (
      numbered_rows (range 0 (length columns)) 2 records,
      subst
          (λ names.
            csv_import_rows to_text options (first ∷ records)
            ≡ ok (names, numbered_rows (range 0 (length names)) 2 records))
          head
          (csv_import_rows-header to_text options first records header mapping
            (subst Distinct (sym head) distinct)),
      numbered_rows_each (length columns) 2 records
            (subst (All (λ row. length row ≡ length columns)) (sym tail) whole)
          ∙ tail,
    )

no_empty_row :
    (columns : List (List ℕ)) (rows : List (List (List ℕ)))
    → columns ≢ []
    → All (λ row. length row ≡ length columns) rows
    → All (λ row. row ≢ []) rows
no_empty_row columns rows some_column =
    All-imp (λ row. length row ≡ length columns) (λ row. row ≢ [])
      (λ row same empty. some_column (length-zero columns (sym same ∙ ap length empty))) rows

-- The texts of the exported rows are those that an import without a mapping reads for the columns of the
-- same names, before they are typed.
pub csv_import_rows-write_csv :
    (delimiter : ℕ) (to_text : ℕ → List ℕ) (options : CsvImportOptions) (columns : List (List ℕ))
    (rows : List (List (List ℕ))) (bytes : ℕ)
    → is_delimiter delimiter ≡ true
    → options.header ≡ none
    → options.mapping ≡ []
    → columns ≢ []
    → Distinct columns
    → All (λ row. length row ≡ length columns) rows
    → (inserted : List PendingRow) × (csv_import_rows to_text options
          (csv_records delimiter ((bytes, write_csv delimiter true columns rows) ∷ []) [])
        ≡ ok (columns, inserted))
      × (map (λ (r : PendingRow). r.values) inserted ≡ rows)
csv_import_rows-write_csv delimiter to_text options columns rows bytes fits header mapping
      some_column distinct whole =
    imported to_text options columns rows
      (csv_records delimiter ((bytes, write_csv delimiter true columns rows) ∷ []) []) header
      mapping distinct whole
      (csv_records-write_csv delimiter fits true columns rows bytes some_column
        (no_empty_row columns rows some_column whole))
