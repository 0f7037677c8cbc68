-- ===== src/Transfer/Import.antt =====
-- packages/import/src/index.ts: what an import of CSV checks, the preview, and the rows that
-- `executeCsv` makes of the records.
pub mod Preview
pub mod Exported
pub mod Typing
pub mod Kept
use myadmin.Common.{
  ℕ, zero, suc, ◌+◌, ◌-◌, ◌*◌, ◌/◌, ◌%◌, ◌^◌, ◌≤◌, ◌<◌, min, max, String, ◌≡◌, refl, sym, ap, subst,
  ◌∙◌, ◌≢◌, ◌↔◌, ◌⊎◌, inl, inr, Bool, true, false, not, ◌&&◌, ◌||◌, Option, none, some, List, [],
  ◌∷◌, ◌++◌, map, append_assoc, append-nil, arith, eq_iff, ltb, leb, if◌then◌else◌, ltb→lt, lt→ltb,
  leb→le, le→leb, Eq, ◌==◌, nat_eq, string_eq, text_eq, Bool-cases, Option-cases, is_some,
  or_default, Result, ok, err, ◌>>=◌, ◌>>◌, guard, Number, nat, neg, not_whole, max_safe_integer,
  codes, is_space, all_space, is_blank, units, utf16_length, length, get_elem?, set, any, all,
  filter, find?, bit, count_if, All, length-append, length-map, get_elem?-set_self,
  get_elem?-set_ne, count_if-set, set-set, set_self, count_if-append, All-append, All-get, All-set,
  All-imp, if_both, all_iff, find?-map, find?-sound, find?-map-none, All-filter, find?-append_none,
  any-eq-false, bit_le, pow-suc, mul_comm, mul_assoc, some-injective, Result-cases, map_option,
}
use myadmin.Transfer.Batches.{PendingRow}
use myadmin.Transfer.Csv.Reader.{CsvRecord}
use myadmin.Transfer.Csv.Writer.{is_delimiter}

pub record Mapping : Type 0 where
  pub source : List ℕ
  pub target : List ℕ

-- An option that is not given is `none`.
pub record CsvImportOptions : Type 0 where
  pub delimiter : Option ℕ
  pub header : Option Bool
  pub null_literal : Option (List ℕ)
  pub batch_size : Option Number
  pub mapping : List Mapping

pub record TableTarget : Type 0 where
  pub type : String
  pub name : String
  pub database : String

pub record ImportCsvInput : Type 0 where
  pub connection_id : String
  pub table : Option TableTarget
  pub options : CsvImportOptions
  pub truncate_first : Bool
  pub confirm_name : Option String

pub data ImportError : Type 0 where
  connection_required table_required batch_size_invalid delimiter_invalid : ImportError
  confirmation_required : ImportError

abbrev pub default_csv_batch_size : Number
default_csv_batch_size = nat 500

abbrev pub max_csv_batch_size : ℕ
max_csv_batch_size = 1000

abbrev pub import_preview_rows : ℕ
import_preview_rows = 20

-- `Number.isSafeInteger(batchSize) && batchSize >= 1 && batchSize <= MAX_CSV_BATCH_SIZE`
unfoldable pub is_batch_size : Number → Bool
is_batch_size (nat n) = leb n max_safe_integer && leb 1 n && leb n max_csv_batch_size
is_batch_size (neg n) = false
is_batch_size not_whole = false

unfoldable pub is_table_target : TableTarget → Bool
is_table_target t = (t.type == "table") && not (t.name == "") && not (t.database == "")

unfoldable pub table_of : ImportCsvInput → Result ImportError TableTarget
unfolding is_table_target
table_of input = elim input.table [
  | none ↦ err table_required
  | some t ↦ if is_table_target t then ok t else err table_required
]

-- `options.delimiter` is a single unit here; the code compares the text with each of the three.
unfoldable pub delimiter_given : CsvImportOptions → Bool
unfolding is_delimiter
delimiter_given options = elim options.delimiter [ none ↦ true | some c ↦ is_delimiter c ]

unfoldable pub is_confirmed : ImportCsvInput → TableTarget → Bool
is_confirmed input t =
    if input.truncate_first
    then elim input.confirm_name [ none ↦ false | some name ↦ name == t.name ]
    else true

unfoldable pub normalize_csv : ImportCsvInput → Result ImportError ImportCsvInput
unfolding table_of delimiter_given is_confirmed is_batch_size
normalize_csv input =
    let batch_size = or_default input.options.batch_size default_csv_batch_size in
    guard (not (is_blank input.connection_id)) connection_required
    >> (table_of input >>= λ t.
        guard (is_batch_size batch_size) batch_size_invalid
        >> guard (delimiter_given input.options) delimiter_invalid
        >> guard (is_confirmed input t) confirmation_required
        >> ok (record input { options = record input.options { batch_size = some batch_size } }))

abbrev pub csv_delimiter : CsvImportOptions → ℕ
csv_delimiter options = or_default options.delimiter b','

pub record ImportPreview : Type 0 where
  pub columns : List (List ℕ)
  pub rows : List (List (List ℕ))
  pub truncated : Bool

abbrev pub take {ℓ} : {A : Type ℓ} → ℕ → List A → List A
take zero xs = []
take (suc n) [] = []
take (suc n) (x ∷ xs) = x ∷ take n xs

-- The names "0", "1", … of columns without a header: `String(index)` from `index` on.
unfoldable pub index_names : (ℕ → List ℕ) → ℕ → List (List ℕ) → List (List ℕ)
index_names to_text index [] = []
index_names to_text index (value ∷ values) = to_text index ∷ index_names to_text (suc index) values

-- What is left of the rows read once the columns are known: `rows.shift() ?? []`, or `rows[0]`.
unfoldable pub preview_columns : (ℕ → List ℕ) → Bool → List (List (List ℕ)) → List (List ℕ)
unfolding index_names
preview_columns to_text header [] = []
preview_columns to_text true (row ∷ rows) = row
preview_columns to_text false (row ∷ rows) = index_names to_text 0 row

unfoldable pub preview_rows : Bool → List (List (List ℕ)) → List (List (List ℕ))
preview_rows true [] = []
preview_rows true (row ∷ rows) = rows
preview_rows false rows = rows

-- The branch of `preview` for CSV, on the records that the reader yields: it stops reading at 22.
unfoldable pub preview_csv : (ℕ → List ℕ) → Option Bool → List CsvRecord → ImportPreview
unfolding preview_columns preview_rows
preview_csv to_text header_option records =
    let read = take (import_preview_rows + 2) (map (λ x. x.values) records) in
    let header = or_default header_option true in
    let rows = preview_rows header read in
    record {
      columns = preview_columns to_text header read;
      rows = take import_preview_rows rows;
      truncated = ltb import_preview_rows (length rows);
    }

-- `headers.indexOf(mapping.source)`
unfoldable pub index_of : List ℕ → List (List ℕ) → Option ℕ
index_of name [] = none
index_of name (x ∷ xs) =
    let rest = index_of name xs in if x == name then some 0 else map_option (λ i. suc i) rest

-- The index of a mapping's column, or "CSV column … was not found." with its name.
abbrev pub add_index : List ℕ → Option ℕ → Result (List ℕ) (List ℕ) → Result (List ℕ) (List ℕ)
add_index name none rest = err name
add_index name (some index) rest = rest >>= λ indexes. ok (index ∷ indexes)

unfoldable pub mapping_indexes : List (List ℕ) → List Mapping → Result (List ℕ) (List ℕ)
mapping_indexes headers [] = ok []
mapping_indexes headers (m ∷ mappings) =
    add_index m.source (index_of m.source headers) (mapping_indexes headers mappings)

unfoldable pub csv_headers : (ℕ → List ℕ) → Bool → CsvRecord → List (List ℕ)
unfolding index_names
csv_headers to_text header first =
    if header then first.values else index_names to_text 0 first.values

unfoldable pub csv_mappings : List Mapping → List (List ℕ) → List Mapping
csv_mappings [] headers = map (λ name. record { source = name; target = name }) headers
csv_mappings (m ∷ given) headers = m ∷ given

-- `indexes.map((index) => record.values[index] ?? '')`
unfoldable pub mapped_values : List ℕ → List (List ℕ) → List (List ℕ)
mapped_values indexes values = map (λ index. or_default (get_elem? values index) []) indexes

-- The rows that the loop pushes, numbered from `row_number` on.
unfoldable pub numbered_rows : List ℕ → ℕ → List CsvRecord → List PendingRow
unfolding mapped_values
numbered_rows indexes row_number [] = []
numbered_rows indexes row_number (x ∷ records) =
    record {
      values = mapped_values indexes x.values;
      bytes_processed = x.bytes_processed;
      row_number = row_number;
    }
    ∷ numbered_rows indexes (row_number + 1) records

-- All rows that are pushed: the first record is a row where there is no header, with the number 1.
unfoldable pub csv_rows : Bool → List ℕ → CsvRecord → List CsvRecord → List PendingRow
unfolding numbered_rows mapped_values
csv_rows header indexes first records =
    if header
    then numbered_rows indexes 2 records
    else record {
      values = mapped_values indexes first.values;
      bytes_processed = first.bytes_processed;
      row_number = 1;
    }
      ∷ numbered_rows indexes 1 records

pub data CsvError : Type 0 where
  no_rows : CsvError
  column_not_found : List ℕ → CsvError

-- From the records to the columns and the texts of the rows, which are typed when a batch is inserted.
unfoldable pub csv_import_rows :
    (ℕ → List ℕ)
    → CsvImportOptions
    → List CsvRecord
    → Result CsvError (List (List ℕ) × List PendingRow)
unfolding csv_headers csv_mappings mapping_indexes csv_rows
csv_import_rows to_text options [] = err no_rows
csv_import_rows to_text options (first ∷ records) =
    let header = or_default options.header true in
    let headers = csv_headers to_text header first in
    let mappings = csv_mappings options.mapping headers in
    elim (mapping_indexes headers mappings) [
      | err name ↦ err (column_not_found name)
      | ok indexes ↦ ok (map (λ m. m.target) mappings, csv_rows header indexes first records)
    ]
