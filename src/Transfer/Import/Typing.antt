-- ===== src/Transfer/Import/Typing.antt =====
-- packages/import/src/index.ts: the types of the columns that `executeCsv` inserts into, and the values of a batch.
use myadmin.Common.{
  ℕ, String, Option, none, some, List, map, ◌==◌, nat_eq, string_eq, text_eq, or_default, codes,
  find?, map_option,
}
use myadmin.Transfer.Batches.{PendingRow}
use myadmin.Transfer.Cells.{Numbers, Cell, row_cells}
use myadmin.Transfer.Import.{CsvImportOptions}

-- A column as `describeTable` tells it.
pub record DescribedColumn : Type 0 where
  pub name : List ℕ
  pub data_type : String

-- `description?.columns.find((item) => item.name === column)?.dataType` for each column.
unfoldable pub target_types : Option (List DescribedColumn) → List (List ℕ) → List (Option String)
target_types none columns = map (λ column. none) columns
target_types (some described) columns =
    map
      (λ column.
        map_option (λ (item : DescribedColumn). item.data_type)
          (find? (λ (item : DescribedColumn). item.name == column) described))
      columns

abbrev pub null_literal_of : CsvImportOptions → List ℕ
null_literal_of options = or_default options.null_literal (codes "NULL")

module _ {N : Type 0} (numbers : Numbers N) where
  -- The `rows` of the call of `insertBatch`.
  unfoldable pub batch_cells :
      CsvImportOptions → List (Option String) → List PendingRow → List (List (Cell N))
  batch_cells options types batch =
      map (λ (r : PendingRow). row_cells numbers (null_literal_of options) types r.values) batch
