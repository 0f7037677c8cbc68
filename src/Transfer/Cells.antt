-- ===== src/Transfer/Cells.antt =====
-- packages/import/src/index.ts: what a value of a CSV row becomes in a column of a type.
use myadmin.Common.{
  ℕ, String, Bool, true, false, ◌||◌, Option, none, some, List, [], ◌∷◌, if◌then◌else◌, ◌==◌,
  nat_eq, string_eq, text_eq, codes, any,
}

-- What the code takes from JavaScript: `Number` on a text, its tests, and `toLowerCase`.
pub record Numbers (N : Type 0) : Type 0 where
  pub to_number : List ℕ → N
  pub is_integer : N → Bool
  pub is_finite : N → Bool
  pub lower_text : List ℕ → List ℕ
  pub lower_type : String → String

pub data Cell (N : Type 0) : Type 0 where
  null_cell : Cell N
  text_cell : List ℕ → Cell N
  number_cell : N → Cell N
  boolean_cell : Bool → Cell N

abbrev is_one_of : String → List String → Bool
is_one_of type names = any (λ name. type == name) names

unfoldable pub is_integer_type : String → Bool
is_integer_type type =
    is_one_of type
      ("smallint" ∷ "integer" ∷ "int" ∷ "int2" ∷ "int4" ∷ "serial" ∷ "serial2" ∷ "serial4" ∷ [])

unfoldable pub is_decimal_type : String → Bool
is_decimal_type type = is_one_of type (
    "numeric" ∷ "decimal" ∷ "real" ∷ "float" ∷ "float4" ∷ "float8" ∷ "double" ∷ "double precision"
    ∷ [])

unfoldable pub is_boolean_type : String → Bool
is_boolean_type type = is_one_of type ("boolean" ∷ "bool" ∷ "tinyint(1)" ∷ [])

module _ {N : Type 0} (numbers : Numbers N) where
  -- A value that reads as a boolean, in a column of booleans.
  unfoldable pub boolean_value : List ℕ → Option Bool
  boolean_value value =
      if (numbers.lower_text value == codes "true") || (value == codes "1")
      then some true
      else if (numbers.lower_text value == codes "false") || (value == codes "0")
      then some false
      else none

  unfoldable pub known_type_value : List ℕ → String → Cell N
  unfolding is_integer_type is_decimal_type is_boolean_type boolean_value
  known_type_value value type =
      if is_integer_type type
      then if numbers.is_integer (numbers.to_number value)
        then number_cell (numbers.to_number value)
        else text_cell value
      else if is_decimal_type type
      then if numbers.is_finite (numbers.to_number value)
        then number_cell (numbers.to_number value)
        else text_cell value
      else if is_boolean_type type
      then elim (boolean_value value) [ none ↦ text_cell value | some b ↦ boolean_cell b ]
      else text_cell value

  -- `value` is null where the text is the literal for it.
  unfoldable pub typed_csv_value : Option (List ℕ) → Option String → Cell N
  unfolding known_type_value
  typed_csv_value none data_type = null_cell
  typed_csv_value (some value) none = text_cell value
  typed_csv_value (some value) (some data_type) =
      if data_type == ""
      then text_cell value
      else known_type_value value (numbers.lower_type data_type)

  -- `record.values.map((value, index) => …)`: the types from `index` on.
  unfoldable pub row_cells : List ℕ → List (Option String) → List (List ℕ) → List (Cell N)
  row_cells null_literal types [] = []
  row_cells null_literal [] (value ∷ values) =
      typed_csv_value (if value == null_literal then none else some value) none
      ∷ row_cells null_literal [] values
  row_cells null_literal (type ∷ types) (value ∷ values) =
      typed_csv_value (if value == null_literal then none else some value) type
      ∷ row_cells null_literal types values
