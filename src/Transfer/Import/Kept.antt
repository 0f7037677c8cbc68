-- ===== src/Transfer/Import/Kept.antt =====
-- packages/import/src/index.ts: values that keep their text when they are typed for the database.
use myadmin.Common.{
  ℕ, String, ◌≡◌, Bool, true, false, Option, none, some, List, [], ◌∷◌, ◌==◌, nat_eq, string_eq,
  text_eq, codes,
}
use myadmin.Transfer.Cells.{
  Numbers, Cell, null_cell, text_cell, number_cell, boolean_cell, is_integer_type, is_decimal_type,
  is_boolean_type, boolean_value,
}

abbrev pub boolean_text : Bool → List ℕ
boolean_text true = codes "true"
boolean_text false = codes "false"

module _ {N : Type 0} (print : N → List ℕ) where
  -- A cell as text, where `print` is `String` on numbers.
  abbrev pub cell_text : Cell N → Option (List ℕ)
  cell_text null_cell = none
  cell_text (text_cell value) = some value
  cell_text (number_cell n) = some (print n)
  cell_text (boolean_cell b) = some (boolean_text b)

module _ {N : Type 0} (numbers : Numbers N) (print : N → List ℕ) where
  -- A text that its type does not change: in a column of numbers, where it reads as a
  -- number, it is the usual text of it, and in a
  -- column of booleans, where it reads as a boolean, it is the word for it.
  pub record IsCanonical (type : String) (value : List ℕ) : Type 0 where
    pub integer :
        is_integer_type type ≡ true
        → numbers.is_integer (numbers.to_number value) ≡ true
        → print (numbers.to_number value) ≡ value
    pub decimal :
        is_decimal_type type ≡ true
        → numbers.is_finite (numbers.to_number value) ≡ true
        → print (numbers.to_number value) ≡ value
    pub boolean :
        is_boolean_type type ≡ true
        → (b : Bool) → boolean_value numbers value ≡ some b
        → boolean_text b ≡ value

  -- What a type keeps of a text; a column without a known type keeps all texts.
  abbrev pub TypeKeeps : Option String → List ℕ → Type 0
  TypeKeeps none value = Unit {0}
  TypeKeeps (some type) value = IsCanonical (numbers.lower_type type) value

  -- No value is the literal for null, and each is a text that the type of its column keeps.
  abbrev pub RowKeeps : List ℕ → List (Option String) → List (List ℕ) → Type 0
  RowKeeps null_literal types [] = Unit {0}
  RowKeeps null_literal [] (value ∷ values) =
      ((value == null_literal) ≡ false) × RowKeeps null_literal [] values
  RowKeeps null_literal (type ∷ types) (value ∷ values) =
      ((value == null_literal) ≡ false) × TypeKeeps type value × RowKeeps null_literal types values
