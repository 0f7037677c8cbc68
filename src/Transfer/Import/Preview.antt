-- ===== src/Transfer/Import/Preview.antt =====
-- What the preview of a CSV upload shows.
use myadmin.Common.{
  ℕ, zero, suc, ◌≤◌, ◌<◌, min, ◌≡◌, refl, ap, Bool, true, false, Option, List, [], ◌∷◌, map, arith,
  ltb, nat_eq, string_eq, text_eq, or_default, length,
}
use myadmin.Transfer.Csv.Reader.{CsvRecord}
use myadmin.Transfer.Import.{preview_csv, preview_rows, import_preview_rows, take}

take-take : {A : Type 0} (n m : ℕ) (xs : List A) → n ≤ m → take n (take m xs) ≡ take n xs
take-take zero m xs h = refl
take-take (suc n) zero xs h = absurd (omega arith)
take-take (suc n) (suc m) [] h = refl
take-take (suc n) (suc m) (x ∷ xs) h = ap (λ rest. x ∷ rest) (take-take n m xs (omega arith))

length-take : {A : Type 0} (n : ℕ) (xs : List A) → length (take n xs) ≡ min n (length xs)
length-take zero xs = omega arith
length-take (suc n) [] = omega arith
length-take (suc n) (x ∷ xs) = omega (arith, length-take n xs)

-- Enough rows show whether there are more than 20.
more-take :
    {A : Type 0} (n : ℕ) (xs : List A)
    → import_preview_rows < n
    → ltb import_preview_rows (length (take n xs)) ≡ ltb import_preview_rows (length xs)
more-take n xs h = ground (arith, length-take n xs)

preview_rows-take :
    (header : Bool) (rows : List (List (List ℕ)))
    → (take import_preview_rows (preview_rows header (take 22 rows))
        ≡ take import_preview_rows (preview_rows header rows))
      × (ltb import_preview_rows (length (preview_rows header (take 22 rows)))
          ≡ ltb import_preview_rows (length (preview_rows header rows)))
unfolding preview_rows
preview_rows-take true [] = (refl, refl)
preview_rows-take true (row ∷ rows) =
    (take-take 20 21 rows (omega arith), more-take 21 rows (omega arith))
preview_rows-take false rows = (take-take 20 22 rows (omega arith), more-take 22 rows (omega arith))

-- The preview of a CSV upload shows the first 20 of all its rows behind the header, and says that there
-- are more exactly if there are, though it stops reading at 22 records.
pub preview_csv_lem :
    (to_text : ℕ → List ℕ) (header : Option Bool) (records : List CsvRecord)
    → ((preview_csv to_text header records).rows
        ≡ take 20 (preview_rows (or_default header true) (map (λ x. x.values) records)))
      × ((preview_csv to_text header records).truncated
          ≡ ltb 20 (length (preview_rows (or_default header true) (map (λ x. x.values) records))))
unfolding preview_csv
preview_csv_lem to_text header records =
    preview_rows-take (or_default header true) (map (λ x. x.values) records)
