-- ===== src/Transfer/Csv/Chunks.antt =====
-- The records of a CSV upload do not depend on the chunks in which it is read.
use myadmin.Common.{
  ℕ, zero, suc, ◌+◌, ◌≤◌, ◌≡◌, refl, sym, ap, ◌∙◌, inl, inr, Bool, true, false, not, ◌&&◌, ◌||◌,
  List, [], ◌∷◌, ◌++◌, map, append_assoc, arith, ltb, if◌then◌else◌, ◌==◌, nat_eq, string_eq,
  Bool-cases, length, All,
}
use myadmin.Transfer.Csv.Reader.{
  CsvRecord, Reader, start_reader, followed_by, push_field, yield_row, add_unit, step_quoted,
  step_plain, step, read_text, read_chunks, finish, csv_records,
}

-- The last unit of a text, if it has one, is no quotation mark.
abbrev pub ends_free : List ℕ → Bool
ends_free [] = true
ends_free (c ∷ []) = not (c == b'"')
ends_free (c ∷ (next ∷ rest)) = ends_free (next ∷ rest)

abbrev pub joined : List (ℕ × List ℕ) → List ℕ
joined [] = []
joined ((bytes, text) ∷ chunks) = text ++ joined chunks

abbrev clear_record : CsvRecord → CsvRecord
clear_record x = record x { bytes_processed = 0 }

-- A reader that has not counted its bytes.
abbrev clear : Reader → Reader
clear r = record r { bytes_processed = 0; records = map clear_record r.records }

abbrev count_bytes : ℕ → Reader → Reader
count_bytes bytes r = record r { bytes_processed = r.bytes_processed + bytes }

-- The rows of some records.
abbrev pub row_values : List CsvRecord → List (List (List ℕ))
row_values = map (λ x. x.values)

row_values-clear : (xs : List CsvRecord) → row_values xs ≡ row_values (map clear_record xs)
row_values-clear [] = refl
row_values-clear (x ∷ xs) = ap (λ rest. x.values ∷ rest) (row_values-clear xs)

map-append : {A B : Type 0} (f : A → B) (xs ys : List A) → map f (xs ++ ys) ≡ map f xs ++ map f ys
map-append f [] ys = refl
map-append f (x ∷ xs) ys = ap (λ rest. f x ∷ rest) (map-append f xs ys)

yield_row-clear : (r : Reader) → clear (yield_row r) ≡ yield_row (clear r)
yield_row-clear r = rw map-append refl

-- `step_plain` on the outcome of its tests.
abbrev plain_result : ℕ → Reader → Bool → Bool → Bool → Bool → Reader
plain_result c r quote delimits line kept =
    if quote
    then record r { quoted = true; at_field_start = false }
    else if delimits
    then push_field r
    else if line
    then yield_row (push_field r)
    else if kept
    then record (add_unit c r) { at_field_start = false }
    else r

step_quoted-clear :
    (c : ℕ) (rest : List ℕ) (r : Reader)
    → step_quoted c rest (clear r) ≡ (clear (step_quoted c rest r).0, (step_quoted c rest r).1)
unfolding step_quoted
step_quoted-clear c rest r = elim (Bool-cases (c == b'"')) [
  | inl quote ↦ rw quote (elim (Bool-cases (followed_by b'"' rest)) [
    | inl doubled ↦ rw doubled refl
    | inr closing ↦ rw closing refl
  ])
  | inr other ↦ rw other refl
]

module _ (delimiter : ℕ) where
  step_plain-clear :
      (c : ℕ) (r : Reader) → clear (step_plain delimiter c r) ≡ step_plain delimiter c (clear r)
  unfolding step_plain
  step_plain-clear c r =
      by_test ((c == b'"') && r.at_field_start) (c == delimiter) (c == b'\n') (not (c == b'\r'))
    where
      by_test :
          (quote delimits line kept : Bool)
          → clear (plain_result c r quote delimits line kept)
            ≡ plain_result c (clear r) quote delimits line kept
      by_test true delimits line kept = refl
      by_test false true line kept = refl
      by_test false false true kept = yield_row-clear (push_field r)
      by_test false false false true = refl
      by_test false false false false = refl

  step-clear :
      (c : ℕ) (rest : List ℕ) (r : Reader)
      → step delimiter c rest (clear r)
        ≡ (clear (step delimiter c rest r).0, (step delimiter c rest r).1)
  unfolding step
  step-clear c rest r = by_test r.quoted
    where
      by_test :
          (quoted : Bool)
          → (if quoted then step_quoted c rest (clear r) else (step_plain delimiter c (clear r), 0))
            ≡ (
              clear (if quoted then step_quoted c rest r else (step_plain delimiter c r, 0)).0,
              (if quoted then step_quoted c rest r else (step_plain delimiter c r, 0)).1,
            )
      by_test true = step_quoted-clear c rest r
      by_test false = ap (λ x. (x, 0)) (sym (step_plain-clear c r))

  read_text-clear :
      (skip : ℕ) (text : List ℕ) (r : Reader)
      → clear (read_text delimiter skip text r) ≡ read_text delimiter skip text (clear r)
  unfolding read_text
  read_text-clear skip [] r = refl
  read_text-clear (suc skip) (c ∷ rest) r = read_text-clear skip rest r
  read_text-clear zero (c ∷ rest) r =
      rw step-clear (read_text-clear (step delimiter c rest r).1 rest (step delimiter c rest r).0)

  step-append :
      (c : ℕ) (rest more : List ℕ) (r : Reader)
      → ends_free (c ∷ rest) ≡ true
      → step delimiter c (rest ++ more) r ≡ step delimiter c rest r
  unfolding step step_quoted
  step-append c [] more r h = ground arith
  step-append c (next ∷ rest) more r h = refl

  step-skip :
      (c : ℕ) (rest : List ℕ) (r : Reader)
      → ends_free (c ∷ rest) ≡ true
      → (step delimiter c rest r).1 ≤ length rest
  unfolding step step_quoted
  step-skip c [] r h = ground arith
  step-skip c (next ∷ rest) r h = ground arith

  ends_free-rest : (c : ℕ) (rest : List ℕ) → ends_free (c ∷ rest) ≡ true → ends_free rest ≡ true
  ends_free-rest c [] h = refl
  ends_free-rest c (next ∷ rest) h = h

  read_text-append :
      (skip : ℕ) (text more : List ℕ) (r : Reader)
      → skip ≤ length text
      → ends_free text ≡ true
      → read_text delimiter skip (text ++ more) r
        ≡ read_text delimiter 0 more (read_text delimiter skip text r)
  unfolding read_text
  read_text-append zero [] more r fits free = refl
  read_text-append (suc skip) [] more r fits free = absurd (omega arith)
  read_text-append (suc skip) (c ∷ rest) more r fits free =
      read_text-append skip rest more r (omega arith) (ends_free-rest c rest free)
  read_text-append zero (c ∷ rest) more r fits free =
      ap (λ (s : Reader × ℕ). read_text delimiter s.1 (rest ++ more) s.0)
        (step-append c rest more r free)
      ∙ read_text-append (step delimiter c rest r).1 rest more (step delimiter c rest r).0
          (step-skip c rest r free) (ends_free-rest c rest free)

  read_chunks-clear :
      (chunks : List (ℕ × List ℕ)) (bytes : ℕ) (last : List ℕ) (r : Reader)
      → All (λ chunk. ends_free chunk.1 ≡ true) chunks
      → clear (read_chunks delimiter (chunks ++ (bytes, last) ∷ []) r)
        ≡ read_text delimiter 0 (joined chunks ++ last) (clear r)
  unfolding read_chunks
  read_chunks-clear [] bytes last r h = read_text-clear 0 last (count_bytes bytes r)
  read_chunks-clear ((count, text) ∷ chunks) bytes last r (free, later) = rw append_assoc (
      read_chunks-clear chunks bytes last (read_text delimiter 0 text (count_bytes count r)) later
      ∙ rw (read_text-clear 0 text (count_bytes count r))
          (sym (read_text-append 0 text (joined chunks ++ last) (clear r) (omega arith) free)))

  finish-clear :
      (tail : List ℕ) (r : Reader) → row_values (finish tail r) ≡ row_values (finish tail (clear r))
  unfolding finish
  finish-clear tail r =
      elim (Bool-cases (ltb 0 (length r.row) || ltb 0 (length (r.field ++ tail)))) [
        | inl more ↦
            rw (more, map-append)
              (rw
                (
                  row_values-clear r.records,
                  map-append (λ (x : CsvRecord). x.values) (map clear_record r.records),
                )
                refl)
        | inr done ↦ rw done (row_values-clear r.records)
      ]

  -- No record depends on the chunks in which the upload is read, where no chunk but the last ends in a
  -- quotation mark: the values are those of the whole text, read as one chunk.
  pub csv_records-chunks :
      (chunks : List (ℕ × List ℕ)) (bytes total : ℕ) (last tail : List ℕ)
      → All (λ chunk. ends_free chunk.1 ≡ true) chunks
      → row_values (csv_records delimiter (chunks ++ (bytes, last) ∷ []) tail)
        ≡ row_values (csv_records delimiter ((total, joined chunks ++ last) ∷ []) tail)
  unfolding csv_records
  csv_records-chunks chunks bytes total last tail h =
      finish-clear tail (read_chunks delimiter (chunks ++ (bytes, last) ∷ []) start_reader)
      ∙ rw
          (
            read_chunks-clear chunks bytes last start_reader h,
            sym (read_chunks-clear [] total (joined chunks ++ last) start_reader tt),
          )
          (sym (
            finish-clear tail
              (read_chunks delimiter ((total, joined chunks ++ last) ∷ []) start_reader)))
