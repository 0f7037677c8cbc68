-- ===== src/Transfer/Batches/Counts.antt =====
-- A bounded number of rows fails, and every row is counted.
use myadmin.Common.{
  ℕ, zero, suc, ◌+◌, ◌≤◌, ◌<◌, ◌≡◌, refl, sym, ap, subst, ◌∙◌, inl, inr, Option, none, some, List,
  [], ◌∷◌, ◌++◌, arith, leb, lt→ltb, nat_eq, string_eq, text_eq, Bool-cases, Result, ok, err,
  length, length-append, length-map,
}
use myadmin.Transfer.Batches.{
  Port, PendingRow, Stop, Batches, csv_row_error_threshold, or_count, and_then, start_batches,
  row_succeeded, row_failed, insert_row, insert_rows, report, insert_pending, flush_batch, flush,
  add_row, add_rows, check_signal, insert_all, batch_rows, after_row, after_batch,
}
use myadmin.Transfer.Batches.Pending.{KeepsPending, flush-pending}

-- What holds between two rows, of which `n` have come: each failure is recorded, there are fewer than
-- the threshold, and each row has succeeded, has failed or is pending.
abbrev pub Counted : {W R : Type 0} → ℕ → Batches W R → Type 0
Counted n s =
    (s.rows_failed ≡ length s.failed_rows)
    × (s.rows_failed < csv_row_error_threshold)
    × (s.rows_succeeded + s.rows_failed + length s.pending ≡ n)

-- What holds of an import that goes on, and of one that has stopped.
abbrev pub EndCounted : {W R : Type 0} → ℕ → Batches W R × Option Stop → Type 0
EndCounted n (s, none) = Counted n s
EndCounted n (s, some stop) =
    (s.rows_failed ≡ length s.failed_rows) × (s.rows_failed ≤ csv_row_error_threshold)

-- What holds at the end of an import of `n` rows.
abbrev pub Accounted : {W R : Type 0} → ℕ → Batches W R × Option Stop → Type 0
Accounted n (s, none) =
    (s.rows_failed ≡ length s.failed_rows)
    × (s.rows_failed < csv_row_error_threshold)
    × (s.pending ≡ [])
    × (s.rows_succeeded + s.rows_failed ≡ n)
Accounted n (s, some stop) =
    (s.rows_failed ≡ length s.failed_rows) × (s.rows_failed ≤ csv_row_error_threshold)

module _ {W R C : Type 0} (port : Port W R C) (cells : List (List ℕ) → List C) where
  check_signal-Accounted :
      (n : ℕ) (end : Batches W R × Option Stop)
      → EndCounted n end
      → KeepsPending [] end
      → Accounted n (and_then end (check_signal port cells))
  unfolding check_signal
  check_signal-Accounted n (s, some stop) h empty = h
  check_signal-Accounted n (s, none) (listed, few, count) empty =
      elim (Bool-cases (port.aborted s.world)) [
        | inl aborted ↦ rw aborted (listed, omega arith)
        | inr going ↦ rw going (
          listed,
          few,
          empty,
          omega (arith, ap (λ p. s.rows_succeeded + s.rows_failed + length p) (sym empty) ∙ count),
        )
      ]

and_then-EndCounted :
    {W R : Type 0} (n m : ℕ) (end : Batches W R × Option Stop)
    (next : Batches W R → Batches W R × Option Stop)
    → EndCounted n end
    → ((s : Batches W R) → Counted n s → EndCounted m (next s))
    → EndCounted m (and_then end next)
and_then-EndCounted n m (s, none) next h keep = keep s h
and_then-EndCounted n m (s, some stop) next h keep = h

-- The counts that a port answers are those of the rows.
abbrev pub CountsRows : {W R C : Type 0} → Port W R C → Type 0
CountsRows {W} {R} {C} port =
    (rows : List (List C)) (w w' : W) (affected : ℕ)
    → port.insert_batch rows w ≡ (ok affected, w')
    → affected ≡ length rows

or_count-same : (a b : ℕ) → a ≡ b → or_count a b ≡ b
or_count-same zero b h = refl
or_count-same (suc a) b h = h

row_failed-EndCounted :
    {W R : Type 0} (n number : ℕ) (reason : R) (w : W) (s : Batches W R)
    → Counted n s
    → EndCounted (n + 1) (row_failed number reason w s)
unfolding row_failed
row_failed-EndCounted n number reason w s (listed, few, count) =
    rw (lt→ltb (length s.failed_rows) csv_row_error_threshold (omega arith))
      (elim (Bool-cases (leb csv_row_error_threshold (s.rows_failed + 1))) [
        | inl full ↦ rw full (rw length-append (omega arith), omega arith)
        | inr room ↦ rw room (rw length-append (omega arith), ground arith, omega arith)
      ])

module _ {W R C : Type 0} (port : Port W R C) (cells : List (List ℕ) → List C)
    (exact : CountsRows port) where
  after_row-EndCounted :
      (n number : ℕ) (row : List C) (s : Batches W R) (result : Result R ℕ × W)
      → port.insert_batch (row ∷ []) s.world ≡ result
      → Counted n s
      → EndCounted (n + 1) (after_row port cells number result s)
  unfolding row_succeeded
  after_row-EndCounted n number row s (ok affected, w) e (listed, few, count) = (
    listed,
    few,
    rw (or_count-same affected 1 (exact (row ∷ []) s.world w affected e)) (omega arith),
  )
  after_row-EndCounted n number row s (err reason, w) e h =
      row_failed-EndCounted n number reason w s h

  insert_row-EndCounted :
      (n : ℕ) (r : PendingRow) (s : Batches W R)
      → Counted n s
      → EndCounted (n + 1) (insert_row port cells r s)
  unfolding insert_row
  insert_row-EndCounted n r s h = elim (Bool-cases (port.aborted s.world)) [
    | inl aborted ↦ rw aborted (h.0, omega arith)
    | inr going ↦ rw going (
        after_row-EndCounted n r.row_number (cells r.values) s
          (port.insert_batch (cells r.values ∷ []) s.world) refl h)
  ]

  insert_rows-EndCounted :
      (n : ℕ) (rows : List PendingRow) (s : Batches W R)
      → Counted n s
      → EndCounted (n + length rows) (insert_rows port cells rows s)
  unfolding insert_rows
  insert_rows-EndCounted n [] s (listed, few, count) = (listed, few, omega arith)
  insert_rows-EndCounted n (r ∷ rows) s h =
      and_then-EndCounted (n + 1) (n + suc (length rows)) (insert_row port cells r s)
        (insert_rows port cells rows) (insert_row-EndCounted n r s h)
        (λ s' h'.
          subst (λ m. EndCounted m (insert_rows port cells rows s')) (omega arith)
            (insert_rows-EndCounted (n + 1) rows s' h'))

  after_batch-EndCounted :
      (n : ℕ) (batch : List PendingRow) (s : Batches W R) (result : Result R ℕ × W)
      → port.insert_batch (batch_rows port cells batch) s.world ≡ result
      → Counted n s
      → EndCounted (n + length batch) (after_batch port cells batch result s)
  unfolding row_succeeded
  after_batch-EndCounted n batch s (ok affected, w) e (listed, few, count) =
      let same : affected ≡ length batch =
        exact (batch_rows port cells batch) s.world w affected e
        ∙ length-map batch (λ (r : PendingRow). cells r.values) in
      (listed, few, rw (or_count-same affected (length batch) same) (omega arith))
  after_batch-EndCounted n batch s (err reason, w) e h =
      insert_rows-EndCounted n batch (record s { world = w }) h

  insert_pending-EndCounted :
      (n size_bytes : ℕ) (batch : List PendingRow) (s : Batches W R)
      → Counted n s
      → EndCounted (n + length batch) (insert_pending port cells size_bytes batch s)
  unfolding insert_pending report
  insert_pending-EndCounted n size_bytes batch s h =
      and_then-EndCounted (n + length batch) (n + length batch)
        (after_batch port cells batch (port.insert_batch (batch_rows port cells batch) s.world) s)
        (λ s'. (report size_bytes batch s', none))
        (after_batch-EndCounted n batch s (port.insert_batch (batch_rows port cells batch) s.world)
          refl h)
        (λ s' h'. h')

  flush_batch-EndCounted :
      (n size_bytes : ℕ) (batch : List PendingRow) (s : Batches W R)
      → s.pending ≡ batch
      → Counted n s
      → EndCounted n (flush_batch port cells size_bytes batch s)
  unfolding flush_batch
  flush_batch-EndCounted n size_bytes [] s same h = h
  flush_batch-EndCounted n size_bytes (r ∷ rows) s same (listed, few, count) =
      elim (Bool-cases (port.aborted s.world)) [
        | inl aborted ↦ rw aborted (listed, omega arith)
        | inr going ↦ rw going (
            subst
              (λ m.
                EndCounted m
                  (insert_pending port cells size_bytes (r ∷ rows) (record s { pending = [] })))
              (ap (λ p. s.rows_succeeded + s.rows_failed + length p) (sym same) ∙ count)
              (insert_pending-EndCounted (s.rows_succeeded + s.rows_failed) size_bytes (r ∷ rows)
                (record s { pending = [] }) (listed, few, omega arith)))
      ]

  flush-EndCounted :
      (n size_bytes : ℕ) (s : Batches W R)
      → Counted n s
      → EndCounted n (flush port cells size_bytes s)
  unfolding flush
  flush-EndCounted n size_bytes s h = flush_batch-EndCounted n size_bytes s.pending s refl h

  add_row-EndCounted :
      (n size_bytes batch_size : ℕ) (r : PendingRow) (s : Batches W R)
      → Counted n s
      → EndCounted (n + 1) (add_row port cells size_bytes batch_size r s)
  unfolding add_row
  add_row-EndCounted n size_bytes batch_size r s (listed, few, count) =
      let h : Counted (n + 1) (record s { pending = s.pending ++ r ∷ [] }) =
        (listed, few, rw length-append (omega arith)) in
      elim (Bool-cases (leb batch_size (length (s.pending ++ r ∷ [])))) [
        | inl full ↦
            rw full
              (flush-EndCounted (n + 1) size_bytes (record s { pending = s.pending ++ r ∷ [] }) h)
        | inr room ↦ rw room h
      ]

  add_rows-EndCounted :
      (n size_bytes batch_size : ℕ) (rows : List PendingRow) (s : Batches W R)
      → Counted n s
      → EndCounted (n + length rows) (add_rows port cells size_bytes batch_size rows s)
  unfolding add_rows
  add_rows-EndCounted n size_bytes batch_size [] s (listed, few, count) = (listed, few, omega arith)
  add_rows-EndCounted n size_bytes batch_size (r ∷ rows) s h =
      and_then-EndCounted (n + 1) (n + suc (length rows))
        (add_row port cells size_bytes batch_size r s)
        (add_rows port cells size_bytes batch_size rows)
        (add_row-EndCounted n size_bytes batch_size r s h)
        (λ s' h'.
          subst (λ m. EndCounted m (add_rows port cells size_bytes batch_size rows s'))
            (omega arith) (add_rows-EndCounted (n + 1) size_bytes batch_size rows s' h'))

  -- Where the port answers with the number of rows that it has inserted: an import lists each failure,
  -- of which there are 100 at most; and if it comes to the end, fewer than 100 rows have failed, no row
  -- is pending, and each row has either succeeded or failed.
  pub insert_all-Accounted :
      (size_bytes batch_size : ℕ) (rows : List PendingRow) (w : W)
      → Accounted (length rows) (insert_all port cells size_bytes batch_size rows w)
  unfolding insert_all start_batches
  insert_all-Accounted size_bytes batch_size rows w =
      check_all (add_rows port cells size_bytes batch_size rows (start_batches w)) (
        subst (λ m. EndCounted m (add_rows port cells size_bytes batch_size rows (start_batches w)))
          (omega arith)
          (add_rows-EndCounted 0 size_bytes batch_size rows (start_batches w)
            (refl, omega arith, omega arith)))
    where
      check_all :
          (end : Batches W R × Option Stop)
          → EndCounted (length rows) end
          → Accounted
              (length rows)
              (and_then (and_then end (flush port cells size_bytes)) (check_signal port cells))
      check_all (s, some stop) h = h
      check_all (s, none) h =
          check_signal-Accounted port cells (length rows) (flush port cells size_bytes s)
            (flush-EndCounted (length rows) size_bytes s h) (flush-pending port cells size_bytes s)
