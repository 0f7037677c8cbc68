-- ===== src/Transfer/Batches/Pending.antt =====
-- Which rows are still pending after a flush: none.
use myadmin.Common.{
  ℕ, ◌+◌, ◌≡◌, refl, subst, inl, inr, Option, none, some, List, [], ◌∷◌, leb, nat_eq, string_eq,
  text_eq, Bool-cases, Result, ok, err,
}
use myadmin.Transfer.Batches.{
  Port, PendingRow, Stop, Batches, csv_row_error_threshold, and_then, row_succeeded, row_failed,
  insert_row, insert_rows, report, insert_pending, flush_batch, flush, batch_rows, after_row,
  after_batch,
}

abbrev pub KeepsPending : {W R : Type 0} → List PendingRow → Batches W R × Option Stop → Type 0
KeepsPending p (s, none) = s.pending ≡ p
KeepsPending p (s, some stop) = Unit

pub and_then-KeepsPending :
    {W R : Type 0} (p : List PendingRow) (end : Batches W R × Option Stop)
    (next : Batches W R → Batches W R × Option Stop)
    → KeepsPending p end
    → ((s : Batches W R) → s.pending ≡ p → KeepsPending p (next s))
    → KeepsPending p (and_then end next)
and_then-KeepsPending p (s, none) next h keep = keep s h
and_then-KeepsPending p (s, some stop) next h keep = tt

row_failed-KeepsPending :
    {W R : Type 0} (number : ℕ) (reason : R) (w : W) (s : Batches W R)
    → KeepsPending s.pending (row_failed number reason w s)
unfolding row_failed
row_failed-KeepsPending number reason w s =
    elim (Bool-cases (leb csv_row_error_threshold (s.rows_failed + 1))) [
      | inl full ↦ rw full tt
      | inr room ↦ rw room refl
    ]

module _ {W R C : Type 0} (port : Port W R C) (cells : List (List ℕ) → List C) where
  after_row-KeepsPending :
      (number : ℕ) (s : Batches W R) (result : Result R ℕ × W)
      → KeepsPending s.pending (after_row port cells number result s)
  unfolding row_succeeded
  after_row-KeepsPending number s (ok affected, w) = refl
  after_row-KeepsPending number s (err reason, w) = row_failed-KeepsPending number reason w s

  insert_row-KeepsPending :
      (r : PendingRow) (s : Batches W R) → KeepsPending s.pending (insert_row port cells r s)
  unfolding insert_row
  insert_row-KeepsPending r s = elim (Bool-cases (port.aborted s.world)) [
    | inl aborted ↦ rw aborted tt
    | inr going ↦
        rw going
          (after_row-KeepsPending r.row_number s (port.insert_batch (cells r.values ∷ []) s.world))
  ]

  insert_rows-KeepsPending :
      (rows : List PendingRow) (s : Batches W R)
      → KeepsPending s.pending (insert_rows port cells rows s)
  unfolding insert_rows
  insert_rows-KeepsPending [] s = refl
  insert_rows-KeepsPending (r ∷ rows) s =
      and_then-KeepsPending s.pending (insert_row port cells r s) (insert_rows port cells rows)
        (insert_row-KeepsPending r s)
        (λ s' same.
          subst (λ p. KeepsPending p (insert_rows port cells rows s')) same
            (insert_rows-KeepsPending rows s'))

  after_batch-KeepsPending :
      (batch : List PendingRow) (s : Batches W R) (result : Result R ℕ × W)
      → KeepsPending s.pending (after_batch port cells batch result s)
  unfolding row_succeeded
  after_batch-KeepsPending batch s (ok affected, w) = refl
  after_batch-KeepsPending batch s (err reason, w) =
      insert_rows-KeepsPending batch (record s { world = w })

  flush_batch-pending :
      (size_bytes : ℕ) (batch : List PendingRow) (s : Batches W R)
      → s.pending ≡ batch
      → KeepsPending [] (flush_batch port cells size_bytes batch s)
  unfolding flush_batch insert_pending report
  flush_batch-pending size_bytes [] s same = same
  flush_batch-pending size_bytes (r ∷ rows) s same = elim (Bool-cases (port.aborted s.world)) [
    | inl aborted ↦ rw aborted tt
    | inr going ↦ rw going (
        and_then-KeepsPending []
          (after_batch port cells (r ∷ rows)
            (port.insert_batch (batch_rows port cells (r ∷ rows)) s.world)
            (record s { pending = [] }))
          (λ s'. (report size_bytes (r ∷ rows) s', none))
          (after_batch-KeepsPending (r ∷ rows) (record s { pending = [] })
            (port.insert_batch (batch_rows port cells (r ∷ rows)) s.world))
          (λ s' h. h))
  ]

  pub flush-pending :
      (size_bytes : ℕ) (s : Batches W R) → KeepsPending [] (flush port cells size_bytes s)
  unfolding flush
  flush-pending size_bytes s = flush_batch-pending size_bytes s.pending s refl
