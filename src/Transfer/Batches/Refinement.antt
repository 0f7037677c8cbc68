-- ===== src/Transfer/Batches/Refinement.antt =====
-- Batches do what the rows do one by one.
use myadmin.Common.{
  ℕ, suc, ◌+◌, ◌≡◌, refl, sym, ap, ◌∙◌, inl, inr, true, false, Option, none, some, List, [], ◌∷◌,
  ◌++◌, append-nil, arith, leb, nat_eq, string_eq, text_eq, Bool-cases, Option-cases, Result, ok,
  err, length, length-map, some-injective,
}
use myadmin.Transfer.Batches.{
  Port, PendingRow, Stop, Batches, and_then, start_batches, row_succeeded, insert_row, insert_rows,
  report, insert_pending, flush_batch, flush, add_row, add_rows, check_signal, insert_all,
  batch_rows, after_row, after_batch,
}
use myadmin.Transfer.Batches.Pending.{KeepsPending, flush-pending}
use myadmin.Transfer.Batches.Stripping.{
  strip, strip_end, and_then-strip, row_failed-strip, and_then-same, and_then_assoc, report-strip,
  or_count-same, shift_pending,
}

-- The world behind a single row that was taken, and what comes next.
abbrev pub after_single : {W R : Type 0} → Result R ℕ × W → (W → Option W) → Option W
after_single (ok affected, w) next = next w
after_single (err reason, w) next = none

-- The world after rows that a port takes one by one, if it takes them all.
abbrev pub singles : {W R C : Type 0} → Port W R C → List (List C) → W → Option W
singles port [] w = some w
singles port (row ∷ rows) w = after_single (port.insert_batch (row ∷ []) w) (singles port rows)

-- One statement inserts all its rows, as if they came one by one, or changes nothing.
abbrev pub IsAtomic : {W R C : Type 0} → Port W R C → Type 0
IsAtomic {W} {R} {C} port =
    (rows : List (List C)) (w : W)
    → ((w' : W) → singles port rows w ≡ some w' → port.insert_batch rows w ≡ (ok (length rows), w'))
      × (singles port rows w ≡ none → (reason : R) × (port.insert_batch rows w ≡ (err reason, w)))

module _ {W R C : Type 0} (port : Port W R C) (cells : List (List ℕ) → List C) where
  after_row-strip :
      (number : ℕ) (s : Batches W R) (result : Result R ℕ × W)
      → strip_end (after_row port cells number result s)
        ≡ after_row port cells number result (strip s)
  unfolding row_succeeded
  after_row-strip number s (ok affected, w) = refl
  after_row-strip number s (err reason, w) = row_failed-strip number reason w s

  insert_row-strip :
      (r : PendingRow) (s : Batches W R)
      → strip_end (insert_row port cells r s) ≡ insert_row port cells r (strip s)
  unfolding insert_row
  insert_row-strip r s = elim (Bool-cases (port.aborted s.world)) [
    | inl aborted ↦ rw aborted refl
    | inr going ↦
        rw going (after_row-strip r.row_number s (port.insert_batch (cells r.values ∷ []) s.world))
  ]

  insert_rows-strip :
      (rows : List PendingRow) (s : Batches W R)
      → strip_end (insert_rows port cells rows s) ≡ insert_rows port cells rows (strip s)
  unfolding insert_rows
  insert_rows-strip [] s = refl
  insert_rows-strip (r ∷ rows) s =
      and_then-strip (insert_row port cells r s) (insert_rows port cells rows)
        (insert_rows port cells rows) (insert_rows-strip rows)
      ∙ ap (λ end. and_then end (insert_rows port cells rows)) (insert_row-strip r s)

  insert_rows-append :
      (rows more : List PendingRow) (s : Batches W R)
      → insert_rows port cells (rows ++ more) s
        ≡ and_then (insert_rows port cells rows s) (insert_rows port cells more)
  unfolding insert_rows
  insert_rows-append [] more s = refl
  insert_rows-append (r ∷ rows) more s =
      and_then-same (insert_row port cells r s) (insert_rows port cells (rows ++ more))
        (λ s'. and_then (insert_rows port cells rows s') (insert_rows port cells more))
        (insert_rows-append rows more)
      ∙ sym (
          and_then_assoc (insert_row port cells r s) (insert_rows port cells rows)
            (insert_rows port cells more))

  -- What follows a flush, if the rest of the loop is known from any state.
  after_flush :
      (loop last : Batches W R → Batches W R × Option Stop) (rows : List PendingRow)
      (end : Batches W R × Option Stop)
      → KeepsPending [] end
      → ((s : Batches W R)
          → strip_end (and_then (loop s) last)
            ≡ insert_rows port cells (s.pending ++ rows) (strip s))
      → strip_end (and_then (and_then end loop) last)
        ≡ and_then (strip_end end) (insert_rows port cells rows)
  after_flush loop last rows (s, none) empty rest =
      rest s ∙ ap (λ p. insert_rows port cells (p ++ rows) (strip s)) empty
  after_flush loop last rows (s, some stop) empty rest = refl

  add_row-full :
      (size_bytes batch_size : ℕ) (r : PendingRow) (s : Batches W R)
      → leb batch_size (length (s.pending ++ r ∷ [])) ≡ true
      → add_row port cells size_bytes batch_size r s
        ≡ flush port cells size_bytes (record s { pending = s.pending ++ r ∷ [] })
  unfolding add_row
  add_row-full size_bytes batch_size r s full = rw full refl

  add_row-room :
      (size_bytes batch_size : ℕ) (r : PendingRow) (s : Batches W R)
      → leb batch_size (length (s.pending ++ r ∷ [])) ≡ false
      → add_row port cells size_bytes batch_size r s
        ≡ (record s { pending = s.pending ++ r ∷ [] }, none)
  unfolding add_row
  add_row-room size_bytes batch_size r s room = rw room refl

  module _ (never : (w : W) → port.aborted w ≡ false) (atomic : IsAtomic port) where
    -- A row that is taken by itself has been counted once.
    single_exact :
        (row : List C) (w w' : W) (affected : ℕ)
        → port.insert_batch (row ∷ []) w ≡ (ok affected, w')
        → affected ≡ 1
    single_exact row w w' affected h =
        let taken : port.insert_batch (row ∷ []) w ≡ (ok 1, w') =
          (atomic (row ∷ []) w).0 w' (rw h refl) in
        cc (h, taken)

    insert_row-going :
        (r : PendingRow) (s : Batches W R)
        → insert_row port cells r s
          ≡ after_row port cells r.row_number (port.insert_batch (cells r.values ∷ []) s.world) s
    unfolding insert_row
    insert_row-going r s = rw never refl

    singles-insert_rows :
        (rows : List PendingRow) (s : Batches W R) (w : W)
        → singles port (batch_rows port cells rows) s.world ≡ some w
        → insert_rows port cells rows s
          ≡ (record s { world = w; rows_succeeded = s.rows_succeeded + length rows }, none)
    unfolding insert_rows
    singles-insert_rows [] s w h =
        ap (λ n. (record s { rows_succeeded = n }, none)) (omega arith)
        ∙ ap (λ x. (record s { world = x; rows_succeeded = s.rows_succeeded + 0 }, none))
            (some-injective s.world w h)
    singles-insert_rows (r ∷ rows) s w h =
        ap (λ end. and_then end (insert_rows port cells rows)) (insert_row-going r s)
        ∙ by_result (λ s' h'. singles-insert_rows rows s' w h')
            (port.insert_batch (cells r.values ∷ []) s.world) refl h
      where
        by_result :
            ((s' : Batches W R)
              → singles port (batch_rows port cells rows) s'.world ≡ some w
              → insert_rows port cells rows s'
                ≡ (record s' { world = w; rows_succeeded = s'.rows_succeeded + length rows }, none))
            → (result : Result R ℕ × W) → port.insert_batch (cells r.values ∷ []) s.world ≡ result
            → after_single result (singles port (batch_rows port cells rows)) ≡ some w
            → and_then (after_row port cells r.row_number result s) (insert_rows port cells rows)
              ≡ (
                record s { world = w; rows_succeeded = s.rows_succeeded + suc (length rows) },
                none,
              )
        by_result rest (err reason, w') e h' = cc h'
        by_result rest (ok affected, w') e h' =
            unfold row_succeeded in
            rw (or_count-same affected 1 (single_exact (cells r.values) s.world w' affected e)) (
              rest (record s { world = w'; rows_succeeded = s.rows_succeeded + 1 }) h'
              ∙ ap (λ n. (record s { world = w; rows_succeeded = n }, none)) (omega arith))

    after_batch-insert_rows :
        (batch : List PendingRow) (s : Batches W R)
        → after_batch port cells batch (port.insert_batch (batch_rows port cells batch) s.world) s
          ≡ insert_rows port cells batch s
    unfolding row_succeeded
    after_batch-insert_rows batch s =
        elim (Option-cases (singles port (batch_rows port cells batch) s.world)) [
          | inl refused ↦
              let (reason, rejected) = (atomic (batch_rows port cells batch) s.world).1 refused in
              rw rejected refl
          | inr (w, taken) ↦
              rw
                (
                  (atomic (batch_rows port cells batch) s.world).0 w taken,
                  singles-insert_rows batch s w taken,
                )
                (ap (λ n. (record s { world = w; rows_succeeded = s.rows_succeeded + n }, none))
                  (or_count-same (length (batch_rows port cells batch)) (length batch)
                    (length-map batch (λ (r : PendingRow). cells r.values))))
        ]

    insert_pending-strip :
        (size_bytes : ℕ) (batch : List PendingRow) (s : Batches W R)
        → strip_end (insert_pending port cells size_bytes batch s)
          ≡ insert_rows port cells batch (strip s)
    unfolding insert_pending
    insert_pending-strip size_bytes batch s =
        ap (λ end. strip_end (and_then end (λ s'. (report size_bytes batch s', none))))
          (after_batch-insert_rows batch s)
        ∙ report-strip size_bytes batch (insert_rows port cells batch s)
        ∙ insert_rows-strip batch s

    flush_batch-strip :
        (size_bytes : ℕ) (batch : List PendingRow) (s : Batches W R)
        → strip_end (flush_batch port cells size_bytes batch s)
          ≡ insert_rows port cells batch (strip s)
    unfolding flush_batch insert_rows
    flush_batch-strip size_bytes [] s = refl
    flush_batch-strip size_bytes (r ∷ rows) s =
        rw (never s.world) (insert_pending-strip size_bytes (r ∷ rows) (record s { pending = [] }))

    flush-strip :
        (size_bytes : ℕ) (s : Batches W R)
        → strip_end (flush port cells size_bytes s) ≡ insert_rows port cells s.pending (strip s)
    unfolding flush
    flush-strip size_bytes s = flush_batch-strip size_bytes s.pending s

    -- The loop from any state, with the flush that follows.
    add_rows-strip :
        (size_bytes batch_size : ℕ) (rows : List PendingRow) (s : Batches W R)
        → strip_end (
            and_then
              (add_rows port cells size_bytes batch_size rows s)
              (flush port cells size_bytes))
          ≡ insert_rows port cells (s.pending ++ rows) (strip s)
    unfolding add_rows
    add_rows-strip size_bytes batch_size [] s = rw append-nil (flush-strip size_bytes s)
    add_rows-strip size_bytes batch_size (r ∷ rows) s =
        let s' = record s { pending = s.pending ++ r ∷ [] } in
        elim (Bool-cases (leb batch_size (length (s.pending ++ r ∷ [])))) [
          | inl full ↦
              ap
                (λ end. strip_end (
                  and_then (and_then end (add_rows port cells size_bytes batch_size rows))
                    (flush port cells size_bytes)))
                (add_row-full size_bytes batch_size r s full)
              ∙ after_flush (add_rows port cells size_bytes batch_size rows)
                  (flush port cells size_bytes) rows (flush port cells size_bytes s')
                  (flush-pending port cells size_bytes s')
                  (add_rows-strip size_bytes batch_size rows)
              ∙ ap (λ end. and_then end (insert_rows port cells rows)) (flush-strip size_bytes s')
              ∙ sym (insert_rows-append (s.pending ++ r ∷ []) rows (strip s))
              ∙ ap (λ all. insert_rows port cells all (strip s)) (shift_pending s.pending r rows)
          | inr room ↦
              ap
                (λ end. strip_end (
                  and_then (and_then end (add_rows port cells size_bytes batch_size rows))
                    (flush port cells size_bytes)))
                (add_row-room size_bytes batch_size r s room)
              ∙ add_rows-strip size_bytes batch_size rows s'
              ∙ ap (λ all. insert_rows port cells all (strip s)) (shift_pending s.pending r rows)
        ]

    check_signal-strip :
        (end : Batches W R × Option Stop)
        → strip_end (and_then end (check_signal port cells)) ≡ strip_end end
    unfolding check_signal
    check_signal-strip (s, none) = rw never refl
    check_signal-strip (s, some stop) = refl

    -- In whatever batches the rows are inserted, the world, the counts, the failed rows and the reason to
    -- stop are those of inserting them one by one; where a statement inserts all its rows, as if they
    -- came one by one, or changes nothing, and the import is not cancelled.
    pub insert_all-insert_rows :
        (size_bytes batch_size : ℕ) (rows : List PendingRow) (w : W)
        → strip_end (insert_all port cells size_bytes batch_size rows w)
          ≡ insert_rows port cells rows (start_batches w)
    unfolding insert_all start_batches
    insert_all-insert_rows size_bytes batch_size rows w =
        check_signal-strip (
          and_then (add_rows port cells size_bytes batch_size rows (start_batches w))
            (flush port cells size_bytes))
        ∙ add_rows-strip size_bytes batch_size rows (start_batches w)
