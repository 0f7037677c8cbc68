-- ===== src/Transfer/Batches.antt =====
-- packages/import/src/index.ts: `flush` and the loop around it in `executeCsv`. The database, with
-- the signal that cancels the job, is a world `W`; what its port does in it is given.
pub mod Stripping
pub mod Refinement
pub mod Pending
pub mod Counts
use myadmin.Common.{
  ℕ, zero, suc, ◌+◌, ◌-◌, ◌*◌, ◌/◌, ◌%◌, ◌^◌, ◌≤◌, ◌<◌, min, max, String, ◌≡◌, refl, sym, ap, subst,
  ◌∙◌, ◌≢◌, ◌↔◌, ◌⊎◌, inl, inr, Bool, true, false, not, ◌&&◌, ◌||◌, Option, none, some, List, [],
  ◌∷◌, ◌++◌, map, append_assoc, append-nil, arith, eq_iff, ltb, leb, if◌then◌else◌, ltb→lt, lt→ltb,
  leb→le, le→leb, Eq, ◌==◌, nat_eq, string_eq, text_eq, Bool-cases, Option-cases, is_some,
  or_default, Result, ok, err, ◌>>=◌, ◌>>◌, guard, Number, nat, neg, not_whole, max_safe_integer,
  codes, is_space, all_space, is_blank, units, utf16_length, length, get_elem?, set, any, all,
  filter, find?, bit, count_if, All, length-append, length-map, get_elem?-set_self,
  get_elem?-set_ne, count_if-set, set-set, set_self, count_if-append, All-append, All-get, All-set,
  All-imp, if_both, all_iff, find?-map, find?-sound, find?-map-none, All-filter, find?-append_none,
  any-eq-false, bit_le, pow-suc, mul_comm, mul_assoc, some-injective, Result-cases, map_option,
}

-- `importExport.insertBatch`, with `affectedRows` or the reason why it throws, and
-- `job.signal.aborted`.
pub record Port (W R C : Type 0) : Type 0 where
  pub insert_batch : List (List C) → W → Result R ℕ × W
  pub aborted : W → Bool

pub record PendingRow : Type 0 where
  pub values : List (List ℕ)
  pub bytes_processed : ℕ
  pub row_number : ℕ

pub record FailedRow (R : Type 0) : Type 0 where
  pub row_number : ℕ
  pub reason : R

-- Why the import stops early.
pub data Stop : Type 0 where
  abort_error : Stop
  -- "CSV import stopped after 100 failed rows", with the number of the first of them.
  constraint_violation : ℕ → Stop

pub record Progress : Type 0 where
  pub current : ℕ
  pub total : ℕ
  pub rows_succeeded : ℕ

-- `summary`, `failedRows` and `pending`, what was reported, and the world.
pub record Batches (W R : Type 0) : Type 0 where
  pub world : W
  pub rows_succeeded : ℕ
  pub rows_failed : ℕ
  pub failed_rows : List (FailedRow R)
  pub pending : List PendingRow
  pub progress : List Progress

abbrev pub csv_row_error_threshold : ℕ
csv_row_error_threshold = 100

-- `a || b` on numbers.
abbrev pub or_count : ℕ → ℕ → ℕ
or_count zero b = b
or_count (suc a) b = suc a

abbrev pub first_row_number : {R : Type 0} → List (FailedRow R) → ℕ → ℕ
first_row_number [] number = number
first_row_number (f ∷ failed) number = f.row_number

-- `batch.at(-1)?.bytesProcessed ?? 0`
abbrev pub last_bytes : List PendingRow → ℕ
last_bytes [] = 0
last_bytes (r ∷ []) = r.bytes_processed
last_bytes (r ∷ (next ∷ rest)) = last_bytes (next ∷ rest)

unfoldable pub start_batches : {W R : Type 0} → W → Batches W R
start_batches world = record {
  world = world;
  rows_succeeded = 0;
  rows_failed = 0;
  failed_rows = [];
  pending = [];
  progress = [];
}

-- What follows, unless the import has stopped.
abbrev pub and_then :
    {W R : Type 0}
    → Batches W R × Option Stop
    → (Batches W R → Batches W R × Option Stop)
    → Batches W R × Option Stop
and_then (s, some stop) next = (s, some stop)
and_then (s, none) next = next s

module _ {W R : Type 0} where
  unfoldable pub row_succeeded : ℕ → ℕ → W → Batches W R → Batches W R
  row_succeeded affected count world s = record s {
    world = world;
    rows_succeeded = s.rows_succeeded + or_count affected count;
  }

  -- The handler of one row's error.
  unfoldable pub row_failed : ℕ → R → W → Batches W R → Batches W R × Option Stop
  row_failed number reason world s =
      let failed = s.rows_failed + 1 in
      let failed_rows =
        if ltb (length s.failed_rows) csv_row_error_threshold
        then s.failed_rows ++ record { row_number = number; reason = reason } ∷ []
        else s.failed_rows in
      let s' = record s { world = world; rows_failed = failed; failed_rows = failed_rows } in
      if leb csv_row_error_threshold failed
      then (s', some (constraint_violation (first_row_number failed_rows number)))
      else (s', none)

  -- `job.reportProgress(…)`
  unfoldable pub report : ℕ → List PendingRow → Batches W R → Batches W R
  report size_bytes batch s = record s {
    progress =
        s.progress
        ++ record {
          current = min (last_bytes batch) size_bytes;
          total = size_bytes;
          rows_succeeded = s.rows_succeeded;
        }
          ∷ [];
  }

module _ {W R C : Type 0} (port : Port W R C) (cells : List (List ℕ) → List C) where
  -- The rows as `insertBatch` takes them.
  abbrev pub batch_rows : List PendingRow → List (List C)
  batch_rows batch = map (λ r. cells r.values) batch

  abbrev pub after_row : ℕ → Result R ℕ × W → Batches W R → Batches W R × Option Stop
  after_row number (ok affected, world) s = (row_succeeded affected 1 world s, none)
  after_row number (err reason, world) s = row_failed number reason world s

  unfoldable pub insert_row : PendingRow → Batches W R → Batches W R × Option Stop
  insert_row r s =
      if port.aborted s.world
      then (s, some abort_error)
      else after_row r.row_number (port.insert_batch (cells r.values ∷ []) s.world) s

  -- The rows of a batch that was rejected, one by one.
  unfoldable pub insert_rows : List PendingRow → Batches W R → Batches W R × Option Stop
  insert_rows [] s = (s, none)
  insert_rows (r ∷ rows) s = and_then (insert_row r s) (insert_rows rows)

  -- The batch is inserted at once, or row by row where that fails.
  abbrev pub after_batch :
      List PendingRow → Result R ℕ × W → Batches W R → Batches W R × Option Stop
  after_batch batch (ok affected, world) s = (row_succeeded affected (length batch) world s, none)
  after_batch batch (err reason, world) s = insert_rows batch (record s { world = world })

  unfoldable pub insert_pending : ℕ → List PendingRow → Batches W R → Batches W R × Option Stop
  insert_pending size_bytes batch s =
      and_then (after_batch batch (port.insert_batch (batch_rows batch) s.world) s)
        (λ s'. (report size_bytes batch s', none))

  unfoldable pub flush_batch : ℕ → List PendingRow → Batches W R → Batches W R × Option Stop
  flush_batch size_bytes [] s = (s, none)
  flush_batch size_bytes (r ∷ rows) s =
      if port.aborted s.world
      then (s, some abort_error)
      else insert_pending size_bytes (r ∷ rows) (record s { pending = [] })

  unfoldable pub flush : ℕ → Batches W R → Batches W R × Option Stop
  flush size_bytes s = flush_batch size_bytes s.pending s

  -- `pending.push(row)`, and the flush of a batch that is full.
  unfoldable pub add_row : ℕ → ℕ → PendingRow → Batches W R → Batches W R × Option Stop
  add_row size_bytes batch_size r s =
      let s' = record s { pending = s.pending ++ r ∷ [] } in
      if leb batch_size (length s'.pending) then flush size_bytes s' else (s', none)

  unfoldable pub add_rows : ℕ → ℕ → List PendingRow → Batches W R → Batches W R × Option Stop
  add_rows size_bytes batch_size [] s = (s, none)
  add_rows size_bytes batch_size (r ∷ rows) s =
      and_then (add_row size_bytes batch_size r s) (add_rows size_bytes batch_size rows)

  -- The last look at the signal.
  unfoldable pub check_signal : Batches W R → Batches W R × Option Stop
  check_signal s = if port.aborted s.world then (s, some abort_error) else (s, none)

  unfoldable pub insert_all : ℕ → ℕ → List PendingRow → W → Batches W R × Option Stop
  insert_all size_bytes batch_size rows world =
      and_then
        (and_then (add_rows size_bytes batch_size rows (start_batches world)) (flush size_bytes))
        check_signal
