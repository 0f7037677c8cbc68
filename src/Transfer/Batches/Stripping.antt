-- ===== src/Transfer/Batches/Stripping.antt =====
-- States without what only the batches have.
use myadmin.Common.{
  ℕ, zero, suc, ◌+◌, ◌≡◌, refl, inl, inr, Option, none, some, List, [], ◌∷◌, ◌++◌, append_assoc,
  leb, nat_eq, string_eq, text_eq, Bool-cases,
}
use myadmin.Transfer.Batches.{
  PendingRow, Stop, Batches, csv_row_error_threshold, or_count, and_then, row_failed, report,
}

-- A state without what only the batches have.
abbrev pub strip : {W R : Type 0} → Batches W R → Batches W R
strip s = record s { pending = []; progress = [] }

abbrev pub strip_end : {W R : Type 0} → Batches W R × Option Stop → Batches W R × Option Stop
strip_end (s, stop) = (strip s, stop)

pub and_then-strip :
    {W R : Type 0} (end : Batches W R × Option Stop)
    (next next' : Batches W R → Batches W R × Option Stop)
    → ((s : Batches W R) → strip_end (next s) ≡ next' (strip s))
    → strip_end (and_then end next) ≡ and_then (strip_end end) next'
and_then-strip (s, none) next next' h = h s
and_then-strip (s, some stop) next next' h = refl

pub row_failed-strip :
    {W R : Type 0} (number : ℕ) (reason : R) (w : W) (s : Batches W R)
    → strip_end (row_failed number reason w s) ≡ row_failed number reason w (strip s)
unfolding row_failed
row_failed-strip number reason w s =
    elim (Bool-cases (leb csv_row_error_threshold (s.rows_failed + 1))) [
      | inl full ↦ rw full refl
      | inr room ↦ rw room refl
    ]

pub and_then-same :
    {W R : Type 0} (end : Batches W R × Option Stop)
    (next next' : Batches W R → Batches W R × Option Stop)
    → ((s : Batches W R) → next s ≡ next' s)
    → and_then end next ≡ and_then end next'
and_then-same (s, none) next next' h = h s
and_then-same (s, some stop) next next' h = refl

pub and_then_assoc :
    {W R : Type 0} (end : Batches W R × Option Stop)
    (next later : Batches W R → Batches W R × Option Stop)
    → and_then (and_then end next) later ≡ and_then end (λ s. and_then (next s) later)
and_then_assoc (s, none) next later = refl
and_then_assoc (s, some stop) next later = refl

pub report-strip :
    {W R : Type 0} (size_bytes : ℕ) (batch : List PendingRow) (end : Batches W R × Option Stop)
    → strip_end (and_then end (λ s. (report size_bytes batch s, none))) ≡ strip_end end
unfolding report
report-strip size_bytes batch (s, none) = refl
report-strip size_bytes batch (s, some stop) = refl

pub or_count-same : (a b : ℕ) → a ≡ b → or_count a b ≡ b
or_count-same zero b h = refl
or_count-same (suc a) b h = h

pub shift_pending :
    (rows : List PendingRow) (r : PendingRow) (more : List PendingRow)
    → (rows ++ r ∷ []) ++ more ≡ rows ++ r ∷ more
shift_pending rows r more = rw append_assoc refl
