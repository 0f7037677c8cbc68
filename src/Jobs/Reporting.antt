-- ===== src/Jobs/Reporting.antt =====
-- packages/jobs/src/index.ts: progress reports and their throttle.
use myadmin.Common.{
  ℕ, ◌+◌, ◌-◌, max, Bool, true, not, ◌||◌, none, some, leb, if◌then◌else◌, nat_eq, string_eq,
  is_some, Result, ok, err, get_elem?,
}
use myadmin.Jobs.State.{is_active}
use myadmin.Jobs.Progress.{JobProgress, JobProgressInput, JobManagerErrorCode, normalized_progress}
use myadmin.Jobs.Manager.{JobEntry, progress_event, Manager, emit, store}
use myadmin.Jobs.Execution.{Outcome}

module _ {V : Type 0} where
  -- `currentTime - entry.lastProgressEmittedAt >= this.progressThrottleMs`
  unfoldable pub is_due : ℕ → JobEntry V → Manager V → Bool
  is_due now entry m = elim entry.last_progress_emitted_at [
    | none ↦ true
    | some last ↦ leb (last + m.progress_throttle_ms) now
  ]

  -- `this.progressThrottleMs - (currentTime - entry.lastProgressEmittedAt)`, when not yet due.
  unfoldable pub remaining_delay : ℕ → JobEntry V → Manager V → ℕ
  remaining_delay now entry m = elim entry.last_progress_emitted_at [
    | none ↦ 0
    | some last ↦ m.progress_throttle_ms + last - now
  ]

  unfoldable pub schedule_progress : ℕ → JobEntry V → ℕ → Manager V → Manager V
  schedule_progress a entry delay m =
      if is_some entry.progress_timer
      then store a entry m
      else store a (record entry { progress_timer = some (max 1 delay) }) m

  unfoldable pub emit_progress : ℕ → JobEntry V → ℕ → Manager V → Manager V
  emit_progress a entry now m =
      emit (progress_event entry.job)
        (store a (record entry { last_progress_emitted_at = some now }) m)

  -- Emit now, or set the timer: the end of `reportProgress` and of the timer's callback.
  unfoldable pub emit_or_schedule : ℕ → JobEntry V → ℕ → Manager V → Manager V
  unfolding is_due remaining_delay schedule_progress emit_progress
  emit_or_schedule a entry now m =
      if is_due now entry m
      then emit_progress a entry now m
      else schedule_progress a entry (remaining_delay now entry m) m

  -- `reportProgress` after its guard, with what `normalizedProgress` gives.
  unfoldable pub accept_progress :
      ℕ → JobEntry V → Result JobManagerErrorCode JobProgress → ℕ → Manager V → Manager V × Outcome
  unfolding emit_or_schedule
  accept_progress a entry (err e) now m = (m, err e)
  accept_progress a entry (ok p) now m =
      (emit_or_schedule a (record entry { job = record (entry.job) { progress = p } }) now m, ok tt)

  -- `reportProgress`, called by the executor of the object at address `a`.
  unfoldable pub report_progress : ℕ → JobProgressInput → ℕ → Manager V → Manager V × Outcome
  unfolding accept_progress
  report_progress a progress now m = elim (get_elem? m.heap a) [
    | none ↦ (m, ok tt)
    | some entry ↦
        if m.disposed || entry.disposed || not (is_active entry.job.state)
        then (m, ok tt)
        else accept_progress a entry (normalized_progress progress) now m
  ]

  -- The callback of the timer.
  unfoldable pub progress_timer_fires : ℕ → ℕ → Manager V → Manager V
  unfolding emit_or_schedule
  progress_timer_fires a now m = elim (get_elem? m.heap a) [
    | none ↦ m
    | some entry ↦
        if m.disposed || entry.disposed || not (is_active entry.job.state)
        then store a (record entry { progress_timer = none }) m
        else emit_or_schedule a (record entry { progress_timer = none }) now m
  ]
