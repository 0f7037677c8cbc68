-- ===== src/Jobs/Cancellation.antt =====
-- packages/jobs/src/index.ts: cancelling a job.
use myadmin.Common.{
  ℕ, String, true, not, ◌||◌, Option, none, some, if◌then◌else◌, ◌==◌, nat_eq, string_eq, ok, err,
  get_elem?,
}
use myadmin.Jobs.State.{
  JobState, queued, running, completed, failed, cancelling, cancelled, state_eq,
}
use myadmin.Jobs.Progress.{job_not_found, job_not_cancellable, job_already_finished}
use myadmin.Jobs.Manager.{JobEntry, Manager, store, transition, entry_of}
use myadmin.Jobs.Execution.{Outcome, pump}

module _ {V : Type 0} where
  -- `controller.abort()` on the object at an address.
  unfoldable pub abort : ℕ → Manager V → Manager V
  abort a m = elim (get_elem? m.heap a) [
    | none ↦ m
    | some entry ↦ store a (record entry { aborted = true }) m
  ]

  -- The branch of `cancelEntry` for each state.
  unfoldable pub cancel_in : JobState → ℕ → JobEntry V → ℕ → Manager V → Manager V × Outcome
  unfolding abort
  cancel_in queued a entry now m =
      let (m', outcome) = transition a entry cancelled now m in
      elim outcome [ ok _ ↦ pump now (abort a m') | err e ↦ (m', err e) ]
  cancel_in running a entry now m =
      let (m', outcome) = transition a entry cancelling now m in
      elim outcome [ ok _ ↦ (abort a m', ok tt) | err e ↦ (m', err e) ]
  cancel_in _ a entry now m = (m, ok tt)

  unfoldable pub cancel_entry : Option (ℕ × JobEntry V) → ℕ → Manager V → Manager V × Outcome
  cancel_entry none now m = (m, err job_not_found)
  cancel_entry (some (a, entry)) now m =
      if entry.disposed
      then (m, err job_not_found)
      else if not entry.job.cancellable
      then (m, err job_not_cancellable)
      else if entry.job.state == cancelled
      then (m, ok tt)
      else if (entry.job.state == completed) || (entry.job.state == failed)
      then (m, err job_already_finished)
      else if entry.execution_settled
      then (m, ok tt)
      else cancel_in entry.job.state a entry now m

  -- `cancel`. Its result, a copy of the job afterwards, is what `get` reads of the new state.
  unfoldable pub cancel : String → ℕ → Manager V → Manager V × Outcome
  unfolding cancel_entry
  cancel id now m = cancel_entry (entry_of id m) now m

  unfoldable pub cancel_for_owner : String → String → ℕ → Manager V → Manager V × Outcome
  unfolding cancel_entry
  cancel_for_owner id owner now m = elim (entry_of id m) [
    | none ↦ (m, err job_not_found)
    | some (a, entry) ↦
        if entry.job.owner_user_id == owner
        then cancel_entry (some (a, entry)) now m
        else (m, err job_not_found)
  ]
