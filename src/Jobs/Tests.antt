-- ===== src/Jobs/Tests.antt =====
-- Runs of the job manager, and the theorems of its modules at them.
use myadmin.Common.{
  ℕ, ◌≡◌, refl, ◌≢◌, none, some, [], ◌∷◌, map, nat_eq, string_eq, ok, err, nat, is_space, all_space,
  is_blank, get_elem?,
}
use myadmin.Jobs.State.{running, completed, is_terminal, can_transition_job, state_eq}
use myadmin.Jobs.Progress.{Host, job_invalid_transition, valid_text, initial_progress}
use myadmin.Jobs.Manager.{
  Manager, JobEntry, address_of, put_entry, emit, store, moved, transition, resolve_idle_waiters,
  entry_of, empty_manager, new_manager,
}
use myadmin.Jobs.Execution.{
  JobDefinition, fulfilled, start_next, pump_loop, pump, queued_entry, enqueue, submit, with_result,
  on_fulfilled, release, after_await, resume,
}
use myadmin.Jobs.Cancellation.{cancel}
use myadmin.Jobs.Invariant.{Inv}
use myadmin.Jobs.Preservation.{submit-Inv}
use myadmin.Jobs.Finish.{resume-Inv}
use myadmin.Jobs.Upkeep.{cancel-Inv}
use myadmin.Jobs.Steps.{submits, cancels, here, next, reachable-Inv}

abbrev plain_host : Host
plain_host = record { redact_text = λ s. s; to_upper_case = λ s. s }

abbrev one_slot : Manager ℕ
one_slot = empty_manager 1 1000 200 1000

abbrev export_rows : JobDefinition
export_rows = record { type = "export"; owner_user_id = "ana"; cancellable = none }

-- The first job runs and the second waits.
abbrev one_running : Manager ℕ
one_running = (submit 5 "a" export_rows one_slot).0

abbrev one_waiting : Manager ℕ
one_waiting = (submit 6 "b" export_rows one_running).0

abbrev first_entry : JobEntry ℕ
first_entry = record (queued_entry 5 "a" export_rows) {
  job = moved running 5 (queued_entry 5 "a" export_rows).job;
}

one_slot-new :
    new_manager (some (nat 1)) (some (nat 1000)) (some (nat 200)) (some (nat 1000)) ≡ some one_slot
unfolding new_manager empty_manager
one_slot-new = refl

one_slot-Inv : Inv one_slot
one_slot-Inv =
    reachable-Inv (some (nat 1)) (some (nat 1000)) (some (nat 200)) (some (nat 1000)) one_slot-new
      here

one_running-Inv : Inv one_running
one_running-Inv = (submit-Inv 5 "a" export_rows one_slot one_slot-Inv).0

one_waiting-Inv : Inv one_waiting
one_waiting-Inv = (submit-Inv 6 "b" export_rows one_running one_running-Inv).0

first_entry-found : get_elem? one_waiting.heap 0 ≡ some first_entry
unfolding submit enqueue valid_text is_blank all_space is_space pump pump_loop start_next entry_of
    address_of put_entry emit store moved is_terminal can_transition_job resolve_idle_waiters
    queued_entry initial_progress empty_manager transition
first_entry-found = refl

resume-Inv_example :
    Inv (resume plain_host 0 (fulfilled (some 7)) 9 one_waiting).0
    × ((resume plain_host 0 (fulfilled (some 7)) 9 one_waiting).1 ≡ ok tt)
resume-Inv_example =
    resume-Inv plain_host 0 first_entry (fulfilled (some 7)) 9 one_waiting one_waiting-Inv
      first_entry-found (unfold queued_entry moved in refl)

cancel-Inv_example :
    Inv (cancel "a" 8 one_waiting).0 × ((cancel "a" 8 one_waiting).1 ≢ err job_invalid_transition)
cancel-Inv_example = cancel-Inv "a" 8 one_waiting one_waiting-Inv

reachable-Inv_example : Inv (cancel "b" 8 one_waiting).0
reachable-Inv_example =
    reachable-Inv (some (nat 1)) (some (nat 1000)) (some (nat 200)) (some (nat 1000)) one_slot-new (
      next (next (next here (submits 5 "a" export_rows)) (submits 6 "b" export_rows))
        (cancels "b" 8))

-- The second job takes over the slot of the first one.
second_starts :
    map
      (λ (e : JobEntry ℕ). e.job.state)
      (resume plain_host 0 (fulfilled (some 7)) 9 one_waiting).0.heap
    ≡ completed ∷ running ∷ []
unfolding resume after_await on_fulfilled with_result release submit enqueue valid_text is_blank
    all_space is_space pump pump_loop start_next entry_of address_of put_entry emit store moved
    is_terminal can_transition_job resolve_idle_waiters queued_entry initial_progress empty_manager
    transition
second_starts = refl
