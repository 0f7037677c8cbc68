-- ===== src/Jobs/Steps.antt =====
-- The life of a manager as a step relation: callers, executors, timers and the clock interleave
-- freely, one turn of the event loop at a time.
use myadmin.Common.{ℕ, String, ◌≡◌, true, Option, some, arith, nat_eq, string_eq, Number, get_elem?}
use myadmin.Jobs.Progress.{JobProgressInput, Host}
use myadmin.Jobs.Manager.{JobEntry, Manager, when_idle, subscribe, unsubscribe, new_manager}
use myadmin.Jobs.Execution.{JobDefinition, Settled, settle, submit, resume, cleanup, dispose}
use myadmin.Jobs.Cancellation.{cancel, cancel_for_owner}
use myadmin.Jobs.Reporting.{report_progress, progress_timer_fires}
use myadmin.Jobs.Invariant.{holds_slot, Inv}
use myadmin.Jobs.Preservation.{submit-Inv, settle-Inv}
use myadmin.Jobs.Finish.{resume-Inv}
use myadmin.Jobs.Upkeep.{
  cancel-Inv, cancel_for_owner-Inv, report_progress-Inv, progress_timer_fires-Inv, cleanup-Inv,
  dispose-Inv, when_idle-Inv, subscribe-Inv, unsubscribe-Inv,
}

module _ {V : Type 0} where
  -- The promise of an executor settles once, while its job holds a slot; all else comes at any time.
  pub data Step (m : Manager V) : Manager V → Type 0 where
    submits : (now : ℕ) (id : String) (d : JobDefinition) → Step m (submit now id d m).0
    settles : (a : ℕ) → Step m (settle a m)
    resumes :
        (host : Host) (a : ℕ) (e : JobEntry V) (outcome : Settled V) (now : ℕ)
        → get_elem? m.heap a ≡ some e
        → holds_slot e ≡ true
        → Step m (resume host a outcome now m).0
    cancels : (id : String) (now : ℕ) → Step m (cancel id now m).0
    owner_cancels : (id owner : String) (now : ℕ) → Step m (cancel_for_owner id owner now m).0
    reports : (a : ℕ) (p : JobProgressInput) (now : ℕ) → Step m (report_progress a p now m).0
    fires : (a now : ℕ) → Step m (progress_timer_fires a now m)
    cleans : (now : ℕ) → Step m (cleanup now m).0
    disposes : Step m (dispose m)
    waits : (w : ℕ) → Step m (when_idle w m)
    listens : (l : ℕ) → Step m (subscribe l m)
    leaves : (l : ℕ) → Step m (unsubscribe l m)

  pub data Reach (m : Manager V) : Manager V → Type 0 where
    here : Reach m m
    next : {n k : Manager V} → Reach m n → Step n k → Reach m k

  Step-Inv : {m n : Manager V} → Step m n → Inv m → Inv n
  Step-Inv (submits now id d) v = (submit-Inv now id d _ v).0
  Step-Inv (settles a) v = settle-Inv a _ v
  Step-Inv (resumes host a e outcome now g h) v = (resume-Inv host a e outcome now _ v g h).0
  Step-Inv (cancels id now) v = (cancel-Inv id now _ v).0
  Step-Inv (owner_cancels id owner now) v = (cancel_for_owner-Inv id owner now _ v).0
  Step-Inv (reports a p now) v = report_progress-Inv a p now _ v
  Step-Inv (fires a now) v = progress_timer_fires-Inv a now _ v
  Step-Inv (cleans now) v = cleanup-Inv now _ v
  Step-Inv disposes v = dispose-Inv _ v
  Step-Inv (waits w) v = when_idle-Inv w _ v
  Step-Inv (listens l) v = subscribe-Inv l _ v
  Step-Inv (leaves l) v = unsubscribe-Inv l _ v

  new_manager-Inv : (c r t i : Option Number) {m : Manager V} → new_manager c r t i ≡ some m → Inv m
  unfolding new_manager
  new_manager-Inv c r t i h = ground arith

  Reach-Inv : {m n : Manager V} → Reach m n → Inv m → Inv n
  Reach-Inv here v = v
  Reach-Inv (next r s) v = Step-Inv s (Reach-Inv r v)

  -- Whatever callers, executors and timers do, a manager made by the constructor keeps its
  -- invariant: it counts the executors at work exactly, never runs more of them than its
  -- concurrency, and leaves no slot free while a job waits, unless it has been disposed of; and in
  -- every job the start time, the end time and the state agree.
  pub reachable-Inv :
      (c r t i : Option Number) {m n : Manager V} → new_manager c r t i ≡ some m → Reach m n → Inv n
  reachable-Inv c r t i h p = Reach-Inv p (new_manager-Inv c r t i h)
