-- ===== src/Jobs/Execution.antt =====
-- packages/jobs/src/index.ts: submitting, starting, finishing and forgetting jobs. One operation
-- is one turn of the event loop and reads the clock once, as `now`.
use myadmin.Common.{
  ℕ, ◌+◌, ◌-◌, String, Bool, true, false, not, ◌&&◌, ◌||◌, Option, none, some, List, [], ◌∷◌, ◌++◌,
  ltb, leb, if◌then◌else◌, ◌==◌, nat_eq, string_eq, text_eq, or_default, Result, ok, err, length,
  get_elem?, set, filter,
}
use myadmin.Jobs.State.{
  queued, running, completed, failed, cancelling, cancelled, is_terminal, state_eq,
}
use myadmin.Jobs.Progress.{
  JobManagerErrorCode, job_manager_disposed, valid_text, initial_progress, other_failure, Failure,
  Host, normalized_error,
}
use myadmin.Jobs.Manager.{
  JobEntry, state_event, Manager, emit, store, transition, resolve_idle_waiters, entry_of,
  put_entry,
}

-- `JobDefinition`, less the executor: what that does comes in as later operations.
pub record JobDefinition : Type 0 where
  pub type : String
  pub owner_user_id : String
  pub cancellable : Option Bool

-- How the promise of an executor settles; a value may be `undefined`.
pub data Settled (V : Type 0) : Type 0 where
  fulfilled : Option V → Settled V
  rejected : Failure → Settled V

abbrev pub Outcome : Type 0
Outcome = Result JobManagerErrorCode (Unit {0})

module _ {V : Type 0} where
  -- One round of the loop in `pump`, with the id already shifted off the queue.
  unfoldable pub start_next : ℕ → String → Manager V → Manager V × Outcome
  start_next now id m = elim (entry_of id m) [
    | none ↦ (m, ok tt)
    | some (a, entry) ↦
        if entry.job.state == queued
        then transition a entry running now (record m { running_count = m.running_count + 1 })
        else (m, ok tt)
  ]

  -- The loop in `pump`, over the queue.
  unfoldable pub pump_loop : ℕ → List String → Manager V → Manager V × Outcome
  pump_loop now [] m = (resolve_idle_waiters (record m { queue = [] }), ok tt)
  pump_loop now (id ∷ rest) m = elim (ltb m.running_count m.concurrency) [
    | false ↦ (resolve_idle_waiters (record m { queue = id ∷ rest }), ok tt)
    | true ↦
        let (next, outcome) = start_next now id (record m { queue = rest }) in
        elim outcome [ ok _ ↦ pump_loop now rest next | err e ↦ (next, err e) ]
  ]

  unfoldable pub pump : ℕ → Manager V → Manager V × Outcome
  pump now m = if m.disposed then (m, ok tt) else pump_loop now m.queue m

  unfoldable pub queued_entry : ℕ → String → JobDefinition → JobEntry V
  queued_entry now id definition = record {
    job = record {
      id = id;
      type = definition.type;
      owner_user_id = definition.owner_user_id;
      state = queued;
      progress = initial_progress;
      result = none;
      error = none;
      created_at = now;
      started_at = none;
      ended_at = none;
      cancellable = or_default definition.cancellable true;
    };
    aborted = false;
    last_progress_emitted_at = none;
    progress_timer = none;
    execution_settled = false;
    released = false;
    disposed = false;
  }

  -- `submit` up to its `pump`: the object is made, and stands last in the queue.
  unfoldable pub enqueue : ℕ → String → JobDefinition → Manager V → Manager V
  enqueue now id definition m = emit (state_event (queued_entry now id definition).job) (record m {
    heap = m.heap ++ queued_entry now id definition ∷ [];
    entries = put_entry id (length m.heap) m.entries;
    queue = m.queue ++ id ∷ [];
  })

  -- `submit`, with the id that `createId` gives. On success the caller gets that id.
  unfoldable pub submit : ℕ → String → JobDefinition → Manager V → Manager V × Outcome
  submit now id definition m =
      if m.disposed then (m, err job_manager_disposed) else elim (valid_text definition.type) [
        | err e ↦ (m, err e)
        | ok _ ↦ elim (valid_text definition.owner_user_id) [
          | err e ↦ (m, err e)
          | ok _ ↦ pump now (enqueue now id definition m)
        ]
      ]

  -- The handlers that `execute` puts on the promise: they run before its own continuation.
  unfoldable pub settle : ℕ → Manager V → Manager V
  settle a m = elim (get_elem? m.heap a) [
    | none ↦ m
    | some entry ↦ store a (record entry { execution_settled = true }) m
  ]

  unfoldable pub with_result : Option V → JobEntry V → JobEntry V
  with_result none entry = entry
  with_result (some v) entry = record entry { job = record (entry.job) { result = some v } }

  unfoldable pub with_error : Host → Failure → JobEntry V → JobEntry V
  with_error host failure entry = record entry {
    job = record (entry.job) { error = some (normalized_error host failure) };
  }

  -- The `catch` block of `execute`.
  unfoldable pub on_rejected : Host → ℕ → JobEntry V → Failure → ℕ → Manager V → Manager V × Outcome
  on_rejected host a entry failure now m =
      if m.disposed || entry.disposed
      then (m, ok tt)
      else if entry.job.state == cancelling
      then transition a entry cancelled now m
      else let entry' = with_error host failure entry in
        transition a entry' failed now (store a entry' m)

  -- The rest of the `try` block of `execute`, after the promise is fulfilled. `cloneValue` gives
  -- an equal value.
  unfoldable pub on_fulfilled : ℕ → JobEntry V → Option V → ℕ → Manager V → Manager V × Outcome
  on_fulfilled a entry value now m =
      if m.disposed || entry.disposed
      then (m, ok tt)
      else let entry' = with_result value entry in
        let m' = store a entry' m in
        if entry.job.state == cancelling
        then transition a entry' cancelled now m'
        else if entry.job.state == running
        then transition a entry' completed now m'
        else (m', ok tt)

  -- The `finally` block of `execute`.
  unfoldable pub release : ℕ → Manager V → Manager V
  release a m = elim (get_elem? m.heap a) [
    | none ↦ m
    | some entry ↦
        if entry.released
        then store a (record entry { progress_timer = none }) m
        else record (store a (record entry { progress_timer = none; released = true }) m) {
          running_count = m.running_count - 1;
        }
  ]

  unfoldable pub after_await :
      Host → ℕ → JobEntry V → Settled V → ℕ → Manager V → Manager V × Outcome
  after_await host a entry (rejected failure) now m = on_rejected host a entry failure now m
  after_await host a entry (fulfilled value) now m =
      let (m', outcome) = on_fulfilled a entry value now m in
      elim outcome [
        | ok _ ↦ (m', ok tt)
        | err _ ↦ elim (get_elem? m'.heap a) [
          | none ↦ (m', ok tt)
          | some entry' ↦ on_rejected host a entry' other_failure now m'
        ]
      ]

  -- `execute` from the point where its `await` resumes, for the object at address `a`.
  unfoldable pub resume : Host → ℕ → Settled V → ℕ → Manager V → Manager V × Outcome
  resume host a outcome now m = elim (get_elem? m.heap a) [
    | none ↦ (m, ok tt)
    | some entry ↦
        let (m', thrown) = after_await host a entry outcome now m in
        let (m'', later) = pump now (release a m') in
        elim later [ ok _ ↦ (m'', thrown) | err e ↦ (m'', err e) ]
  ]

  -- One entry of the Map, in `cleanup`: `endedAt <= now - retentionMs`.
  unfoldable pub is_stale : ℕ → Manager V → ℕ → Bool
  is_stale now m a = elim (get_elem? m.heap a) [
    | none ↦ false
    | some entry ↦ elim entry.job.ended_at [
      | none ↦ false
      | some ended ↦ is_terminal entry.job.state && leb (ended + m.retention_ms) now
    ]
  ]

  unfoldable pub clear_timer : ℕ → List (JobEntry V) → List (JobEntry V)
  clear_timer a heap = elim (get_elem? heap a) [
    | none ↦ heap
    | some entry ↦ set heap a (record entry { progress_timer = none })
  ]

  unfoldable pub clear_timers : List (String × ℕ) → List (JobEntry V) → List (JobEntry V)
  clear_timers [] heap = heap
  clear_timers ((id, a) ∷ rest) heap = clear_timers rest (clear_timer a heap)

  -- `cleanup`, with the number of entries that it removes.
  unfoldable pub cleanup : ℕ → Manager V → Manager V × ℕ
  cleanup now m =
      let stale = filter (λ (p : String × ℕ). is_stale now m p.1) m.entries in
      (
        record m {
          entries = filter (λ p. not (is_stale now m p.1)) m.entries;
          heap = clear_timers stale m.heap;
        },
        length stale,
      )

  unfoldable pub abandon : ℕ → List (JobEntry V) → List (JobEntry V)
  abandon a heap = elim (get_elem? heap a) [
    | none ↦ heap
    | some entry ↦
        set heap a (record entry { disposed = true; aborted = true; progress_timer = none })
  ]

  unfoldable pub abandon_all : List (String × ℕ) → List (JobEntry V) → List (JobEntry V)
  abandon_all [] heap = heap
  abandon_all ((id, a) ∷ rest) heap = abandon_all rest (abandon a heap)

  unfoldable pub dispose : Manager V → Manager V
  dispose m =
      if m.disposed
      then m
      else resolve_idle_waiters (record m {
        disposed = true;
        queue = [];
        heap = abandon_all m.entries m.heap;
        entries = [];
        listeners = [];
      })
