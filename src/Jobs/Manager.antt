-- ===== src/Jobs/Manager.antt =====
-- packages/jobs/src/index.ts: the records of the manager, and the steps that all its operations
-- share. An entry is an object: `heap` holds the objects by address, in the order in which `submit`
-- makes them, and `entries` is the Map from ids to them. A closure of a running executor holds an
-- address, also after the Map has forgotten the id. Dates are numbers of milliseconds.
use myadmin.Common.{
  ℕ, min, String, Bool, false, not, ◌&&◌, ◌||◌, Option, none, some, List, [], ◌∷◌, ◌++◌, map, ltb,
  if◌then◌else◌, ◌==◌, nat_eq, string_eq, or_default, Result, ok, err, Number, nat, length,
  get_elem?, set, any, filter,
}
use myadmin.Jobs.State.{JobState, running, can_transition_job, is_terminal, state_eq}
use myadmin.Jobs.Progress.{
  JobProgress, JobError, JobManagerErrorCode, job_invalid_transition, positive_integer,
}

pub record Job (V : Type 0) : Type 0 where
  pub id : String
  pub type : String
  pub owner_user_id : String
  pub state : JobState
  pub progress : JobProgress
  pub result : Option V
  pub error : Option JobError
  pub created_at : ℕ
  pub started_at : Option ℕ
  pub ended_at : Option ℕ
  pub cancellable : Bool

-- `last_progress_emitted_at` is `none` for minus infinity; `progress_timer` is the delay of the
-- timer that is set; `aborted` is the state of the abort controller.
pub record JobEntry (V : Type 0) : Type 0 where
  pub job : Job V
  pub aborted : Bool
  pub last_progress_emitted_at : Option ℕ
  pub progress_timer : Option ℕ
  pub execution_settled : Bool
  pub released : Bool
  pub disposed : Bool

pub data JobEvent (V : Type 0) : Type 0 where
  state_event progress_event : Job V → JobEvent V

-- `delivered` logs each call of a listener, and `resolved` the waiters that `whenIdle` has woken.
pub record Manager (V : Type 0) : Type 0 where
  pub heap : List (JobEntry V)
  pub entries : List (String × ℕ)
  pub queue : List String
  pub listeners : List ℕ
  pub delivered : List (ℕ × JobEvent V)
  pub concurrency : ℕ
  pub retention_ms : ℕ
  pub progress_throttle_ms : ℕ
  pub cleanup_interval_ms : ℕ
  pub idle_waiters : List ℕ
  pub resolved : List ℕ
  pub running_count : ℕ
  pub disposed : Bool

-- `entries.get`
unfoldable pub address_of : String → List (String × ℕ) → Option ℕ
address_of id [] = none
address_of id ((key, a) ∷ rest) = if key == id then some a else address_of id rest

-- `entries.set`: a key that is there keeps its place.
unfoldable pub put_entry : String → ℕ → List (String × ℕ) → List (String × ℕ)
put_entry id a [] = (id, a) ∷ []
put_entry id a ((key, b) ∷ rest) =
    if key == id then (key, a) ∷ rest else (key, b) ∷ put_entry id a rest

module _ {V : Type 0} where
  -- `emit`: every listener is called, in turn. A listener that throws is logged and passed over.
  unfoldable pub emit : JobEvent V → Manager V → Manager V
  emit event m = record m {
    delivered = m.delivered ++ map (λ listener. (listener, event)) m.listeners;
  }

  -- The object at an address is replaced.
  unfoldable pub store : ℕ → JobEntry V → Manager V → Manager V
  store a entry m = record m { heap = set m.heap a entry }

  -- The fields that `transition` writes.
  unfoldable pub moved : JobState → ℕ → Job V → Job V
  moved next now job = record job {
    state = next;
    started_at = if next == running then some now else job.started_at;
    ended_at = if is_terminal next then some now else job.ended_at;
  }

  -- `transition` on the object `entry` at address `a`. A refusal throws before any write.
  unfoldable pub transition :
      ℕ → JobEntry V → JobState → ℕ → Manager V → Manager V × Result JobManagerErrorCode (Unit {0})
  unfolding emit store moved
  transition a entry next now m =
      if can_transition_job entry.job.state next
      then (
        emit (state_event (moved next now entry.job))
            (store a (record entry { job = moved next now entry.job }) m),
        ok tt,
      )
      else (m, err job_invalid_transition)

  unfoldable pub resolve_idle_waiters : Manager V → Manager V
  resolve_idle_waiters m =
      if not m.disposed && (ltb 0 (length m.queue) || ltb 0 m.running_count)
      then m
      else record m { resolved = m.resolved ++ m.idle_waiters; idle_waiters = [] }

  -- The object behind an id, with its address.
  unfoldable pub entry_of : String → Manager V → Option (ℕ × JobEntry V)
  unfolding address_of
  entry_of id m = elim (address_of id m.entries) [
    | none ↦ none
    | some a ↦ elim (get_elem? m.heap a) [ none ↦ none | some entry ↦ some (a, entry) ]
  ]

  unfoldable pub get : String → Manager V → Option (Job V)
  unfolding entry_of
  get id m = elim (entry_of id m) [ none ↦ none | some (a, entry) ↦ some entry.job ]

  unfoldable pub get_for_owner : String → String → Manager V → Option (Job V)
  unfolding entry_of
  get_for_owner id owner m = elim (entry_of id m) [
    | none ↦ none
    | some (a, entry) ↦ if entry.job.owner_user_id == owner then some entry.job else none
  ]

  -- `subscribe`, and the function that it returns. A listener stands once in the Set.
  unfoldable pub subscribe : ℕ → Manager V → Manager V
  subscribe listener m =
      if m.disposed || any (λ l. l == listener) m.listeners
      then m
      else record m { listeners = m.listeners ++ listener ∷ [] }

  unfoldable pub unsubscribe : ℕ → Manager V → Manager V
  unsubscribe listener m = record m { listeners = filter (λ l. not (l == listener)) m.listeners }

  -- `whenIdle`: the waiter is resolved at once, or kept.
  unfoldable pub when_idle : ℕ → Manager V → Manager V
  when_idle waiter m =
      if m.disposed || (not (ltb 0 (length m.queue)) && (m.running_count == 0))
      then record m { resolved = m.resolved ++ waiter ∷ [] }
      else record m { idle_waiters = m.idle_waiters ++ waiter ∷ [] }

  unfoldable pub empty_manager : ℕ → ℕ → ℕ → ℕ → Manager V
  empty_manager c r t i = record {
    heap = [];
    entries = [];
    queue = [];
    listeners = [];
    delivered = [];
    concurrency = c;
    retention_ms = r;
    progress_throttle_ms = t;
    cleanup_interval_ms = i;
    idle_waiters = [];
    resolved = [];
    running_count = 0;
    disposed = false;
  }

  -- The constructor, with its defaults; `none` is the thrown RangeError.
  unfoldable pub new_manager :
      Option Number → Option Number → Option Number → Option Number → Option (Manager V)
  unfolding positive_integer empty_manager
  new_manager concurrency retention throttle cleanup =
      elim (positive_integer (or_default concurrency (nat 4))) [
        | none ↦ none
        | some c ↦ elim (positive_integer (or_default retention (nat 3_600_000))) [
          | none ↦ none
          | some r ↦ elim (positive_integer (or_default throttle (nat 200))) [
            | none ↦ none
            | some t ↦ elim (positive_integer (or_default cleanup (nat (min r 60_000)))) [
              | none ↦ none
              | some i ↦ some (empty_manager c r t i)
            ]
          ]
        ]
      ]
