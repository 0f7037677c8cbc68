-- ===== src/Jobs/Invariant.antt =====
-- What holds of a job manager between two operations.
use myadmin.Common.{
  ℕ, ◌+◌, ◌≤◌, ◌<◌, String, ◌≡◌, refl, ◌∙◌, ◌⊎◌, inl, inr, Bool, true, false, not, ◌&&◌, none, some,
  List, [], ◌∷◌, arith, ltb, ltb→lt, nat_eq, string_eq, Bool-cases, Option-cases, is_some, ok,
  get_elem?, bit, count_if, All, count_if-set, All-get, All-set,
}
use myadmin.Jobs.State.{
  queued, running, is_terminal, state_eq, state_beq, is_active, can_transition_job,
}
use myadmin.Jobs.Manager.{
  JobEntry, JobEvent, Manager, emit, store, moved, transition, resolve_idle_waiters, entry_of,
}
use myadmin.Jobs.Execution.{start_next, pump_loop, pump}

module _ {V : Type 0} where
  -- The executor of the job holds one of the slots.
  abbrev pub holds_slot : JobEntry V → Bool
  holds_slot e = is_active e.job.state && not e.released

  -- `gone` says that the manager has been disposed of.
  pub record IsEntryOk (gone : Bool) (e : JobEntry V) : Type 0 where
    pub waiting : e.job.state ≡ queued → (e.job.started_at ≡ none) × (e.released ≡ false)
    pub working : is_active e.job.state ≡ true → is_some e.job.started_at ≡ true
    pub unfinished : is_terminal e.job.state ≡ false → e.job.ended_at ≡ none
    pub finished : is_terminal e.job.state ≡ true → is_some e.job.ended_at ≡ true
    pub held : is_active e.job.state ≡ true → e.released ≡ true → gone ≡ true
    pub dead : e.disposed ≡ true → gone ≡ true

  -- The part of the invariant that also holds within an operation.
  pub record IsCounted (m : Manager V) : Type 0 where
    pub entries_ok : All (IsEntryOk m.disposed) m.heap
    pub counted : m.running_count ≡ count_if holds_slot m.heap
    pub capped : m.running_count ≤ m.concurrency

  -- No slot is free while a job waits.
  abbrev pub IsBusy : Manager V → Type 0
  IsBusy m = (m.disposed ≡ true) ⊎ (m.queue ≡ []) ⊎ (m.running_count ≡ m.concurrency)

  pub record Inv (m : Manager V) : Type 0 where
    pub sound : IsCounted m
    pub busy : IsBusy m

  pub entry_of-get :
      (id : String) (m : Manager V) (a : ℕ) (e : JobEntry V)
      → entry_of id m ≡ some (a, e)
      → get_elem? m.heap a ≡ some e
  unfolding entry_of
  entry_of-get id m a e h = ground arith

  -- Writing an object changes the count of held slots by what the object itself changes.
  pub store-IsCounted :
      (a n : ℕ) (old new : JobEntry V) (m : Manager V)
      → IsCounted m
      → get_elem? m.heap a ≡ some old
      → IsEntryOk m.disposed new
      → n + bit (holds_slot old) ≡ m.running_count + bit (holds_slot new)
      → n ≤ m.concurrency
      → IsCounted (record (store a new m) { running_count = n })
  unfolding store
  store-IsCounted a n old new m c g k e l = record {
    entries_ok = All-set (IsEntryOk m.disposed) m.heap a new c.entries_ok k;
    counted = omega (arith, c.counted, count_if-set holds_slot m.heap a new old g);
    capped = l;
  }

  pub moved-running_ok :
      (gone : Bool) (now : ℕ) (e : JobEntry V)
      → IsEntryOk gone e
      → e.job.state ≡ queued
      → IsEntryOk gone (record e { job = moved running now e.job })
  unfolding moved is_terminal
  moved-running_ok gone now e k q = ground arith

  -- A round of `pump` never fails, and takes at most one slot.
  pub record Started (m m' : Manager V) : Type 0 where
    pub sound : IsCounted m'
    pub same_concurrency : m'.concurrency ≡ m.concurrency
    pub same_disposed : m'.disposed ≡ m.disposed
    pub same_queue : m'.queue ≡ m.queue

  -- `emit` writes only the log.
  pub emit-IsCounted : (ev : JobEvent V) (m : Manager V) → IsCounted m → IsCounted (emit ev m)
  unfolding emit
  emit-IsCounted ev m c = record {
    entries_ok = c.entries_ok;
    counted = c.counted;
    capped = c.capped;
  }

  requeue-IsCounted :
      (q : List String) (m : Manager V) → IsCounted m → IsCounted (record m { queue = q })
  requeue-IsCounted q m c = record {
    entries_ok = c.entries_ok;
    counted = c.counted;
    capped = c.capped;
  }

  start-Started :
      (now a : ℕ) (e : JobEntry V) (m : Manager V)
      → IsCounted m
      → m.running_count < m.concurrency
      → get_elem? m.heap a ≡ some e
      → e.job.state ≡ queued
      → IsEntryOk m.disposed e
      → let (m', outcome) =
          transition a e running now (record m { running_count = m.running_count + 1 }) in
        Started m m' × (outcome ≡ ok tt)
  unfolding transition can_transition_job
  start-Started now a e m c free g q ok_e = rw q (
    record {
      sound = emit-IsCounted _ _ (
          store-IsCounted a (m.running_count + 1) e _ m c g
            (moved-running_ok m.disposed now e ok_e q)
            (unfold moved in ground (arith, ok_e.waiting q)) (omega arith));
      same_concurrency = refl;
      same_disposed = refl;
      same_queue = refl;
    },
    refl,
  )

  pub start_next-Started :
      (now : ℕ) (id : String) (m : Manager V)
      → IsCounted m
      → m.running_count < m.concurrency
      → Started m (start_next now id m).0 × ((start_next now id m).1 ≡ ok tt)
  unfolding start_next
  start_next-Started now id m c free = elim (Option-cases (entry_of id m)) [
    | inl gone ↦ rw (gone, start_next) (unchanged, refl)
    | inr ((a, e), found) ↦
        rw (found, start_next)
          (elim (Bool-cases (state_beq e.job.state queued)) [
            | inl q ↦ rw q (
                start-Started now a e m c free (entry_of-get id m a e found) (ground arith) (
                  All-get (IsEntryOk m.disposed) m.heap a e c.entries_ok
                    (entry_of-get id m a e found)))
            | inr no_job ↦ rw no_job (unchanged, refl)
          ])
  ]
    where
      unchanged : Started m m
      unchanged = record {
        sound = c;
        same_concurrency = refl;
        same_disposed = refl;
        same_queue = refl;
      }

  resolve-IsCounted : (m : Manager V) → IsCounted m → IsCounted (resolve_idle_waiters m)
  unfolding resolve_idle_waiters
  resolve-IsCounted m c = ground arith

  -- The loop ends with the queue empty or no slot free, and never throws.
  pub record Pumped (m m' : Manager V) : Type 0 where
    pub sound : IsCounted m'
    pub busy : (m'.queue ≡ []) ⊎ (m'.running_count ≡ m'.concurrency)
    pub same_concurrency : m'.concurrency ≡ m.concurrency
    pub same_disposed : m'.disposed ≡ m.disposed

  stop-Pumped :
      (m : Manager V) (q : List String)
      → IsCounted m
      → (q ≡ []) ⊎ (m.running_count ≡ m.concurrency)
      → Pumped m (resolve_idle_waiters (record m { queue = q }))
  unfolding resolve_idle_waiters
  stop-Pumped m q c b = ground arith

  pump_loop-Pumped :
      (now : ℕ) (q : List String) (m : Manager V)
      → IsCounted m
      → Pumped m (pump_loop now q m).0 × ((pump_loop now q m).1 ≡ ok tt)
  unfolding pump_loop
  pump_loop-Pumped now [] m c = (stop-Pumped m [] c (inl refl), refl)
  pump_loop-Pumped now (id ∷ rest) m c = elim (Bool-cases (ltb m.running_count m.concurrency)) [
    | inr full ↦ rw (full, pump_loop) (stop-Pumped m (id ∷ rest) c (inr (ground arith)), refl)
    | inl free ↦
        let m' : Manager V = record m { queue = rest } in
        let (s, e) = start_next-Started now id m' (requeue-IsCounted rest m c) (ltb→lt _ _ free) in
        let (p, o) = pump_loop-Pumped now rest (start_next now id m').0 s.sound in
        rw (free, pump_loop)
          (rw (e, pump_loop)
            (
              record {
                sound = p.sound;
                busy = p.busy;
                same_concurrency = p.same_concurrency ∙ s.same_concurrency;
                same_disposed = p.same_disposed ∙ s.same_disposed;
              },
              o,
            ))
  ]

  -- `pump` never throws, and leaves no slot free while a job waits.
  pub pump-Inv :
      (now : ℕ) (m : Manager V) → IsCounted m → Inv (pump now m).0 × ((pump now m).1 ≡ ok tt)
  unfolding pump
  pump-Inv now m c = elim (Bool-cases m.disposed) [
    | inl gone ↦ simp gone (record { sound = c; busy = inl gone }, refl)
    | inr live ↦
        let (p, o) = pump_loop-Pumped now m.queue m c in
        simp live (record { sound = p.sound; busy = inr p.busy }, o)
  ]
