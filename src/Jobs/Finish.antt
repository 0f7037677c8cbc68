-- ===== src/Jobs/Finish.antt =====
-- The end of an execution gives its slot back, and no operation on one object loses count.
use myadmin.Common.{
  ℕ, ◌≡◌, refl, sym, ap, ◌∙◌, ◌⊎◌, inl, inr, true, false, ◌||◌, Option, none, some, arith, nat_eq,
  string_eq, text_eq, Bool-cases, ok, get_elem?, set, bit, get_elem?-set_self, count_if-set,
  set-set, set_self, All-get, All-set,
}
use myadmin.Jobs.State.{
  JobState, running, completed, failed, cancelling, cancelled, is_terminal, state_eq,
  can_transition_job,
}
use myadmin.Jobs.Progress.{Failure, Host}
use myadmin.Jobs.Manager.{JobEntry, JobEvent, state_event, Manager, emit, store, moved, transition}
use myadmin.Jobs.Execution.{
  Settled, fulfilled, rejected, on_fulfilled, on_rejected, with_result, with_error, release,
  after_await, resume,
}
use myadmin.Jobs.Invariant.{holds_slot, IsEntryOk, IsCounted, Inv, pump-Inv}

module _ {V : Type 0} where
  -- What the code between the `await` and the `finally` block leaves behind.
  pub record Ended (a : ℕ) (m m' : Manager V) : Type 0 where
    pub last : JobEntry V
    pub heap_eq : m'.heap ≡ set m.heap a last
    pub same_count : m'.running_count ≡ m.running_count
    pub same_concurrency : m'.concurrency ≡ m.concurrency
    pub same_disposed : m'.disposed ≡ m.disposed
    pub kept : last.released ≡ false
    pub closed : IsEntryOk m.disposed (record last { released = true; progress_timer = none })

  slot_state :
      (e : JobEntry V) → holds_slot e ≡ true → (e.job.state ≡ running) ⊎ (e.job.state ≡ cancelling)
  slot_state e h = ground arith

  slot_kept : (e : JobEntry V) → holds_slot e ≡ true → e.released ≡ false
  slot_kept e h = ground arith

  module _ (a : ℕ) (e : JobEntry V) (m : Manager V) (k : IsEntryOk m.disposed e)
      (g : get_elem? m.heap a ≡ some e) (h : holds_slot e ≡ true) where
    skipped-Ended : (m.disposed || e.disposed) ≡ true → Ended a m m
    skipped-Ended d = record {
      last = e;
      heap_eq = sym (set_self m.heap a e g);
      same_count = refl;
      same_concurrency = refl;
      same_disposed = refl;
      kept = ground arith;
      closed = ground arith;
    }

    -- The job moves to a terminal state.
    moved-Ended :
        (e' : JobEntry V) (next : JobState) (ev : JobEvent V) (now : ℕ)
        → is_terminal next ≡ true
        → e'.released ≡ false
        → e'.disposed ≡ e.disposed
        → Ended a m (emit ev (store a (record e' { job = moved next now e'.job }) m))
    unfolding emit store moved is_terminal
    moved-Ended e' next ev now t r d = record {
      last = record e' { job = moved next now e'.job };
      heap_eq = refl;
      same_count = refl;
      same_concurrency = refl;
      same_disposed = refl;
      kept = r;
      closed = ground arith;
    }

    with_result_lem :
        (value : Option V)
        → let e' = with_result value e in
          (e'.released ≡ e.released) × (e'.disposed ≡ e.disposed) × (e'.job.state ≡ e.job.state)
    unfolding with_result
    with_result_lem value = ground arith

    stored-Ended :
        (e' : JobEntry V) (next : JobState) (ev : JobEvent V) (now : ℕ)
        → is_terminal next ≡ true
        → e'.released ≡ false
        → e'.disposed ≡ e.disposed
        → Ended a m (emit ev (store a (record e' { job = moved next now e'.job }) (store a e' m)))
    unfolding emit store moved is_terminal
    stored-Ended e' next ev now t r d = record {
      last = record e' { job = moved next now e'.job };
      heap_eq = set-set m.heap a e' _;
      same_count = refl;
      same_concurrency = refl;
      same_disposed = refl;
      kept = r;
      closed = ground arith;
    }

    with_error_lem :
        (host : Host) (failure : Failure)
        → let e' = with_error host failure e in
          (e'.released ≡ e.released) × (e'.disposed ≡ e.disposed) × (e'.job.state ≡ e.job.state)
    unfolding with_error
    with_error_lem host failure = (refl, refl, refl)

    on_rejected-Ended :
        (host : Host) (failure : Failure) (now : ℕ)
        → let (m', outcome) = on_rejected host a e failure now m in Ended a m m' × (outcome ≡ ok tt)
    unfolding on_rejected transition can_transition_job
    on_rejected-Ended host failure now =
        let (r, d, st) = with_error_lem host failure in
        elim (Bool-cases (m.disposed || e.disposed)) [
          | inl gone ↦ simp gone (skipped-Ended gone, refl)
          | inr live ↦ elim (slot_state e h) [
            | inl run ↦
                simp (live, run, st)
                  (
                    stored-Ended (with_error host failure e) failed _ now
                        (unfold is_terminal in refl) (r ∙ slot_kept e h) d,
                    refl,
                  )
            | inr c ↦
                simp (live, c)
                  (
                    moved-Ended e cancelled (state_event (moved cancelled now e.job)) now
                        (unfold is_terminal in refl) (slot_kept e h) refl,
                    refl,
                  )
          ]
        ]

    on_fulfilled-Ended :
        (value : Option V) (now : ℕ)
        → let (m', outcome) = on_fulfilled a e value now m in Ended a m m' × (outcome ≡ ok tt)
    unfolding on_fulfilled transition can_transition_job
    on_fulfilled-Ended value now =
        let (r, d, st) = with_result_lem value in
        elim (Bool-cases (m.disposed || e.disposed)) [
          | inl gone ↦ simp gone (skipped-Ended gone, refl)
          | inr live ↦ elim (slot_state e h) [
            | inl run ↦
                simp (live, run, st)
                  (
                    stored-Ended (with_result value e) completed _ now (unfold is_terminal in refl)
                        (r ∙ slot_kept e h) d,
                    refl,
                  )
            | inr c ↦
                simp (live, c, st)
                  (
                    stored-Ended (with_result value e) cancelled _ now (unfold is_terminal in refl)
                        (r ∙ slot_kept e h) d,
                    refl,
                  )
          ]
        ]

    pub after_await-Ended :
        (host : Host) (outcome : Settled V) (now : ℕ)
        → let (m', thrown) = after_await host a e outcome now m in Ended a m m' × (thrown ≡ ok tt)
    unfolding after_await
    after_await-Ended host (rejected failure) now = on_rejected-Ended host failure now
    after_await-Ended host (fulfilled value) now =
        let (ended, done) = on_fulfilled-Ended value now in rw (done, after_await) (ended, refl)

  freed_bit :
      (e : JobEntry V) → bit (holds_slot (record e { released = true; progress_timer = none })) ≡ 0
  freed_bit e = ground arith

  -- The slot of an ended execution is given back.
  release-IsCounted :
      (a : ℕ) (e : JobEntry V) (m m' : Manager V)
      → IsCounted m
      → get_elem? m.heap a ≡ some e
      → holds_slot e ≡ true
      → Ended a m m'
      → IsCounted (release a m')
  unfolding release store
  release-IsCounted a e m m' c g h d =
      let found : get_elem? m'.heap a ≡ some d.last =
        rw d.heap_eq (get_elem?-set_self m.heap a d.last e g) in
      let freed : JobEntry V = record (d.last) { released = true; progress_timer = none } in
      rw (found, release)
        (simp d.kept (record {
          entries_ok =
              rw (d.same_disposed, d.heap_eq, set-set)
                (All-set (IsEntryOk m.disposed) m.heap a freed c.entries_ok d.closed);
          counted =
              rw (d.heap_eq, set-set)
                (omega (
                  arith,
                  d.same_count,
                  c.counted,
                  count_if-set holds_slot m.heap a freed e g,
                  ap bit h,
                  freed_bit d.last,
                ));
          capped = omega (arith, d.same_count, d.same_concurrency, c.capped);
        }))

  -- When the promise of a running executor settles, in whichever way and whatever became of its job
  -- meanwhile, the rest of `execute` does not throw and keeps the invariant of the manager.
  pub resume-Inv :
      (host : Host) (a : ℕ) (e : JobEntry V) (outcome : Settled V) (now : ℕ) (m : Manager V)
      → Inv m
      → get_elem? m.heap a ≡ some e
      → holds_slot e ≡ true
      → Inv (resume host a outcome now m).0 × ((resume host a outcome now m).1 ≡ ok tt)
  unfolding resume
  resume-Inv host a e outcome now m v g h =
      let k = All-get (IsEntryOk m.disposed) m.heap a e v.sound.entries_ok g in
      let (d, done) = after_await-Ended a e m k g h host outcome now in
      let (inv, pumped) = pump-Inv now _ (release-IsCounted a e m _ v.sound g h d) in
      rw (g, resume) (rw (pumped, resume) (inv, done))
