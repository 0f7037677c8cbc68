-- ===== src/Jobs/Preservation.antt =====
-- Every operation of the manager keeps the invariant.
use myadmin.Common.{
  ℕ, String, ◌≡◌, refl, ap, ◌≢◌, inl, inr, Bool, true, some, [], ◌∷◌, arith, nat_eq, string_eq,
  Option-cases, ok, err, get_elem?, bit, count_if, count_if-append, All-append, All-get,
}
use myadmin.Jobs.State.{
  JobState, queued, running, cancelling, cancelled, is_terminal, state_eq, can_transition_job,
}
use myadmin.Jobs.Progress.{job_invalid_transition, valid_text}
use myadmin.Jobs.Manager.{
  JobEntry, JobEvent, state_event, Manager, emit, store, moved, transition, empty_manager,
}
use myadmin.Jobs.Execution.{JobDefinition, settle, queued_entry, enqueue, submit}
use myadmin.Jobs.Cancellation.{abort, cancel_in, cancel_entry}
use myadmin.Jobs.Invariant.{
  holds_slot, IsEntryOk, IsCounted, Inv, store-IsCounted, emit-IsCounted, pump-Inv,
}

queued_entry_bit :
    (V : Type 0) (now : ℕ) (id : String) (d : JobDefinition)
    → count_if holds_slot (queued_entry {V = V} now id d ∷ []) ≡ 0
unfolding queued_entry
queued_entry_bit V now id d = refl

module _ {V : Type 0} where
  pub empty_manager-Inv : (c r t i : ℕ) → Inv {V = V} (empty_manager c r t i)
  unfolding empty_manager
  empty_manager-Inv c r t i = record {
    sound = record { entries_ok = tt; counted = refl; capped = omega arith };
    busy = inr (inl refl);
  }

  -- An object is rewritten, and the slot that it holds stays as it is.
  rewrite-IsCounted :
      (a : ℕ) (old new : JobEntry V) (m : Manager V)
      → IsCounted m
      → get_elem? m.heap a ≡ some old
      → IsEntryOk m.disposed new
      → holds_slot new ≡ holds_slot old
      → IsCounted (store a new m)
  unfolding store
  rewrite-IsCounted a old new m c g k s =
      store-IsCounted a m.running_count old new m c g k (omega (arith, ap bit s)) c.capped

  pub rewrite-Inv :
      (a : ℕ) (old new : JobEntry V) (m : Manager V)
      → Inv m
      → get_elem? m.heap a ≡ some old
      → IsEntryOk m.disposed new
      → holds_slot new ≡ holds_slot old
      → Inv (store a new m)
  rewrite-Inv a old new m v g k s = record {
    sound = rewrite-IsCounted a old new m v.sound g k s;
    busy = unfold store in v.busy;
  }

  pub ok_at :
      (a : ℕ) (e : JobEntry V) (m : Manager V)
      → IsCounted m
      → get_elem? m.heap a ≡ some e
      → IsEntryOk m.disposed e
  ok_at a e m c g = All-get (IsEntryOk m.disposed) m.heap a e c.entries_ok g

  pub emit-Inv : (ev : JobEvent V) (m : Manager V) → Inv m → Inv (emit ev m)
  emit-Inv ev m v = record { sound = emit-IsCounted ev m v.sound; busy = unfold emit in v.busy }

  queued_entry_ok :
      (gone : Bool) (now : ℕ) (id : String) (d : JobDefinition)
      → IsEntryOk {V = V} gone (queued_entry now id d)
  unfolding queued_entry is_terminal
  queued_entry_ok gone now id d = ground arith

  enqueue-IsCounted :
      (now : ℕ) (id : String) (d : JobDefinition) (m : Manager V)
      → IsCounted m
      → IsCounted (enqueue now id d m)
  unfolding enqueue
  enqueue-IsCounted now id d m c = emit-IsCounted _ _ (record {
    entries_ok =
        All-append (IsEntryOk m.disposed) m.heap _ c.entries_ok
          (queued_entry_ok m.disposed now id d, tt);
    counted = omega (
      arith,
      c.counted,
      count_if-append holds_slot m.heap (queued_entry now id d ∷ []),
      queued_entry_bit V now id d,
    );
    capped = c.capped;
  })

  pub submit-Inv :
      (now : ℕ) (id : String) (d : JobDefinition) (m : Manager V)
      → Inv m
      → Inv (submit now id d m).0 × ((submit now id d m).1 ≢ err job_invalid_transition)
  unfolding submit valid_text
  submit-Inv now id d m v =
      ground (arith, pump-Inv now (enqueue now id d m) (enqueue-IsCounted now id d m v.sound))

  pub settle-Inv : (a : ℕ) (m : Manager V) → Inv m → Inv (settle a m)
  unfolding settle
  settle-Inv a m v = elim (Option-cases (get_elem? m.heap a)) [
    | inl gone ↦ rw (gone, settle) v
    | inr (e, g) ↦
        let k = ok_at a e m v.sound g in
        rw (g, settle) (rewrite-Inv a e _ m v g (ground arith) refl)
  ]

  abort-IsCounted : (a : ℕ) (m : Manager V) → IsCounted m → IsCounted (abort a m)
  unfolding abort
  abort-IsCounted a m c = elim (Option-cases (get_elem? m.heap a)) [
    | inl gone ↦ rw (gone, abort) c
    | inr (e, g) ↦
        let k = ok_at a e m c g in rw (g, abort) (rewrite-IsCounted a e _ m c g (ground arith) refl)
  ]

  abort-Inv : (a : ℕ) (m : Manager V) → Inv m → Inv (abort a m)
  unfolding abort store
  abort-Inv a m v = record { sound = abort-IsCounted a m v.sound; busy = ground arith }

  pub transition_allowed :
      (a : ℕ) (e : JobEntry V) (next : JobState) (now : ℕ) (m : Manager V)
      → can_transition_job e.job.state next ≡ true
      → ((transition a e next now m).0
          ≡ emit
              (state_event (moved next now e.job))
              (store a (record e { job = moved next now e.job }) m))
        × ((transition a e next now m).1 ≡ ok tt)
  unfolding transition
  transition_allowed a e next now m h = ground arith

  module _ (a : ℕ) (e : JobEntry V) (m : Manager V) (g : get_elem? m.heap a ≡ some e) where
    cancel_queued-IsCounted :
        (now : ℕ)
        → e.job.state ≡ queued
        → IsCounted m
        → IsCounted (store a (record e { job = moved cancelled now e.job }) m)
    unfolding moved is_terminal
    cancel_queued-IsCounted now q c =
        let k = ok_at a e m c g in rewrite-IsCounted a e _ m c g (ground arith) (ground arith)

    cancel_running-Inv :
        (now : ℕ)
        → e.job.state ≡ running
        → Inv m
        → Inv (store a (record e { job = moved cancelling now e.job }) m)
    unfolding moved is_terminal
    cancel_running-Inv now r v =
        let k = ok_at a e m v.sound g in rewrite-Inv a e _ m v g (ground arith) (ground arith)

    cancel_in-Inv :
        (st : JobState) (now : ℕ)
        → e.job.state ≡ st
        → Inv m
        → Inv (cancel_in st a e now m).0 × ((cancel_in st a e now m).1 ≡ ok tt)
    unfolding cancel_in can_transition_job
    cancel_in-Inv queued now s v =
        let (t, o) = transition_allowed a e cancelled now m (rw s) in
        rw (o, cancel_in)
          (rw t (
            pump-Inv now _
              (abort-IsCounted a _ (emit-IsCounted _ _ (cancel_queued-IsCounted now s v.sound)))))
    cancel_in-Inv running now s v =
        let (t, o) = transition_allowed a e cancelling now m (rw s) in
        rw (o, cancel_in) (rw t (abort-Inv a _ (emit-Inv _ _ (cancel_running-Inv now s v)), refl))
    cancel_in-Inv _ now s v = (v, refl)

    pub cancel_entry-Inv :
        (now : ℕ)
        → Inv m
        → Inv (cancel_entry (some (a, e)) now m).0
          × ((cancel_entry (some (a, e)) now m).1 ≢ err job_invalid_transition)
    unfolding cancel_entry
    cancel_entry-Inv now v = ground (arith, cancel_in-Inv e.job.state now refl v)
