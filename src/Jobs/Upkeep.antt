-- ===== src/Jobs/Upkeep.antt =====
-- Cancelling by id, progress reports, the clean-up and the disposal keep the invariant.
use myadmin.Common.{
  ℕ, String, ◌≡◌, refl, ap, ◌≢◌, inl, inr, Bool, true, some, List, [], ◌∷◌, arith, nat_eq,
  string_eq, Bool-cases, Option-cases, is_some, ok, err, get_elem?, set, bit, count_if, All,
  count_if-set, All-get, All-set, All-imp, if_both,
}
use myadmin.Jobs.State.{state_eq}
use myadmin.Jobs.Progress.{JobProgressInput, job_invalid_transition, normalized_progress}
use myadmin.Jobs.Manager.{
  JobEntry, Manager, resolve_idle_waiters, entry_of, when_idle, subscribe, unsubscribe,
}
use myadmin.Jobs.Execution.{
  Outcome, clear_timer, clear_timers, cleanup, abandon, abandon_all, dispose,
}
use myadmin.Jobs.Cancellation.{cancel, cancel_for_owner}
use myadmin.Jobs.Reporting.{
  is_due, emit_or_schedule, accept_progress, report_progress, progress_timer_fires,
}
use myadmin.Jobs.Invariant.{holds_slot, IsEntryOk, Inv, entry_of-get}
use myadmin.Jobs.Preservation.{rewrite-Inv, ok_at, emit-Inv, cancel_entry-Inv}

module _ {V : Type 0} where
  -- Cancelling, whatever the id, keeps the invariant of the manager, and it is never refused for a
  -- transition that the table does not allow.
  pub cancel-Inv :
      (id : String) (now : ℕ) (m : Manager V)
      → Inv m
      → Inv (cancel id now m).0 × ((cancel id now m).1 ≢ err job_invalid_transition)
  unfolding cancel
  cancel-Inv id now m v = elim (Option-cases (entry_of id m)) [
    | inl gone ↦ rw (gone, cancel) (v, λ e. cc)
    | inr ((a, e), found) ↦
        rw (found, cancel) (cancel_entry-Inv a e m (entry_of-get id m a e found) now v)
  ]

  pub cancel_for_owner-Inv :
      (id owner : String) (now : ℕ) (m : Manager V)
      → Inv m
      → Inv (cancel_for_owner id owner now m).0
        × ((cancel_for_owner id owner now m).1 ≢ err job_invalid_transition)
  unfolding cancel_for_owner
  cancel_for_owner-Inv id owner now m v = elim (Option-cases (entry_of id m)) [
    | inl gone ↦ rw (gone, cancel_for_owner) (v, λ e. cc)
    | inr ((a, e), found) ↦
        rw (found, cancel_for_owner)
          (ground (arith, cancel_entry-Inv a e m (entry_of-get id m a e found) now v))
  ]

  -- Emitting or scheduling rewrites the object without touching what the invariant reads.
  emit_or_schedule-Inv :
      (a : ℕ) (old new : JobEntry V) (now : ℕ) (m : Manager V)
      → Inv m
      → get_elem? m.heap a ≡ some old
      → IsEntryOk m.disposed new
      → holds_slot new ≡ holds_slot old
      → Inv (emit_or_schedule a new now m)
  unfolding emit_or_schedule
  emit_or_schedule-Inv a old new now m v g k s = elim (Bool-cases (is_due now new m)) [
    | inl due ↦
        rw (due, emit_or_schedule) (emit-Inv _ _ (rewrite-Inv a old _ m v g (ground arith) s))
    | inr early ↦ elim (Bool-cases (is_some new.progress_timer)) [
      | inl armed ↦
          rw (early, emit_or_schedule)
            (rw (armed, emit_or_schedule) (rewrite-Inv a old new m v g k s))
      | inr idle ↦
          rw (early, emit_or_schedule)
            (rw (idle, emit_or_schedule) (rewrite-Inv a old _ m v g (ground arith) s))
    ]
  ]

  reported :
      (a : ℕ) (e : JobEntry V) (progress : JobProgressInput) (now : ℕ) (m : Manager V)
      → Inv m
      → get_elem? m.heap a ≡ some e
      → Inv (accept_progress a e (normalized_progress progress) now m).0
  unfolding accept_progress
  reported a e progress now m v g =
      elim (normalized_progress progress) as (λ r. Inv (accept_progress a e r now m).0) [
        | err x ↦ v
        | ok p ↦
            let k = ok_at a e m v.sound g in
            emit_or_schedule-Inv a e _ now m v g (ground arith) refl
      ]

  pub report_progress-Inv :
      (a : ℕ) (progress : JobProgressInput) (now : ℕ) (m : Manager V)
      → Inv m
      → Inv (report_progress a progress now m).0
  unfolding report_progress
  report_progress-Inv a progress now m v = elim (Option-cases (get_elem? m.heap a)) [
    | inl gone ↦ rw (gone, report_progress) v
    | inr (e, g) ↦
        rw (g, report_progress)
          (if_both (λ (r : Manager V × Outcome). Inv r.0) _ v (reported a e progress now m v g))
  ]

  pub progress_timer_fires-Inv :
      (a now : ℕ) (m : Manager V) → Inv m → Inv (progress_timer_fires a now m)
  unfolding progress_timer_fires
  progress_timer_fires-Inv a now m v = elim (Option-cases (get_elem? m.heap a)) [
    | inl gone ↦ rw (gone, progress_timer_fires) v
    | inr (e, g) ↦
        let k = ok_at a e m v.sound g in
        rw (g, progress_timer_fires)
          (if_both Inv _ (rewrite-Inv a e _ m v g (ground arith) refl)
            (emit_or_schedule-Inv a e _ now m v g (ground arith) refl))
  ]

  -- What the invariant says of the objects, for a number of held slots.
  abbrev HeapOk : Bool → ℕ → List (JobEntry V) → Type 0
  HeapOk gone n heap = All (IsEntryOk gone) heap × (n ≡ count_if holds_slot heap)

  rewrite-HeapOk :
      (gone : Bool) (n a : ℕ) (old new : JobEntry V) (heap : List (JobEntry V))
      → HeapOk gone n heap
      → get_elem? heap a ≡ some old
      → IsEntryOk gone new
      → holds_slot new ≡ holds_slot old
      → HeapOk gone n (set heap a new)
  rewrite-HeapOk gone n a old new heap h g k s = (
    All-set (IsEntryOk gone) heap a new h.0 k,
    omega (arith, h.1, count_if-set holds_slot heap a new old g, ap bit s),
  )

  clear_timers-HeapOk :
      (gone : Bool) (n : ℕ) (ps : List (String × ℕ)) (heap : List (JobEntry V))
      → HeapOk gone n heap
      → HeapOk gone n (clear_timers ps heap)
  unfolding clear_timers clear_timer
  clear_timers-HeapOk gone n [] heap h = h
  clear_timers-HeapOk gone n ((id, a) ∷ ps) heap h = elim (Option-cases (get_elem? heap a)) [
    | inl missing ↦ rw (missing, clear_timer) (clear_timers-HeapOk gone n ps heap h)
    | inr (e, g) ↦
        let k = All-get (IsEntryOk gone) heap a e h.0 g in
        rw (g, clear_timer)
          (clear_timers-HeapOk gone n ps (set heap a _)
            (rewrite-HeapOk gone n a e _ heap h g (ground arith) refl))
  ]

  pub cleanup-Inv : (now : ℕ) (m : Manager V) → Inv m → Inv (cleanup now m).0
  unfolding cleanup
  cleanup-Inv now m v =
      let (k, n) =
        clear_timers-HeapOk m.disposed m.running_count _ m.heap
          (v.sound.entries_ok, v.sound.counted) in
      record {
        sound = record { entries_ok = k; counted = n; capped = v.sound.capped };
        busy = v.busy;
      }

  abandon_all-HeapOk :
      (n : ℕ) (ps : List (String × ℕ)) (heap : List (JobEntry V))
      → HeapOk true n heap
      → HeapOk true n (abandon_all ps heap)
  unfolding abandon_all abandon
  abandon_all-HeapOk n [] heap h = h
  abandon_all-HeapOk n ((id, a) ∷ ps) heap h = elim (Option-cases (get_elem? heap a)) [
    | inl missing ↦ rw (missing, abandon) (abandon_all-HeapOk n ps heap h)
    | inr (e, g) ↦
        let k = All-get (IsEntryOk true) heap a e h.0 g in
        rw (g, abandon)
          (abandon_all-HeapOk n ps (set heap a _)
            (rewrite-HeapOk true n a e _ heap h g (ground arith) refl))
  ]

  gone_ok : (gone : Bool) (e : JobEntry V) → IsEntryOk gone e → IsEntryOk true e
  gone_ok gone e k = ground arith

  pub dispose-Inv : (m : Manager V) → Inv m → Inv (dispose m)
  unfolding dispose resolve_idle_waiters
  dispose-Inv m v =
      let alive =
        All-imp (IsEntryOk m.disposed) (IsEntryOk true) (gone_ok m.disposed) m.heap
          v.sound.entries_ok in
      let (k, n) = abandon_all-HeapOk m.running_count m.entries m.heap (alive, v.sound.counted) in
      if_both Inv m.disposed v (record {
        sound = record { entries_ok = k; counted = n; capped = v.sound.capped };
        busy = inl refl;
      })

  pub when_idle-Inv : (w : ℕ) (m : Manager V) → Inv m → Inv (when_idle w m)
  unfolding when_idle
  when_idle-Inv w m v = ground arith

  pub subscribe-Inv : (l : ℕ) (m : Manager V) → Inv m → Inv (subscribe l m)
  unfolding subscribe
  subscribe-Inv l m v = ground arith

  pub unsubscribe-Inv : (l : ℕ) (m : Manager V) → Inv m → Inv (unsubscribe l m)
  unfolding unsubscribe
  unsubscribe-Inv l m v = ground arith
