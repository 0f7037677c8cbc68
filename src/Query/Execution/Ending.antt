-- ===== src/Query/Execution/Ending.antt =====
-- However an execution proceeds and is cancelled, how it ends.
use myadmin.Common.{
  ℕ, ◌≡◌, refl, sym, ap, subst, inl, inr, Bool, true, false, not, ◌&&◌, ◌||◌, some, List, [], ◌∷◌,
  ◌++◌, map, arith, nat_eq, string_eq, text_eq, Bool-cases, length, get_elem?, All, if_both,
}
use myadmin.Query.Execution.{
  ExecutionState, queued, running, completed, Execution, StatementSnapshot, Phase, waiting, opening,
  ended, executing, is_terminal_state, skip_unfinished, current_in_progress,
  finish_queued_cancellation, end_run, start_execution, run, cancel, cancel_rejected,
}
use myadmin.Query.Execution.Steps.{
  Step, turn, opened, not_opened, answered, rejected, asked, not_cancelled, Reachable, started,
  behind,
}
use myadmin.Query.Execution.Invariant.{
  Finished, IsDone, Busy, Idle, InvAt, Inv, run_failed-Inv, session_opened-Inv, statement_done-Inv,
  statement_failed-Inv,
}

get_elem?-middle :
    (before : List StatementSnapshot) (x : StatementSnapshot) (after : List StatementSnapshot)
    → get_elem? (before ++ x ∷ after) (length before) ≡ some x
get_elem?-middle [] x after = refl
get_elem?-middle (y ∷ before) x after = get_elem?-middle before x after

cancel-phase : (supported : Bool) (e : Execution) → (cancel supported e).phase ≡ e.phase
unfolding cancel finish_queued_cancellation
cancel-phase supported e =
    if_both (λ (x : Execution). x.phase ≡ e.phase)
      (is_terminal_state e.state || e.has_cancel_promise) refl
      (if_both (λ (x : Execution). x.phase ≡ e.phase)
        (not (e.has_session && current_in_progress e.current_index e.statements)) refl
        (if_both (λ (x : Execution). x.phase ≡ e.phase) (not supported) refl refl))

cancel-Idle :
    (state : ExecutionState) (supported : Bool) (e : Execution)
    → Idle state e
    → Idle state (cancel supported e)
unfolding cancel finish_queued_cancellation
cancel-Idle state supported e (empty, session, promise, none_yet, how) =
    elim (Bool-cases (is_terminal_state e.state || e.has_cancel_promise)) [
      | inl over ↦ rw over (empty, session, promise, none_yet, how)
      | inr going ↦
          rw (going, session)
            (ap (map skip_unfinished) empty, refl, promise, none_yet, inr (refl, refl))
    ]

current_at :
    (index : ℕ) (statements : List StatementSnapshot)
    → Busy index statements
    → current_in_progress (some index) statements ≡ true
current_at index statements (before, s, rest, split, n, now, dones, waits) =
    let found : get_elem? statements index ≡ some s =
      rw (split, sym n) (get_elem?-middle before s rest) in
    rw (found, now) refl

alive_ended :
    (e : Execution)
    → (is_terminal_state e.state || e.has_cancel_promise) ≡ false
    → (e.has_cancel_promise ≡ false → is_terminal_state e.state ≡ true)
    → ⊥
alive_ended e going settled = elim (Bool-cases e.has_cancel_promise) [
  | inl promised ↦ ground (arith, promised)
  | inr free ↦ ground (arith, free, settled free)
]

cancel-InvAt :
    (p : Phase) (supported : Bool) (e : Execution) → InvAt p e → InvAt p (cancel supported e)
unfolding cancel
cancel-InvAt waiting supported e h = cancel-Idle queued supported e h
cancel-InvAt opening supported e h = cancel-Idle running supported e h
cancel-InvAt (executing index) supported e ((session, none_yet, alive, calm), at, busy) =
    elim (Bool-cases (is_terminal_state e.state || e.has_cancel_promise)) [
      | inl over ↦ rw over ((session, none_yet, alive, calm), at, busy)
      | inr going ↦
          let runs : not (e.has_session && current_in_progress e.current_index e.statements)
              ≡ false =
            rw (session, at, current_at index e.statements busy) refl in
          rw (going, runs)
            (if_both (InvAt (executing index)) (not supported)
              ((session, none_yet, refl, λ h. (refl, refl)), at, busy)
              ((session, none_yet, refl, λ h. cc h), at, busy))
    ]
cancel-InvAt ended supported e (finished, once, settled, whole) =
    elim (Bool-cases (is_terminal_state e.state || e.has_cancel_promise)) [
      | inl over ↦ rw over (finished, once, settled, whole)
      | inr going ↦ absurd (alive_ended e going settled)
    ]

cancel-Inv : (supported : Bool) (e : Execution) → Inv e → Inv (cancel supported e)
cancel-Inv supported e inv =
    subst (λ p. InvAt p (cancel supported e)) (sym (cancel-phase supported e))
      (cancel-InvAt e.phase supported e inv)

cancel_rejected-InvAt :
    (p : Phase) (e : Execution)
    → e.has_cancel_promise ≡ true
    → InvAt p e
    → InvAt p (cancel_rejected e)
unfolding cancel_rejected
cancel_rejected-InvAt waiting e promised (empty, session, promise, none_yet, how) =
    absurd (ground (arith, promised, promise))
cancel_rejected-InvAt opening e promised (empty, session, promise, none_yet, how) =
    absurd (ground (arith, promised, promise))
cancel_rejected-InvAt (executing index) e promised ((session, none_yet, alive, calm), at, busy) =
    rw alive ((session, none_yet, refl, λ h. absurd (ground (arith, promised, h))), at, busy)
cancel_rejected-InvAt ended e promised (finished, once, settled, whole) =
    if_both (InvAt ended) (is_terminal_state e.state) (finished, once, settled, whole)
      (finished, once, λ h. absurd (ground (arith, promised, h)), λ h. cc h)

cancel_rejected-phase : (e : Execution) → (cancel_rejected e).phase ≡ e.phase
unfolding cancel_rejected
cancel_rejected-phase e =
    if_both (λ (x : Execution). x.phase ≡ e.phase) (is_terminal_state e.state) refl refl

run-Inv : (e : Execution) → Idle queued e → Inv (run e)
unfolding run end_run
run-Inv e (empty, session, promise, none_yet, inl (state, free)) =
    rw state (empty, session, promise, none_yet, inl (refl, free))
run-Inv e (empty, session, promise, none_yet, inr (state, requested)) =
    rw state (rw empty tt, rw none_yet refl, λ h. refl, λ h. cc h)

Step-Inv : (e e' : Execution) → Step e e' → Inv e → Inv e'
Step-Inv from to (turn e at) inv = run-Inv e (subst (λ p. InvAt p e) at inv)
Step-Inv from to (opened e source_offset cursor split at) inv =
    session_opened-Inv source_offset cursor split e (subst (λ p. InvAt p e) at inv)
Step-Inv from to (not_opened e at) inv =
    let (empty, session, promise, none_yet, how) = subst (λ p. InvAt p e) at inv in
    run_failed-Inv e empty none_yet
Step-Inv from to (answered e index at) inv =
    let (going, current, busy) = subst (λ p. InvAt p e) at inv in
    statement_done-Inv index e going busy
Step-Inv from to (rejected e index by_cancel at) inv =
    let (going, current, busy) = subst (λ p. InvAt p e) at inv in
    statement_failed-Inv index by_cancel e going busy
Step-Inv from to (asked e supported) inv = cancel-Inv supported e inv
Step-Inv from to (not_cancelled e promised) inv =
    subst (λ p. InvAt p (cancel_rejected e)) (sym (cancel_rejected-phase e))
      (cancel_rejected-InvAt e.phase e promised inv)

Reachable-Inv : (e : Execution) → Reachable e → Inv e
unfolding start_execution
Reachable-Inv e started = (refl, refl, refl, refl, inl (refl, refl))
Reachable-Inv e (behind from to r s) = Step-Inv from to s (Reachable-Inv from r)

-- However its parts and the calls of `cancel` interleave, an execution that has ended has no statement that
-- waits or runs, it was written to the history once, and it is completed, failed or cancelled, unless the
-- provider was asked to cancel a statement; and if it is completed, every statement is done.
pub Reachable-ended :
    (e : Execution)
    → Reachable e
    → e.phase ≡ ended
    → All Finished e.statements
      × (length e.history ≡ 1)
      × (e.has_cancel_promise ≡ false → is_terminal_state e.state ≡ true)
      × (e.state ≡ completed → All IsDone e.statements)
Reachable-ended e r at = subst (λ p. InvAt p e) at (Reachable-Inv e r)
