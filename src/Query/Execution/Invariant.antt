-- ===== src/Query/Execution/Invariant.antt =====
-- How an execution stands between two waits.
use myadmin.Common.{
  ℕ, zero, suc, ◌≡◌, refl, sym, ap, subst, ◌∙◌, ◌⊎◌, inl, inr, Bool, true, false, Option, none,
  some, List, [], ◌∷◌, ◌++◌, map, append_assoc, append-nil, arith, ltb, if◌then◌else◌, nat_eq,
  string_eq, text_eq, Bool-cases, length, All, length-append, All-append, All-imp,
}
use myadmin.Query.Execution.{
  ExecutionState, StatementState, queued, running, completed, cancelled, pending, in_progress, done,
  error, skipped, Execution, QueryStatement, StatementSnapshot, Phase, waiting, opening, ended,
  executing, is_terminal_state, is_unfinished, is_running, skip_unfinished, emit, set_state,
  skip_after, pending_statement, run_selected, run_query, select_statement_at_cursor,
  finish_queued_cancellation, end_run, begin_statement, next_statement, run_failed, session_opened,
  statement_done, statement_failed,
}

abbrev pub Finished : StatementSnapshot → Type 0
Finished s = is_unfinished s.state ≡ false

abbrev pub IsDone : StatementSnapshot → Type 0
IsDone s = s.state ≡ done

abbrev pub IsPending : StatementSnapshot → Type 0
IsPending s = s.state ≡ pending

-- The statements before `index` are done, and the others wait.
abbrev Ready : ℕ → List StatementSnapshot → Type 0
Ready index statements =
    (before : List StatementSnapshot) × (rest : List StatementSnapshot) × (statements
      ≡ before ++ rest)
    × (length before ≡ index)
    × All IsDone before
    × All IsPending rest

-- One statement runs, those before it are done, and those behind it wait.
abbrev pub Busy : ℕ → List StatementSnapshot → Type 0
Busy index statements =
    (before : List StatementSnapshot) × (current : StatementSnapshot) × (rest : List
      StatementSnapshot)
    × (statements ≡ before ++ current ∷ rest)
    × (length before ≡ index)
    × (current.state ≡ in_progress)
    × All IsDone before
    × All IsPending rest

-- A cancellation is requested exactly when the execution is cancelled already.
abbrev pub Idle : ExecutionState → Execution → Type 0
Idle state e =
    (e.statements ≡ [])
    × (e.has_session ≡ false)
    × (e.has_cancel_promise ≡ false)
    × (e.history ≡ [])
    × (((e.state ≡ state) × (e.cancel_requested ≡ false))
        ⊎ ((e.state ≡ cancelled) × (e.cancel_requested ≡ true)))

-- Between two waits of its loop.
abbrev pub Going : Execution → Type 0
Going e =
    (e.has_session ≡ true)
    × (e.history ≡ [])
    × (is_terminal_state e.state ≡ false)
    × (e.has_cancel_promise ≡ false → (e.state ≡ running) × (e.cancel_requested ≡ false))

abbrev pub InvAt : Phase → Execution → Type 0
InvAt waiting e = Idle queued e
InvAt opening e = Idle running e
InvAt (executing index) e = Going e × (e.current_index ≡ some index) × Busy index e.statements
InvAt ended e =
    All Finished e.statements
    × (length e.history ≡ 1)
    × (e.has_cancel_promise ≡ false → is_terminal_state e.state ≡ true)
    × (e.state ≡ completed → All IsDone e.statements)

abbrev pub Inv : Execution → Type 0
Inv e = InvAt e.phase e

skip_unfinished-Finished : (xs : List StatementSnapshot) → All Finished (map skip_unfinished xs)
skip_unfinished-Finished [] = tt
skip_unfinished-Finished (x ∷ xs) = (ground arith, skip_unfinished-Finished xs)

set_state_at :
    (before rest : List StatementSnapshot) (s : StatementSnapshot) (state : StatementState)
    (index : ℕ)
    → length before ≡ index
    → set_state index state (before ++ s ∷ rest) ≡ before ++ record s { state = state } ∷ rest
set_state_at [] rest s state zero e = refl
set_state_at [] rest s state (suc index) e = absurd (omega arith)
set_state_at (x ∷ before) rest s state zero e = absurd (omega arith)
set_state_at (x ∷ before) rest s state (suc index) e =
    ap (λ l. x ∷ l) (set_state_at before rest s state index (omega arith))

done-Finished : (xs : List StatementSnapshot) → All IsDone xs → All Finished xs
done-Finished xs = All-imp IsDone Finished (λ x h. rw h refl) xs

begin_statement-Inv :
    (index : ℕ) (before rest : List StatementSnapshot) (s : StatementSnapshot) (e : Execution)
    → e.statements ≡ before ++ s ∷ rest
    → length before ≡ index
    → All IsDone before
    → All IsPending rest
    → Going e
    → Inv (begin_statement index e)
unfolding begin_statement finish_queued_cancellation end_run
begin_statement-Inv index before rest s e split n dones waits (session, none_yet, alive, calm) =
    elim (Bool-cases e.cancel_requested) [
      | inl requested ↦ rw requested (
        skip_unfinished-Finished (set_state index in_progress e.statements),
        rw none_yet refl,
        λ h. refl,
        λ h. cc h,
      )
      | inr free ↦ rw free (
        (session, none_yet, alive, λ h. ((calm h).0, refl)),
        refl,
        (
          before,
          record s { state = in_progress },
          rest,
          (rw split (set_state_at before rest s in_progress index n)),
          n,
          refl,
          dones,
          waits,
        ),
      )
    ]

at_end :
    (e : Execution) {before : List StatementSnapshot}
    → e.statements ≡ before
    → All IsDone before
    → Going e
    → Inv (end_run (if is_running e.state then record e { state = completed } else e))
unfolding end_run
at_end e {before} split dones (session, none_yet, alive, calm) =
    elim (Bool-cases (is_running e.state)) [
      | inl going ↦ rw going (
        subst (All Finished) (sym split) (done-Finished before dones),
        rw none_yet refl,
        λ h. refl,
        λ h. subst (All IsDone) (sym split) dones,
      )
      | inr stopped ↦ rw stopped (
        subst (All Finished) (sym split) (done-Finished before dones),
        rw none_yet refl,
        λ h. cc (stopped, ap is_running (calm h).0),
        λ h. cc (alive),
      )
    ]

next_statement-Inv :
    (index : ℕ) (e : Execution) → Ready index e.statements → Going e → Inv (next_statement index e)
unfolding next_statement end_run
next_statement-Inv index e (before, [], split, n, dones, waits) going =
    let last : ltb index (length e.statements) ≡ false =
      ground (arith, ap length (split ∙ append-nil before), n) in
    rw last (at_end e (split ∙ append-nil before) dones going)
next_statement-Inv index e (before, s ∷ rest, split, n, dones, waits) going =
    let further : ltb index (length e.statements) ≡ true =
      ground (arith, ap length split, length-append before (s ∷ rest), n) in
    rw further (begin_statement-Inv index before rest s e split n dones waits.1 going)

pending_statement-IsPending :
    (source_offset : ℕ) (xs : List QueryStatement)
    → All IsPending (map (pending_statement source_offset) xs)
pending_statement-IsPending source_offset [] = tt
pending_statement-IsPending source_offset (x ∷ xs) =
    (refl, pending_statement-IsPending source_offset xs)

pub run_failed-Inv : (e : Execution) → e.statements ≡ [] → e.history ≡ [] → Inv (run_failed e)
unfolding run_failed end_run
run_failed-Inv e empty none_yet = (rw empty tt, rw none_yet refl, λ h. refl, λ h. rw empty tt)

run_selected-Inv :
    (source_offset : ℕ) (selected : List QueryStatement) (e : Execution)
    → e.statements ≡ []
    → e.has_session ≡ true
    → e.history ≡ []
    → e.state ≡ running
    → e.cancel_requested ≡ false
    → Inv (run_selected source_offset selected e)
run_selected-Inv source_offset [] e empty session none_yet state free =
    run_failed-Inv e empty none_yet
run_selected-Inv source_offset (s ∷ rest) e empty session none_yet state free =
    next_statement-Inv 0
      (emit (record e { statements = map (pending_statement source_offset) (s ∷ rest) }))
      (
        [],
        map (pending_statement source_offset) (s ∷ rest),
        refl,
        refl,
        tt,
        pending_statement-IsPending source_offset (s ∷ rest),
      )
      (session, none_yet, rw state refl, λ h. (state, free))

run_query-Inv :
    (source_offset : ℕ) (cursor : Option ℕ) (split : Option (List QueryStatement)) (e : Execution)
    → e.statements ≡ []
    → e.has_session ≡ true
    → e.history ≡ []
    → e.state ≡ running
    → e.cancel_requested ≡ false
    → Inv (run_query source_offset cursor split e)
run_query-Inv source_offset cursor none e empty session none_yet state free =
    run_failed-Inv e empty none_yet
run_query-Inv source_offset (some cursor) (some statements) e empty session none_yet state free =
    run_selected-Inv source_offset (select_statement_at_cursor statements cursor) e empty session
      none_yet state free
run_query-Inv source_offset none (some statements) e empty session none_yet state free =
    run_selected-Inv source_offset statements e empty session none_yet state free

pub session_opened-Inv :
    (source_offset : ℕ) (cursor : Option ℕ) (split : Option (List QueryStatement)) (e : Execution)
    → Idle running e
    → Inv (session_opened source_offset cursor split e)
unfolding session_opened end_run
session_opened-Inv source_offset cursor split e
      (empty, session, promise, none_yet, inr (state, requested)) =
    rw requested (rw empty tt, rw none_yet refl, λ h. rw state refl, λ h. cc (state, h))
session_opened-Inv source_offset cursor split e
      (empty, session, promise, none_yet, inl (state, free)) =
    rw free (
      run_query-Inv source_offset cursor split
        (record e { cancel_requested = false; has_session = true }) empty refl none_yet state refl)

pub statement_done-Inv :
    (index : ℕ) (e : Execution) → Going e → Busy index e.statements → Inv (statement_done index e)
unfolding statement_done
statement_done-Inv index e going (before, s, rest, split, n, now, dones, waits) =
    next_statement-Inv (suc index)
      (emit (record e { statements = set_state index done e.statements }))
      (
        before ++ record s { state = done } ∷ [],
        rest,
        (ap (set_state index done) split
            ∙ set_state_at before rest s done index n
            ∙ sym (append_assoc before (record s { state = done } ∷ []) rest)),
        (rw length-append (omega arith)),
        All-append IsDone before (record s { state = done } ∷ []) dones (refl, tt),
        waits,
      )
      going

skip_after_at :
    (before rest : List StatementSnapshot) (s : StatementSnapshot) (index : ℕ)
    → length before ≡ index
    → skip_after index (before ++ s ∷ rest)
      ≡ before ++ s ∷ map (λ (x : StatementSnapshot). record x { state = skipped }) rest
skip_after_at [] rest s zero e = refl
skip_after_at [] rest s (suc index) e = absurd (omega arith)
skip_after_at (x ∷ before) rest s zero e = absurd (omega arith)
skip_after_at (x ∷ before) rest s (suc index) e =
    ap (λ l. x ∷ l) (skip_after_at before rest s index (omega arith))

skipped-Finished :
    (xs : List StatementSnapshot)
    → All Finished (map (λ (x : StatementSnapshot). record x { state = skipped }) xs)
skipped-Finished [] = tt
skipped-Finished (x ∷ xs) = (refl, skipped-Finished xs)

skipped_list :
    (index : ℕ) (before rest : List StatementSnapshot) (s : StatementSnapshot) (e : Execution)
    → e.statements ≡ before ++ s ∷ rest
    → length before ≡ index
    → skip_after index (set_state index error e.statements)
      ≡ before
        ++ record s { state = error }
          ∷ map (λ (x : StatementSnapshot). record x { state = skipped }) rest
skipped_list index before rest s e split n =
    ap (skip_after index)
      (ap (set_state index error) split ∙ set_state_at before rest s error index n)
    ∙ skip_after_at before rest (record s { state = error }) index n

pub statement_failed-Inv :
    (index : ℕ) (by_cancel : Bool) (e : Execution)
    → Going e
    → Busy index e.statements
    → Inv (statement_failed index by_cancel e)
unfolding statement_failed end_run
statement_failed-Inv index by_cancel e (session, none_yet, alive, calm)
      (before, s, rest, split, n, now, dones, waits) =
    (
      subst (All Finished) (sym (skipped_list index before rest s e split n)) (
          All-append Finished before
            (record s { state = error }
              ∷ map (λ (x : StatementSnapshot). record x { state = skipped }) rest)
            (done-Finished before dones) (refl, skipped-Finished rest)),
      rw none_yet refl,
      λ h. ground arith,
      λ h. absurd (ground (arith, h)),
    )
