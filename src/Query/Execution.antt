-- ===== src/Query/Execution.antt =====
-- apps/server/src/query/query-execution.ts: the life of one execution. `run` is cut at its waits: for
-- its turn, for the session, for the provider's answer to each statement; so is `cancel`.
pub mod Steps
pub mod Invariant
pub mod Ending
use myadmin.Common.{
  ℕ, zero, suc, ◌+◌, ◌-◌, ◌*◌, ◌/◌, ◌%◌, ◌^◌, ◌≤◌, ◌<◌, min, max, String, ◌≡◌, refl, sym, ap, subst,
  ◌∙◌, ◌≢◌, ◌↔◌, ◌⊎◌, inl, inr, Bool, true, false, not, ◌&&◌, ◌||◌, Option, none, some, List, [],
  ◌∷◌, ◌++◌, map, append_assoc, append-nil, arith, eq_iff, ltb, leb, if◌then◌else◌, ltb→lt, lt→ltb,
  leb→le, le→leb, Eq, ◌==◌, nat_eq, string_eq, text_eq, Bool-cases, Option-cases, is_some,
  or_default, Result, ok, err, ◌>>=◌, ◌>>◌, guard, Number, nat, neg, not_whole, max_safe_integer,
  codes, is_space, all_space, is_blank, units, utf16_length, length, get_elem?, set, any, all,
  filter, find?, bit, count_if, All, length-append, length-map, get_elem?-set_self,
  get_elem?-set_ne, count_if-set, set-set, set_self, count_if-append, All-append, All-get, All-set,
  All-imp, if_both, all_iff, find?-map, find?-sound, find?-map-none, All-filter, find?-append_none,
  any-eq-false, bit_le, pow-suc, mul_comm, mul_assoc, some-injective, Result-cases, map_option,
}

pub data ExecutionState : Type 0 where
  queued running cancelling completed failed cancelled : ExecutionState

pub data StatementState : Type 0 where
  pending in_progress done error skipped : StatementState

pub record QueryStatement : Type 0 where
  pub sql : String
  pub start_offset : ℕ
  pub end_offset : ℕ

pub record StatementSnapshot : Type 0 where
  pub sql : String
  pub start_offset : ℕ
  pub end_offset : ℕ
  pub state : StatementState

-- What the method `run` waits for.
pub data Phase : Type 0 where
  waiting opening ended : Phase
  executing : ℕ → Phase

-- `MutableExecution`, the states that were published, and those that were written to the history.
pub record Execution : Type 0 where
  pub state : ExecutionState
  pub statements : List StatementSnapshot
  pub current_index : Option ℕ
  pub cancel_requested : Bool
  pub has_cancel_promise : Bool
  pub has_session : Bool
  pub phase : Phase
  pub emitted : List ExecutionState
  pub history : List ExecutionState

abbrev pub is_terminal_state : ExecutionState → Bool
is_terminal_state completed = true
is_terminal_state failed = true
is_terminal_state cancelled = true
is_terminal_state queued = false
is_terminal_state running = false
is_terminal_state cancelling = false

abbrev pub is_running : ExecutionState → Bool
is_running running = true
is_running queued = false
is_running cancelling = false
is_running completed = false
is_running failed = false
is_running cancelled = false

abbrev pub is_cancelled : ExecutionState → Bool
is_cancelled cancelled = true
is_cancelled queued = false
is_cancelled running = false
is_cancelled cancelling = false
is_cancelled completed = false
is_cancelled failed = false

abbrev pub is_in_progress : StatementState → Bool
is_in_progress in_progress = true
is_in_progress pending = false
is_in_progress done = false
is_in_progress error = false
is_in_progress skipped = false

-- `pending` or `running`
abbrev pub is_unfinished : StatementState → Bool
is_unfinished pending = true
is_unfinished in_progress = true
is_unfinished done = false
is_unfinished error = false
is_unfinished skipped = false

abbrev pub contains_cursor : ℕ → QueryStatement → Bool
contains_cursor cursor s = leb s.start_offset cursor && leb cursor s.end_offset

abbrev pub last_statement : List QueryStatement → List QueryStatement
last_statement [] = []
last_statement (s ∷ []) = s ∷ []
last_statement (s ∷ (next ∷ rest)) = last_statement (next ∷ rest)

abbrev pub selected_or_last : Option QueryStatement → List QueryStatement → List QueryStatement
selected_or_last (some s) statements = s ∷ []
selected_or_last none statements = last_statement statements

unfoldable pub select_statement_at_cursor : List QueryStatement → ℕ → List QueryStatement
select_statement_at_cursor statements cursor =
    selected_or_last (find? (contains_cursor cursor) statements) statements

abbrev pub emit : Execution → Execution
emit e = record e { emitted = e.emitted ++ e.state ∷ [] }

abbrev pub skip_unfinished : StatementSnapshot → StatementSnapshot
skip_unfinished s = if is_unfinished s.state then record s { state = skipped } else s

unfoldable pub finish_queued_cancellation : Execution → Execution
finish_queued_cancellation e =
    emit (record e { statements = map skip_unfinished e.statements; state = cancelled })

-- What is set up by `start`, once the input is accepted.
unfoldable pub start_execution : Execution
start_execution = record {
  state = queued;
  statements = [];
  current_index = none;
  cancel_requested = false;
  has_cancel_promise = false;
  has_session = false;
  phase = waiting;
  emitted = queued ∷ [];
  history = [];
}

-- The `finally` of `run`, with `recordHistory`.
unfoldable pub end_run : Execution → Execution
end_run e = record (emit e) { phase = ended; history = e.history ++ e.state ∷ [] }

-- The turn of the execution has come.
unfoldable pub run : Execution → Execution
run e =
    if is_cancelled e.state then end_run e else emit (record e { state = running; phase = opening })

-- The `catch` of `run`.
unfoldable pub run_failed : Execution → Execution
run_failed e = end_run (emit (record e { state = failed }))

abbrev pub set_state : ℕ → StatementState → List StatementSnapshot → List StatementSnapshot
set_state index state [] = []
set_state zero state (s ∷ rest) = record s { state = state } ∷ rest
set_state (suc index) state (s ∷ rest) = s ∷ set_state index state rest

-- `for (const skipped of execution.statements.slice(index + 1)) skipped.state = 'skipped'`
abbrev pub skip_after : ℕ → List StatementSnapshot → List StatementSnapshot
skip_after index [] = []
skip_after zero (s ∷ rest) = s ∷ map (λ (x : StatementSnapshot). record x { state = skipped }) rest
skip_after (suc index) (s ∷ rest) = s ∷ skip_after index rest

-- A round of the loop up to the provider's answer.
unfoldable pub begin_statement : ℕ → Execution → Execution
begin_statement index e =
    let e' = emit (record e {
      current_index = some index;
      statements = set_state index in_progress e.statements;
    }) in
    if e.cancel_requested
    then end_run (finish_queued_cancellation e')
    else record e' { phase = executing index }

-- The head of the loop, and what follows it.
unfoldable pub next_statement : ℕ → Execution → Execution
next_statement index e =
    if ltb index (length e.statements)
    then begin_statement index e
    else end_run (if is_running e.state then record e { state = completed } else e)

abbrev pub pending_statement : ℕ → QueryStatement → StatementSnapshot
pending_statement source_offset s = record {
  sql = s.sql;
  start_offset = source_offset + s.start_offset;
  end_offset = source_offset + s.end_offset;
  state = pending;
}

-- The selected statements are known; there must be one.
abbrev pub run_selected : ℕ → List QueryStatement → Execution → Execution
run_selected source_offset [] e = run_failed e
run_selected source_offset (s ∷ rest) e =
    next_statement 0
      (emit (record e { statements = map (pending_statement source_offset) (s ∷ rest) }))

abbrev pub run_query : ℕ → Option ℕ → Option (List QueryStatement) → Execution → Execution
run_query source_offset cursor none e = run_failed e
run_query source_offset (some cursor) (some statements) e =
    run_selected source_offset (select_statement_at_cursor statements cursor) e
run_query source_offset none (some statements) e = run_selected source_offset statements e

-- The session is open. `split` is what the provider makes of the text, if it runs queries; a cursor is
-- given in the mode `statementAtCursor`.
unfoldable pub session_opened : ℕ → Option ℕ → Option (List QueryStatement) → Execution → Execution
session_opened source_offset cursor split e =
    let e' = record e { has_session = true } in
    if e.cancel_requested then end_run e' else run_query source_offset cursor split e'

unfoldable pub statement_done : ℕ → Execution → Execution
statement_done index e =
    next_statement (suc index) (emit (record e { statements = set_state index done e.statements }))

-- `by_cancel` says that the provider's error has the category `cancelled`.
unfoldable pub statement_failed : ℕ → Bool → Execution → Execution
statement_failed index by_cancel e = end_run (
    emit (record e {
      statements = skip_after index (set_state index error e.statements);
      state = if e.cancel_requested && by_cancel then cancelled else failed;
    }))

abbrev pub current_in_progress : Option ℕ → List StatementSnapshot → Bool
current_in_progress none statements = false
current_in_progress (some index) statements =
    or_default (map_option (λ s. is_in_progress s.state) (get_elem? statements index)) false

-- `cancel` up to its wait, on an execution of the caller's own: `supported` is the capability
-- `cancelQuery` of the provider.
unfoldable pub cancel : Bool → Execution → Execution
cancel supported e =
    if is_terminal_state e.state || e.has_cancel_promise
    then e
    else let e' = emit (record e { cancel_requested = true; state = cancelling }) in
      if not (e.has_session && current_in_progress e.current_index e.statements)
      then finish_queued_cancellation e'
      else if not supported
      then emit (record e' { cancel_requested = false; state = running })
      else record e' { has_cancel_promise = true }

-- The provider could not cancel.
unfoldable pub cancel_rejected : Execution → Execution
cancel_rejected e =
    if is_terminal_state e.state
    then e
    else emit (record e { cancel_requested = false; state = running })
