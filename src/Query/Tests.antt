-- ===== src/Query/Tests.antt =====
-- The theorems on query executions at concrete runs.
use myadmin.Common.{
  ◌≡◌, refl, true, false, none, some, [], ◌∷◌, nat_eq, string_eq, text_eq, length, All,
}
use myadmin.Query.Execution.{
  cancelling, completed, cancelled, Execution, QueryStatement, waiting, opening, ended, executing,
  is_terminal_state, finish_queued_cancellation, end_run, begin_statement, next_statement,
  start_execution, run, session_opened, statement_done, cancel,
}
use myadmin.Query.Execution.Steps.{turn, opened, answered, Reachable, started, behind}
use myadmin.Query.Execution.Invariant.{Finished, IsDone}
use myadmin.Query.Execution.Ending.{Reachable-ended}

abbrev select_one : QueryStatement
select_one = record { sql = "SELECT 1"; start_offset = 0; end_offset = 8 }

abbrev select_two : QueryStatement
select_two = record { sql = "SELECT 2"; start_offset = 9; end_offset = 17 }

-- The first execution up to the provider's answer.
abbrev asked_provider : Execution
asked_provider = session_opened 0 none (some (select_one ∷ select_two ∷ [])) (run start_execution)

abbrev one_answered : Execution
one_answered = statement_done 0 asked_provider

abbrev both_answered : Execution
both_answered = statement_done 1 one_answered

in_opening : (run start_execution).phase ≡ opening
unfolding run start_execution
in_opening = refl

in_first : asked_provider.phase ≡ executing 0
unfolding session_opened next_statement begin_statement run start_execution
in_first = refl

in_second : one_answered.phase ≡ executing 1
unfolding session_opened next_statement begin_statement run start_execution statement_done
in_second = refl

at_end : both_answered.phase ≡ ended
unfolding session_opened next_statement begin_statement run start_execution statement_done end_run
at_end = refl

start_phase : start_execution.phase ≡ waiting
unfolding start_execution
start_phase = refl

reached_first : Reachable asked_provider
reached_first =
    behind (run start_execution) asked_provider
      (behind start_execution (run start_execution) started (turn start_execution start_phase))
      (opened (run start_execution) 0 none (some (select_one ∷ select_two ∷ [])) in_opening)

reached_end : Reachable both_answered
reached_end =
    behind one_answered both_answered
      (behind asked_provider one_answered reached_first (answered asked_provider 0 in_first))
      (answered one_answered 1 in_second)

Reachable-ended_example :
    All Finished both_answered.statements
    × (length both_answered.history ≡ 1)
    × (both_answered.has_cancel_promise ≡ false → is_terminal_state both_answered.state ≡ true)
    × (both_answered.state ≡ completed → All IsDone both_answered.statements)
Reachable-ended_example = Reachable-ended both_answered reached_end at_end

-- A cancellation that comes while the last statement runs, which is answered all the same: the execution
-- has ended, and stays `cancelling`.
stays_cancelling :
    ((statement_done 1 (cancel true one_answered)).phase ≡ ended)
    × ((statement_done 1 (cancel true one_answered)).state ≡ cancelling)
unfolding session_opened next_statement begin_statement run start_execution statement_done end_run
    cancel finish_queued_cancellation
stays_cancelling = (refl, refl)

-- A cancellation that comes while a statement runs, which is answered all the same, ends the execution before the next one.
cancelled_between : (statement_done 0 (cancel true asked_provider)).state ≡ cancelled
unfolding session_opened next_statement begin_statement run start_execution statement_done end_run
    cancel finish_queued_cancellation
cancelled_between = refl
