-- ===== src/Query/Execution/Steps.antt =====
-- What can happen to an execution: its own parts, in their order, and calls of `cancel` at any time.
use myadmin.Common.{ℕ, ◌≡◌, Bool, true, Option, List, nat_eq, string_eq, text_eq}
use myadmin.Query.Execution.{
  Execution, QueryStatement, waiting, opening, executing, start_execution, run, run_failed,
  session_opened, statement_done, statement_failed, cancel, cancel_rejected,
}

pub data Step : Execution → Execution → Type 0 where
  turn : (e : Execution) → e.phase ≡ waiting → Step e (run e)
  opened :
      (e : Execution) (source_offset : ℕ) (cursor : Option ℕ) (split : Option (List QueryStatement))
      → e.phase ≡ opening
      → Step e (session_opened source_offset cursor split e)
  not_opened : (e : Execution) → e.phase ≡ opening → Step e (run_failed e)
  answered :
      (e : Execution) (index : ℕ) → e.phase ≡ executing index → Step e (statement_done index e)
  rejected :
      (e : Execution) (index : ℕ) (by_cancel : Bool)
      → e.phase ≡ executing index
      → Step e (statement_failed index by_cancel e)
  asked : (e : Execution) (supported : Bool) → Step e (cancel supported e)
  not_cancelled : (e : Execution) → e.has_cancel_promise ≡ true → Step e (cancel_rejected e)

pub data Reachable : Execution → Type 0 where
  started : Reachable start_execution
  behind : (e e' : Execution) → Reachable e → Step e e' → Reachable e'
