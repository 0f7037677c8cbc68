-- ===== src/Jobs/Progress.antt =====
-- packages/jobs/src/index.ts: what a job reports, and the errors of the manager.
use Prim.Native.String
use myadmin.Common.{
  ℕ, String, not, Option, none, some, ltb, leb, if◌then◌else◌, nat_eq, string_eq, Result, ok, err,
  ◌>>=◌, ◌>>◌, guard, Number, nat, neg, not_whole, max_safe_integer, is_blank,
}

pub record JobProgress : Type 0 where
  pub phase : String
  pub current : ℕ
  pub total : Option ℕ
  pub message : Option String

-- `JobProgressInput`, where nothing is known yet of the numbers.
pub record JobProgressInput : Type 0 where
  pub phase : String
  pub current : Number
  pub total : Option Number
  pub message : Option String

pub record JobError : Type 0 where
  pub code : String
  pub message : String

pub data JobManagerErrorCode : Type 0 where
  job_not_found job_not_cancellable job_already_finished job_invalid_transition :
      JobManagerErrorCode
  job_manager_disposed job_validation_failed : JobManagerErrorCode

unfoldable pub valid_text : String → Result JobManagerErrorCode (Unit {0})
valid_text value = guard (not (is_blank value)) job_validation_failed

-- A number that is a safe integer and at least 0.
abbrev pub safe_natural : Number → Option ℕ
safe_natural (nat n) = if leb n max_safe_integer then some n else none
safe_natural (neg n) = none
safe_natural not_whole = none

abbrev or_invalid : Option ℕ → Result JobManagerErrorCode ℕ
or_invalid none = err job_validation_failed
or_invalid (some n) = ok n

checked_total : ℕ → Option Number → Result JobManagerErrorCode (Option ℕ)
checked_total current none = ok none
checked_total current (some t) = do
  total ← or_invalid (safe_natural t)
  guard (not (ltb total current)) job_validation_failed
  ok (some total)

checked_message : Option String → Result JobManagerErrorCode (Unit {0})
unfolding valid_text
checked_message none = ok tt
checked_message (some message) = valid_text message

unfoldable pub normalized_progress : JobProgressInput → Result JobManagerErrorCode JobProgress
unfolding valid_text checked_total checked_message
normalized_progress progress = do
  valid_text progress.phase
  current ← or_invalid (safe_natural progress.current)
  total ← checked_total current progress.total
  checked_message progress.message
  ok (record {
    phase = progress.phase;
    current = current;
    total = total;
    message = progress.message;
  })

unfoldable pub initial_progress : JobProgress
initial_progress = record { phase = "queued"; current = 0; total = none; message = none }

-- What an executor throws: an error of a database provider, or anything else.
pub data Failure : Type 0 where
  db_failure : String → String → Failure
  other_failure : Failure

-- `Redaction.redactText` of packages/crypto and `String.prototype.toUpperCase`.
pub record Host : Type 0 where
  pub redact_text : String → String
  pub to_upper_case : String → String

unfoldable pub normalized_error : Host → Failure → JobError
normalized_error host (db_failure category message) = record {
  code = String.◌++◌ "DB_" (host.to_upper_case category);
  message = host.redact_text message;
}
normalized_error host other_failure = record {
  code = "JOB_EXECUTOR_FAILED";
  message = "The job could not be completed.";
}

-- `positiveInteger`: `none` is the thrown RangeError.
unfoldable pub positive_integer : Number → Option ℕ
positive_integer value = elim (safe_natural value) [
  | none ↦ none
  | some n ↦ if ltb n 1 then none else some n
]
