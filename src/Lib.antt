-- ===== src/Lib.antt =====
-- MyAdmin: a web application that administers PostgreSQL and MySQL servers. A server (apps/server)
-- serves a client (apps/web); both stand on packages for accounts, jobs, statements of SQL and the
-- stored state of the workspace. This library models the parts with logic of their own, as functions
-- on explicit state, and proves what makes them correct.
--
-- Jobs models the job manager of packages/jobs/src/index.ts. State has the table of transitions,
-- Progress the checks on reports, Manager the records (a heap of job objects by address, and the Map
-- from ids to addresses), Execution `submit`, `pump`, `execute`, `cleanup` and `dispose`, Cancellation
-- and Reporting the methods of those names. `execute` is cut at its one wait: `start_next` is the part
-- before, `settle` the handlers on the promise, `resume` the part after. Steps lets callers,
-- executors, timers and the clock interleave freely. An executor is not run: how its promise settles
-- is an argument of `resume`.
--
-- Auth models packages/auth/src and the rows it keeps. RateLimiter is rate-limiter.ts, Sessions is
-- session.ts, Users is user-management.ts, Setup is initial-admin.ts, Policy the rules on passwords
-- (packages/crypto/src/password/password-policy.ts) and user names. Store has the statements of
-- packages/internal-sqlite/src/repositories/users.ts and sessions.ts as operations on lists of rows;
-- the database engine is not modelled, and a transaction is a commit or a rollback. A method that
-- awaits is one function for each part between two waits. Hashing, random tokens, ids and
-- `toLowerCase` are arguments.
--
-- Sql models the splitters of statements, packages/database-postgresql/src/query/split-statements.ts
-- and the same file of packages/database-mysql. A text is the list of its UTF-16 code units; the loop
-- is recursion on what is left of the text, with the number of units that a round has passed already,
-- so that it needs no fuel.
--
-- Workspace models the tabs and panels of apps/web/src/app/core/state/workspace.store.ts and the
-- stored state of packages/workspace/src/index.ts. JSON, URLs and the TypeBox schema are arguments.
--
-- Transfer models the CSV side of packages/export/src/index.ts (Csv/Writer) and of
-- packages/import/src/index.ts: Csv/Reader is `csvRecords` over the decoded chunks, Import the checks
-- of `normalizeCsv`, the preview, and how `executeCsv` finds columns and rows and, in Import/Typing, types the values
-- of a batch, Cells `typedCsvValue` with JavaScript's `Number` as an argument,
-- Batches the loop of `executeCsv` with `flush`. The database and the signal of the job are a world of
-- its own type; what a port does in it is an argument. Reports of progress do not throw there. The
-- transaction around the loop is not modelled.
--
-- Storage models packages/internal-sqlite/src/migrations/migration-runner.ts: Migrations has the checks
-- of `normalizedMigrations` and `validateAppliedMigrations`, the status and `runMigrations`. The
-- database is a schema of any type and the rows of the history; what a migration does to the schema is
-- an argument. Creating the table of the history is taken to succeed.
--
-- Query models the life of one execution in apps/server/src/query/query-execution.ts. `run` is cut at
-- its waits: `run` is its turn, `session_opened` what follows the session, `statement_done` and
-- `statement_failed` what follows the provider's answer, `run_failed` its catch and `end_run` its
-- finally; `cancel` and `cancel_rejected` are the parts of `cancel`. Steps lets them interleave. What
-- the provider makes of a text is an argument.
--
-- Settings models packages/settings/src/index.ts: the registry, the tables, and the service with its
-- cache, whose keys are the texts that the code builds. What TypeBox accepts is an argument. The cases
-- of preferences and of settings share their operations, on a `Slot`.
--
-- Http models apps/server/src/http/paging.ts; reading a parameter of the URL is an argument.
--
-- Times are natural numbers of milliseconds. JavaScript numbers that callers hand in are `Number`: a
-- natural number, a negative whole one, or any other. Subtraction that can fall below zero is
-- written out.
--
-- Not modelled: drivers, HTTP routing, generated clients, cryptography, external processes, Angular
-- components. Common has the helpers that the parts share.
pub mod Common
pub mod Jobs
pub mod Auth
pub mod Sql
pub mod Workspace
pub mod Transfer
pub mod Storage
pub mod Query
pub mod Settings
pub mod Http
