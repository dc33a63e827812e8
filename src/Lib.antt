-- ===== src/Lib.antt =====
-- Verification of the backend of Auto_correlation, a service that runs a Postman collection
-- twice, compares the two runs and correlates the values that change.
--
-- A user submits a collection. `create_job` reads it, checks that its variables have values, and
-- inserts a job into the job store, which holds each owner to a cap on active jobs. A worker
-- claims the job, checks its destinations, has a runner execute the collection twice, and stores
-- an analysis of the two reports, or hands the reports off. Meanwhile the owner may poll, cancel
-- or delete the job. Accounts, free uses and plans decide who may submit.
--
-- Prelude: Boolean tests, lists, and Python's `dict` as an association list.
-- Errors: backend/app/core/errors.py. An exception is a value: `ok`, or `err` of a problem or of
--   another exception.
-- Jobs.Model: backend/app/domain/execution_job.py.
-- Jobs.Store: backend/app/repositories/execution_job_store.py, the in-memory store. Each
--   operation holds the lock, so it is a function of the clock and the store. Children: laws of
--   lookup, and the cases of `create_if_allowed`.
-- Jobs.Changes: the functions handed to `store.mutate`, of execution_job_service.py,
--   execution_jobs.py, worker.py and job_finalizer.py.
-- Jobs.World: the store, the clock and what the other threads still do. Before each access of a
--   thread to the store the others take a turn: any list of operations after any time. A proof
--   for all such lists is one for all interleavings. The operations are those that the application
--   makes; `create` and `update`, called by tests only, are left out. Children: what an operation
--   does to a job, what foreign operations may do to a driven job, and the cap.
-- Jobs.Lifecycle: the steps a job's state may take, and sound jobs.
-- Jobs.Service: `run_job` and what it calls, of backend/app/services/execution_job_service.py.
--   A function there is split where it awaits a result, so that each piece is by clauses.
-- Jobs.Submission: `create_job` and `prepare_run_material` of the same file.
-- Postman.Resolver: backend/app/services/postman_variable_resolver.py.
-- Accounts: backend/app/repositories/account_store.py (Model, Tokens, Usage, Subscriptions,
--   History), backend/app/domain/plans.py (Plans) and backend/app/services/billing.py (Billing).
--   A table is the list of its rows and an SQL statement a function on it.
-- Runs.Signature, Runs.Aligner: backend/app/services/run_aligner.py.
-- Runs.EditDistance: `_within_one_edit` of backend/app/services/consumer_finder.py.
-- Jobs.Finalizer, Jobs.Worker, Jobs.Launcher: backend/app/services/job_finalizer.py,
--   backend/app/worker.py and backend/app/services/job_launcher.py, the parts of the AWS set-up
--   that run a job outside the API process. The queue is a list of messages and the bucket a list
--   of objects under each job. They work on the DynamoDB store, whose `mutate` is one step of the
--   shared store here. For the finalizer and the launcher its exception after 20 conflicts is a
--   parameter, and for the finalizer's claim also the calls that meet a conflict; for the worker
--   they are not modelled.
-- Sessions: backend/app/repositories/analysis_store.py.
-- Jobs.Dynamo: backend/app/repositories/dynamodb_job_store.py. A transaction is a list of writes
--   with their conditions; between two requests of an operation the other clients send theirs.
-- Correlation: backend/app/services/correlation_engine.py. Model has the records, Score the score,
--   Match which value may be correlated and where it is found, Engine the candidates of two runs and
--   of one, Conflicts the merging, echoes and warnings, Analysis the whole; Naming is
--   `dedupe_variable_name` of backend/app/utils/naming.py, whose search has fuel for one try more
--   than names are taken.
-- Correlation.Classification: backend/app/services/classification.py. The parent has the ruling on one
--   request value, Buckets the loops over candidates and sinks.
-- Correlation.Graph: backend/app/services/graph_builder.py, the edges. An edge is known by its id, a
--   text with colons between its parts.
-- Security: backend/app/core/security.py, the rate limiter.
--
-- Times, prices and sizes are natural numbers. No function needs fuel but `mutate` and `update` on
-- DynamoDB, with the 20 attempts of the source, the finalizer's claim, with the conflicts that it
-- meets, and the search for a free name: other loops are recursion on lists, and a runner is a tree
-- of its polls of `should_cancel`, finite on every path.
--
-- Parameters: what the transactions of DynamoDB do (`Database`), what S3 and SQS refuse, the
-- runner, the destination check, the redaction and the analysis (`Calls`), the readers of
-- collections and environments (`Readers`), the indexers (`Index`), text patterns
-- (`Patterns`, `Words`), the calendar, the token digest, and Unicode's tables.
-- A theorem about the calendar relies on `IsCalendar`, one about a hand-off on `IsHandOff`, which
-- `Jobs.Worker.HandsOff` proves of the worker's own. What the exceptions of the DynamoDB store are
-- is a parameter of the finalizer (`Sources`) and of the launcher (`Outage`).
--
-- Not modelled: HTTP handlers but for the deletion of a job, the indexers and the graph's nodes,
-- JMX generation, e-mails, the runners, the frontend and the infrastructure. In the account store,
-- foreign keys are not checked and the files of the history are left out.
pub mod Prelude
pub mod Errors
pub mod Jobs
pub mod Accounts
pub mod Postman
pub mod Runs
pub mod Sessions
pub mod Correlation
pub mod Security
