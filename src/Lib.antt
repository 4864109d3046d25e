-- ===== src/Lib.antt =====
-- ipa-now: a service that decrypts iOS apps on one device, one job at a time.
--
-- A job is queued by the web interface, claimed by the scheduler, run by the worker and ends as
-- completed, failed or cancelled. A device whose cleanup is not confirmed is quarantined until a
-- review. The queue is durable: it is three tables of an SQLite database, and each method of the
-- store is a statement or a transaction.
--
-- Jobs (internal/jobs): `Jobs.Model` has the rows and the state graph of model.go. `Jobs.Tx` is the
-- monad of statements and transactions. `Jobs.Rows`, `Jobs.Queue`, `Jobs.Cleanup` and `Jobs.Journal`
-- are the methods of store.go: Enqueue, Claim, Change, Progress, Cancel, Retry and Metadata;
-- Release, Quarantine, Resolve, ResolveAutomatic, Recover and BeginCleanup; StartOperation and
-- Operations. `Jobs.Calls` has the calls as data, and histories of them. `Jobs.Rules` has the rules
-- for proofs. Storage (internal/storage): `Storage` has the files of a job and Workspace, Remove and
-- Publish, `Storage.Ids` the test of an ID, `Storage.Temp` CleanupTemp, `Storage.Ipa` ValidateIPA,
-- and `Storage.Opening` Open, over the directory tree with its modes, its links and the lock. Worker
-- (internal/worker): `Worker.World` has the database, the files and the engine, and the monad of the
-- worker; `Worker.Attempts`, `Worker.Run`, `Worker.Finish`, `Worker.Device` and `Worker.Metadata`
-- are Run, finish, Expire, cleanupDevice, safeMessage and boundedMetadata, `Worker.Startup` Recover
-- and Resolve. `Worker.Alive`, `Worker.Ended`, `Worker.Course`, `Worker.Cleared`, `Worker.Traced`
-- and `Worker.Reconciled` are proofs. Scheduler (internal/scheduler) is Run, and `Scheduler.Idle` and
-- `Scheduler.Rounds` are proofs. Http
-- (internal/httpapi): `Http.Target` is ValidateTarget; `Http.Message` has requests and responses,
-- `Http.Guard` the checks that come first, `Http.Web` the monad of the handlers, `Http.Handlers` and
-- `Http.Upload` are the handlers, `Http.Name` the name of a download, and `Http.Server` dispatches.
-- A handler works on the same database and files as the worker, and confirm calls the worker's
-- Resolve. `Http.Contract` says which store calls an endpoint may make, and its children that it
-- makes no others. Logging (internal/logging): `Logging` has Detail, Fields and Chain, on the bytes
-- of the text, and `Logging.Redact` Redact with its two regular expressions. Secrets
-- (internal/secrets): `Secrets.Broker` is Pending, Request and Submit of the broker, in the steps
-- that its lock makes atomic, and `Secrets.Session` is Load and Save. Config (internal/config):
-- `Config.Values` has the forms of values, `Config.Parse` is Parse. Engine (internal/engine):
-- `Engine.Library` reads the library's answer, `Engine.Adapter` is Decrypt, `Engine.Cleanup` is
-- Cleanup, and `Engine.Transport` the scope of the library's requests.
--
-- The database (GORM, SQLite) is not under verification: what is used of it is that a statement
-- reads or writes rows or fails, at any statement (`fails`), and that a transaction which fails or
-- whose commit fails changes nothing. The store opens one connection, so calls are serialised; a
-- history is the sequence of them, in any order, each at any time. Before each step of the worker
-- the other goroutines (the HTTP handlers, the monitor of the job, the engine) make any calls of the
-- store, and so do the others before each step of a handler; the files change by the caller's own
-- steps only. A file system call may fail at any time, and changes nothing then, but for the sync
-- after the rename of Publish. The engine answers what it likes, and the job's context may be done
-- at any step. `url.Parse`, Unicode lower case and the readers of ZIP archives, property lists and
-- JSON are parameters, and so are the other parsers of the settings. Loops run over lists; the
-- attempts are counted down from MaxAttempts, and the endless loop of the scheduler is cut after a
-- number of rounds, which theorems leave open. Times are numbers, and so are the signed counts of
-- the source, which are not negative; the sizes of ValidateIPA wrap around at 64 bits.
--
-- Not modelled: the logger, the parsing and writing of HTTP and JSON, the decryption library and the
-- device behind it, the opening of the database, the start and the end of the process.
mod Common
pub mod Jobs
pub mod Storage
pub mod Worker
pub mod Scheduler
pub mod Http
pub mod Config
pub mod Engine
pub mod Logging
pub mod Secrets
