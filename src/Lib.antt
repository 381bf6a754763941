-- ===== src/Lib.antt =====
-- A verification library for KARIZ, a dashboard that runs approved commands on sibling containers.
--
-- The program is a Go server. Users start a command of the catalog, or a schedule starts it; the executor runs it in
-- a container and writes an execution record; its output goes to the stream manager, from which browsers
-- read it as server-sent events; services keep their tables in PostgreSQL.
--
-- - Prelude: shared types, tests, lists, texts, integers and maps.
-- - Strconv: what event IDs need of Go's fmt and strconv, `fmt.Sprintf("%d", n)` and `strconv.Atoi`. The fuel of
--   `emit` is the number itself, and each round divides it by ten.
-- - Models: the structs of internal/models that the other parts use. A time is a number of nanoseconds.
-- - Database: the view of PostgreSQL that the services share: tables, a clock, and for each statement to come
--   the time it takes and whether it fails. A service's method is a function on such a world that gives a value
--   or an error, as the Go method does by `if err != nil`. Database.Keeps has the rules for calls that preserve
--   a property of the tables, Database.Triples those for what a call leaves by how it ends, Database.Calm the runs
--   in which no statement fails. A transaction that fails leaves the tables that it found.
-- - Auth: internal/auth. Auth.Users has the statements on `users` and `user_roles`, Auth.Sessions those on `sessions`,
--   Auth.Store the session store, Auth.Provider the check of a password, Auth.Middleware who may pass, Auth.Handlers login and
--   logout. A handler is a call that gives a status and a body, or an error that is its early return (`reply`). bcrypt,
--   encoding/json, crypto/rand and the order of the database's texts are parameters (Bcrypt, SessionCodec, Fresh,
--   Collation). Auth.Store.Refinement has the abstract store, a map from tokens to data.
-- - Admin: internal/api/admin_handlers.go, the handlers and their guards; requests come one after another.
--   Admin.Roles has `parseAndValidateRoles`. A request is none where its body does not bind.
-- - Stream: internal/stream/manager.go. A stream is changed under its lock, by one atomic change of it (subscribe, publish,
--   complete, cleanup, unsubscribe), each as the code under the lock in `Subscribe`, `Publish`, `Complete`, `Cleanup` and in the
--   function that `Subscribe` returns. A channel is its buffer and whether it is closed; an operation may return, wait for ever, or
--   panic. Stream.Manager has the map of streams with their addresses, and sequences of what goroutines do under one
--   lock: the lookup of a stream and its change are two steps, between which others may come; a sequence ends at its first step that waits or
--   panics. Subscribers are ranged over in the order in which they are kept, one of the orders that Go may choose.
-- - Validator: internal/validator/validator.go. Validator has `Validate` and its checks, Validator.Arguments
--   `BuildCommandArgs` on texts as lists of code points, with `strings.Fields` and the placeholder's regular
--   expression written out. The regular expressions of a schema, the order of float64 numbers and the text
--   that fmt gives a value are parameters (Engine).
-- - EnvVar: internal/envvar/resolver.go, `ResolveParams`, with the environments of the containers as a parameter.
-- - Catalog: internal/catalog. Catalog has the checks of a command's fields (validation.go), Catalog.Repository the statements on
--   `command_entries` and `command_roles`, Catalog.Service the operations on one command, Catalog.Listing the list and the search. The version of a command is a
--   natural number; the overflow of its column of 32 bits is left out.
-- - Docker: internal/docker/manager.go, `demuxStream` on the bytes of a connection, with the context, the reader of the
--   channel and the clock as choices for each round (Rounds). Each round reads 8 bytes, so that one round more than there are
--   bytes is enough fuel.
-- - Executor: internal/executor/service.go and internal/executor/repository.go. The goroutine of an execution (`runCreateMode`,
--   `runExecMode`, `runLogsMode`) is run_create_mode, run_exec_mode and run_logs_mode: the list of the calls that it makes,
--   the deferred ones at the end, given what Docker, the clock and the context answer. Executor.Requests has
--   `ExecuteCommand`, `CancelExecution`, the statements on the table `execution_records`, and what the calls of a run change in the
--   table and in the maps `ownedContainers` and `runningCancels` (carry). The resolver, the validator and the
--   JSON encoder are an interface (Checks), which Executor.Validated fills with the validator and the resolver. Stopping
--   a container in `CancelExecution` takes the environment's next choice of time. Executor.Handlers has the requests
--   of internal/executor/handlers.go, given what the catalog answers.
-- - Scheduler: internal/scheduler/service.go and internal/scheduler/repository.go. Scheduler.Repository has the
--   statements on the table `schedules`, Scheduler.Service creation and update, Scheduler.Switching enabling,
--   disabling, deleting and reading, Scheduler.Trigger the poll. The cron parser (robfig/cron), the
--   catalog, the executor and the notifications are parameters; a poll answers the list of calls that it makes
--   to the executor and to the notifications. Seconds are added as in Go, by a product that wraps around in 64 bits.
--
-- A reader who takes events from a channel, the other HTTP handlers, the list queries of schedules and executions, JSON and SQL are not modelled.
pub mod Prelude
pub mod Strconv
pub mod Models
pub mod Database
pub mod Auth
pub mod Admin
pub mod Stream
pub mod Validator
pub mod EnvVar
pub mod Catalog
pub mod Docker
pub mod Executor
pub mod Scheduler
