-- ===== src/Lib.antt =====
-- A model of go-fw: its task executor, the priority queue it schedules by, its distributed locks,
-- the statements of its DynamoDB client, its configuration, its errors and how its REST layer
-- answers them, its database transactions, its workers, its loggers, its messages to Slack,
-- the tags of its structs, and its slice functions. Prelude has what the parts share.
--
-- Parts, and the files that model them:
--   queue/priority_queue.go, queue/priority_queue_heap.go: Queue. The array of a heap with the index
--     that each element keeps, `up` and `down` of Go's container/heap, and the queue's operations.
--     Order, Array, Sift, Indexed, Cut and Taking prove the heap; Laws has what the operations do.
--   executors/task.go: Executors/Task, the task's fields and its methods; Lifecycle and Await.
--   executors/executors_default.go: Executors/Default has the executor and the functions that the
--     event loop calls (`tryExecuteTask`, `tryRunNextTask`, `configureSchedulerTimer` and others);
--     Executors/Events has the loop, a function for each event and `handle` for a round;
--     Executors/Submit has the calls that submit a task; Executors/TaskList the part of Go's
--     container/list that is used. Closed is a rule for properties that the events keep, which
--     Limits and Shutdown use; CancelNow, Stalls and Races are about single events.
--   distributedlock/distributedlock.go: Distributedlock, the fields that the locks share.
--   distributedlock/distributedlock_postgres.go: Distributedlock/Postgres, a table as a map and the
--     statements as functions on a row; Kept and Holding have the locks of many processes over one
--     table, Laws single calls. distributedlock_redis.go: Distributedlock/Redis, the scripts as
--     functions on the server's keys. distributedlock_local.go: Distributedlock/Local.
--     The loop of `Lock` is in Distributedlock/Retry; Waiting, Redis/Retrying and Postgres/Retrying.
--     distributedlock.go: Distributedlock/AutoExtend, the goroutine that extends a lock of any kind.
--     Distributedlock/Lease says when the locks of one store are sound; Postgres/Kept and Redis/Kept
--     show that the calls keep it, Holding in each has the courses of calls, Redis/Late a PTTL that
--     comes late and Redis/Extending what the goroutine keeps.
--   database/database.go: Database, transactions in a store, over gorm as an interface; Closing has
--     the end of a transaction, Scope a deferred one. rest/middleware/db_trx.go: Database/Request.
--   functional/slices/slices.go: Functional.
--   tag/tag.go: Tag, and Tag/Names for the field of a name.
--   aws/partiql/builder.go: Partiql/Builder; tag.go and the choice of fields of serializer.go:
--     Partiql/Value; the encoder of serializer.go: Partiql/Encoder. Parts is a specification without
--     a builder, Refines and Quoting compare the two.
--   aws/dynamodb: Dynamodb/Update, Dynamodb/Query and Dynamodb/Table (insert.go, delete.go). A
--     statement is a list of pieces, some of them marks for a parameter; Marks counts them. Tables
--     has the calls that create, list and delete tables, over a client; Deleting.
--   config/internal.go: Config/Finder, Config/Environment and Config/Secrets; Loaded has theorems.
--   config/config.go: Config/Texts, the texts of levels, writers and hosts.
--   errors/errors.go, errors/codes.go: Errors, an error as a tree of what it wraps; Errors/Codes.
--   rest/middleware/error_handler.go: Rest/ErrorHandler; Visits follows the loop over the errors,
--     Responses counts the responses.
--   rest/middleware/middleware.go: Rest/Middlewares; Order has the comparison, Sorting the order that
--     it gives, Insertion a sort for the tests. panic_recovery.go, health.go and ready.go there:
--     Rest/Recovery, over gin as an interface; Answers composes it with the error handler.
--   rest/gin_routergroup.go, rest/gin_routergroup_internal.go: Rest/RouterGroup and its Metadata.
--   rest/middleware/authn.go: Rest/Authn; Excluded has the calls that set it up, Cached its cache.
--   worker/worker.go: Worker, the runners over a list of rounds; Rounds has the loop of a single one.
--   log/logger_factory.go: Log, the loop that finds a level, and Log/Levels. Log/Loggers has it with
--     logger.go: loggers, the variables of their levels and the factory; Separate. Log/Paths has the
--     paths that loggers are asked for. logger_attrs.go and logger_internal.go: Log/Attrs, the
--     attributes as slices over shared arrays; Aliasing.
--   slack/slack_client.go: Slack, and Slack/Fallback.
--   sync/map.go: Sync, `LoadOrStoreFunc` as steps of many goroutines; Moves and Once.
--
-- A submitted task goes to the event loop, which starts it, puts it in the ready queue or, if it is
-- due later, in the scheduled queue. Callers and task goroutines change a task between two events of
-- the loop, so a theorem about an event holds for any state of the tasks before it.
--
-- Instants and durations are integers, the numbers of tasks natural numbers. The counters of the
-- queue and of the executor wrap at 2 ^ 64. The loops `up` and `down` have as fuel one more than the
-- index and one more than the size, which their proofs show to be enough; the loop of a new limit on
-- concurrency has one more than the ready queue holds, and that of CancelNow one more than is
-- scheduled. An event reads the clock once.
--
-- The search for a configuration file has as fuel a round for each directory, and the loop that finds
-- the level of a logger has the length of the path. Builders of responses, what the file system says
-- of a file, the manager of secrets, the provider of principals and the answers of the DynamoDB
-- client are arguments. A Go map is a list in the order in which it is walked.
--
-- The clock of the database or of the Redis server and that of its clients are one. A TTL is
-- rounded to microseconds in the table, and in whole milliseconds in Redis, which refuses one of 0;
-- its theorems ask for one above. A statement or a script that fails is an argument of its call. A
-- call of Redis that fails may have run its script or not. The methods of a task run one after the
-- other, but for the parts of `Await` and `Cancel` that stand alone. A goroutine that extends a lock
-- waits half the TTL and an arbitrary delay.
--
-- Not modelled: the wait of a local lock's `Lock` for its file; what a task's own code does,
-- which is an argument; the text of a log record and the messages to Slack; the goroutine scheduler
-- and the blocking of channels, beyond the order of the events; the texts of stack traces; the
-- decoding of a configuration; the clients of Redis, of the database and of AWS; a `range` of the
-- queue's values. To unlink an element that `list.Init` dropped is a fault (`none`).
pub mod Prelude
pub mod Queue
pub mod Executors
pub mod Database
pub mod Tag
pub mod Slack
pub mod Distributedlock
pub mod Functional
pub mod Partiql
pub mod Dynamodb
pub mod Config
pub mod Errors
pub mod Rest
pub mod Sync
pub mod Worker
pub mod Log
