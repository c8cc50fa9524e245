-- ===== src/Lib.antt =====
-- taskmq: a task queue in Go on Redis. A client puts tasks into the stream of a queue or, for later,
-- into a sorted set, from which a scheduler moves them into the stream when they are due; workers read
-- the stream in a consumer group, run handlers through a chain of middlewares, and settle each message
-- by one Lua script of the broker: completed, retried, deferred or moved to the dead letters, from where
-- a client can retry them. A janitor trims the stream. The Go code is under internal/taskmq.
--
-- The parts, and the files that model them:
--   Prelude    Boolean tests, lists, byte strings, decimals and Go's integers
--   Errors     task/errors.go, worker/errors.go and the sentinels of lifecycle/lifecycle.go
--   Task       task/task.go: Task, NewTask, EffectiveTimeout
--   Codec      codec/codec.go: BinaryCodec, byte by byte, and the interface that others use
--   Keys       keys/keys.go: the names of all keys of a queue, and the parser of stream keys
--   Redis      the server: `Db` has the values of the keys by type, `Commands` the commands, which are
--              a parameter; `Laws` states their documented behaviour, `Memory` is a server that has it
--   Lifecycle  lifecycle/lifecycle.go, lifecycle/admission.go and lifecycle/scripts/*.lua
--   World      what a Go function runs against: the server, the network, the clock, the lifecycle and
--              the calls whose errors the source ignores, recorded in order
--   Broker     broker/broker.go: `Scripts` has its Lua scripts, `Transitions` its methods; `LockSpec`
--              has the abstract lock that these and the scripts of Lifecycle implement
--   Policy     policy/retry.go and policy/dead_letter.go
--   Meta       meta/meta.go: the metadata of tasks and the index of the completed ones
--   QueueMetrics  metricsq/metrics.go: the counters of a queue and their text for Prometheus
--   RateLimit  ratelimit/limiter.go: its two scripts on any arithmetic, and Check and TryConsume
--   Worker     worker/process.go, worker/middleware.go, worker/consume_context.go, the chain of
--              worker/base_worker.go; `Queues` has the orders in which worker/worker.go and
--              worker/multi_worker.go poll the queues, `Fetch` the polls and the groups that Start creates,
--              `Pause` the pause controller of worker/pause.go, `Options` the options of
--              worker/options_*.go, and `Topology` worker/topology.go
--   Client     client/enqueue.go, with its bulk variant in `Bulk`, and client/deps.go; `DeadLetters` has
--              client/dlq.go and client/scripts/delete_dead_letter.lua, `Scheduled` client/scheduled.go,
--              `Cron` client/cron.go and client/scripts/register_cron.lua, all but for the listings, and
--              `Control` client/control.go
--   Runner     `Promotion` and `Scheduler` have the script and the loop of runner/delayed_scheduler.go,
--              `Cron` has Reschedule and ParseCronSpec of runner/cron_manager.go, `Retention` the safe
--              trim and the purges of cancelled tasks and of old dead letters of
--              runner/retention_janitor.go, `Pel` runner/pel_janitor.go, and `Daemons`
--              BuildQueueDaemons of runner/daemon_set.go
--   Tests      concrete runs
--
-- State and operations. A Lua script is a function of the whole server and is executed at once, as
-- Redis does. A call from Go may be executed and answered, not executed, or executed with its answer
-- lost: `Env.net` says which for each call, and theorems restrict it only where they say so. The
-- pipelines of the bulk enqueue and of the purge by age, which are no transactions, are one call for
-- each command, so any of their commands may fail; those of MarkCompleted and of the purge of
-- completed metadata are one call. A method returns an optional error or a result, and the world after
-- it. Middlewares are functions of the rest of the chain, as `ConsumeContext.Next` has it; a handler
-- returns or panics. What other clients do between two calls of the safe trim, or of the purge of
-- completed metadata, is an argument, a function of the server; the other two purges are taken without
-- such an interference. The turns that consumers and subscribers take on a pause controller are a list
-- of operations, and so are what clients and workers do to a stream and the operations of the metadata
-- store. The components record their best-effort calls of the metadata store, the counters and the
-- events as effects, in order; `QueueMetrics.Doubling` carries the counters out. The expiry of a hash
-- is the time that was set, in the milliseconds of PEXPIRE, and nothing expires by itself. A worker is
-- built from its options as a record; the goroutines that it then runs are taken one step at a time.
--
-- Integers: Go's int64 arithmetic is written with its wrap-around where it can occur (`add64`, `wrap64`);
-- times are in nanoseconds. The weights of a worker's queues are taken to add up within an int.
--
-- Loops: the watchdog's three attempts and its ticks, and the scheduler's events, are structural. Four
-- loops are recursions on fuel: the promotions of the scheduler, the rounds that retry all dead letters
-- and the batches of the two purges. How much fuel is enough is proved for all four, and for the retried
-- letters also where there is never enough. The shuffle of the queues has as many rounds as
-- there are queues, and a bulk enqueue no more chunks than tasks.
--
-- Parameters: the Redis commands; the number of fields in a reply of HGETALL; the print of a stream id and
-- of the verb %q; the compiler's conversion of a float64 beyond int64, `rand.Int63n`,
-- `rand.Intn`, `sort.Slice` and the iteration order of a map; the handlers, hooks and codecs of the
-- application; encoding/json; the parser of robfig/cron; the arithmetic of the rate limiter on floats,
-- with Lua's conversions from and to text, and the server's clock.
--
-- Not modelled: Go contexts and their time limits (a call that ends by one is a call that failed), the
-- goroutine that polls for cancellation, JSON, the start and the stop of goroutines, the execution
-- pool, the read loop of a pool of one queue, the idle times, owners and delivery counts of pending
-- messages, the removal of idle consumers and the ticks of the retention janitor, the healing loop of
-- the cron manager, the listings of the client, the readers of events and heartbeats, gRPC, HTTP and
-- the command line.
pub mod Prelude
pub mod Errors
pub mod Task
pub mod Codec
pub mod Keys
pub mod Redis
pub mod Lifecycle
pub mod World
pub mod Broker
pub mod Policy
pub mod Meta
pub mod QueueMetrics
pub mod RateLimit
pub mod Client
pub mod Worker
pub mod Runner
pub mod Tests
