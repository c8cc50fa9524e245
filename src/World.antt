-- ===== src/World.antt =====
-- What the Go code runs against: the Redis server behind a network that may fail at any call, the
-- clock, and the shared lifecycle. A function of the source takes a world and returns one.
pub mod Run
use taskmq.Prelude.{ℕ, suc, Bytes, codes, ◌⊎◌, inl, inr, Option, none, some, List, [], ◌∷◌, ◌++◌}
use taskmq.Prelude.Int.{ℤ}
use taskmq.Errors.{Error, message}
use taskmq.Task.{Task}
use taskmq.Redis.{Db, Commands}
use taskmq.Lifecycle.Metrics.{Lifecycle}
use taskmq.Lifecycle.Scripts.{Reply, script_error}

-- A call is executed and answered, or not executed, or executed and its answer is lost.
pub data Fault : Type 0 where
  delivered refused lost : Fault

-- Schedules chosen by the environment: what happens to the n-th call, and what the clock shows at
-- the n-th reading, in nanoseconds.
pub record Env : Type 0 where
  pub commands : Commands
  pub net : ℕ → Fault
  pub clock : ℕ → ℤ

-- States of internal/taskmq/meta/meta.go.
pub data TaskState : Type 0 where
  pending active delayed retry completed dlq cancelled : TaskState

-- Counters of internal/taskmq/metricsq/metrics.go.
pub data Field : Type 0 where
  processed failed retried deferred dlq completed : Field

-- Types of internal/taskmq/events/events.go.
pub data EventType : Type 0 where
  enqueued active completed failed retry delayed cancelled stalled : EventType

-- The best-effort calls, whose errors the source ignores: what was asked for, in order.
pub data Effect : Type 0 where
  -- `meta.Put`, of a task with a new state
  put_meta : Task → TaskState → Effect
  -- `meta.SetState` of a queue and task id, with the last error and the stream id
  set_state : Bytes → Bytes → TaskState → Bytes → ℕ → Effect
  -- `meta.MarkCompleted`, with the result, the retention and the cap
  mark_completed : Task → Bytes → ℤ → ℤ → Effect
  -- `metrics.Inc` of a queue
  inc : Bytes → Field → Effect
  -- `events.Emit` of a queue, task id, name and text
  emit : Bytes → EventType → Bytes → Bytes → Bytes → Effect
  -- `Publish` of a time in milliseconds on a channel
  publish : Bytes → ℤ → Effect
  -- A text that is published on a channel
  notify : Bytes → Bytes → Effect

pub record World : Type 0 where
  pub db : Db
  pub calls : ℕ
  pub reads : ℕ
  pub lifecycle : Option Lifecycle
  pub effects : List Effect

-- `time.Now()`
abbrev pub now : Env → World → ℤ × World
now env w = (env.clock w.reads, record w { reads = suc w.reads })

abbrev pub perform : Effect → World → World
perform e w = record w { effects = w.effects ++ (e ∷ []) }

-- The result of a script's `Run(...).Result()`.
pub data Answer : Type 0 where
  reply : Reply → Answer
  failed : Error → Answer

abbrev pub redis_error : Error
redis_error = message (codes "redis: call failed")

-- A script that a command's error has ended is reported as an error; what it wrote stays.
abbrev pub answer : Reply → Answer
answer script_error = failed redis_error
answer r = reply r

abbrev pub deliver : Fault → (Db → Db × Reply) → World → Answer × World
deliver delivered script w =
    (answer (script w.db).1, record w { db = (script w.db).0; calls = suc w.calls })
deliver refused script w = (failed redis_error, record w { calls = suc w.calls })
deliver lost script w = (failed redis_error, record w { db = (script w.db).0; calls = suc w.calls })

unfoldable pub run : Env → (Db → Db × Reply) → World → Answer × World
run env script w = deliver (env.net w.calls) script w

-- A call with any other result: a command, a pipeline, or a script that returns a list.
abbrev pub carry : {A : Type 0} → Fault → (Db → Db × A) → World → (Error ⊎ A) × World
carry delivered script w =
    (inr (script w.db).1, record w { db = (script w.db).0; calls = suc w.calls })
carry refused script w = (inl redis_error, record w { calls = suc w.calls })
carry lost script w = (inl redis_error, record w { db = (script w.db).0; calls = suc w.calls })

unfoldable pub call : {A : Type 0} → Env → (Db → Db × A) → World → (Error ⊎ A) × World
call env script w = carry (env.net w.calls) script w
