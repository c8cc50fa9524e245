-- ===== src/Worker.antt =====
-- internal/taskmq/worker: the pipeline that a message of a stream runs through.
pub mod Middleware
pub mod Delivery
pub mod Process
pub mod Held
pub mod Chain
pub mod NoLoss
pub mod Options
pub mod Topology
pub mod Queues
pub mod Fetch
pub mod Pause
use taskmq.Prelude.{
  ℕ, Bytes, codes, Bool, true, false, ◌⊎◌, List, [], ◌∷◌, ◌++◌, Option, none, some, if◌then◌else◌,
}
use taskmq.Prelude.Int.{ℤ}
use taskmq.Errors.{Error}
use taskmq.Task.{Task}
use taskmq.Codec.Interface.{Codec}
use taskmq.RateLimit.{Gcra}
use taskmq.Policy.{RetryPolicy, DeadLetterPolicy}
use taskmq.Redis.{StringValue}
use taskmq.World.{Env, World}

-- How a Go function of the application ends.
pub data Outcome : Type 0 where
  returned : Option Error → Outcome
  panicked : Bytes → Outcome

-- A handler is given the time it has, 0 for any, and the task, which it may change.
abbrev pub Handler : Type 0
Handler = ℤ → Task → Outcome × Task

-- `ConsumeContext`, less the Go context and the progress callback. `handlers` and `index` are the
-- argument `next` of a middleware.
pub record ConsumeContext : Type 0 where
  pub task : Task
  pub message_id : ℕ
  pub queue : Bytes
  pub group : Bytes
  pub rate_limit_group : Bytes
  pub result : Bytes
  pub aborted : Bool

-- What a worker is built with. `handlers` is the map by task name; `rate_limit` gives max, duration
-- and key field of a queue; `inspect` reads a field of a payload.
pub record Worker : Type 0 where
  pub env : Env
  pub codec : Codec
  pub retry_policy : RetryPolicy
  pub dead_letter_policy : DeadLetterPolicy
  pub handlers : Bytes → Option Handler
  pub rate_limit : Bytes → ℤ × ℤ × Bytes
  pub group_key_extractor : Option (Bytes → Bytes)
  pub inspect : Bytes → Bytes → Option Bytes
  -- The limiter's script TryConsume
  pub gcra : Gcra
  -- How often the watchdog's ticker fires while the next handler runs, by the number of calls so far.
  pub ticks : ℕ → ℕ
  -- How many attempts of a tick come before the watchdog is stopped.
  pub attempts : ℕ → ℕ
  pub group : Bytes

abbrev pub Execution : Type 0
Execution = Outcome × ConsumeContext × World

abbrev pub Next : Type 0
Next = ConsumeContext → World → Execution

-- `Next`: an aborted context runs nothing more, and neither does the end of the chain.
unfoldable pub next : List (Next → Next) → Next
next [] c w = (returned none, c, w)
next (m ∷ ms) c w = if c.aborted then (returned none, c, w) else m (next ms) c w

abbrev pub abort : ConsumeContext → ConsumeContext
abort c = record c { aborted = true }
