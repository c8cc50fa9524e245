-- ===== src/Worker/Fetch.antt =====
-- How workers read their streams: `Start` and the poll of internal/taskmq/worker/multi_worker.go, and the
-- group that `Start` of internal/taskmq/worker/worker.go creates.
pub mod Polling
pub mod Skipping
use taskmq.Prelude.{
  ℕ, ◌*◌, Bytes, codes, Bool, true, false, ◌⊎◌, inl, inr, List, [], ◌∷◌, if◌then◌else◌, Option,
  none, some, map,
}
use taskmq.Prelude.Int.{ℤ, pos}
use taskmq.Errors.{Error, wrap}
use taskmq.Keys.{stream}
use taskmq.Redis.{Db, Stream, Entry, Commands, set_stream}
use taskmq.World.{Env, World, call}
use taskmq.Worker.Queues.{QueuePriority, Random, Sort, queue_order}

module _ (c : Commands) (group : Bytes) where
  abbrev created : Bytes → Db → Option Stream → Db × Bool
  created queue db none = (db, false)
  created queue db (some s) = (set_stream (stream queue) s db, true)

  -- `XGroupCreateMkStream` at "$"; the answer BUSYGROUP is no error to the callers.
  abbrev pub create_group : Bytes → Db → Db × Bool
  create_group queue db = created queue db (c.xgroup_create group (db.streams (stream queue)))

  abbrev read_into : Bytes → Db → Option (Stream × Entry) → Db × Option Entry
  read_into queue db none = (db, none)
  read_into queue db (some (s, e)) = (set_stream (stream queue) s db, some e)

  abbrev pub read_group : Bytes → Db → Db × Option Entry
  read_group queue db = read_into queue db (c.xreadgroup group (db.streams (stream queue)))

-- What a round of polls has fetched, or whether it found all queues paused.
pub data Polled : Type 0 where
  fetched : Bytes → Entry → Polled
  nothing : Bool → Polled

-- An error is logged, and like a timeout it goes on with the next queue.
abbrev pub message_of : Error ⊎ Option Entry → Option Entry
message_of (inl e) = none
message_of (inr o) = o

abbrev pub not_all_paused : Polled × World → Polled × World
not_all_paused (fetched q e, w) = (fetched q e, w)
not_all_paused (nothing _, w) = (nothing false, w)

-- `time.Sleep` of the back-off, in nanoseconds
abbrev pub backoff : Polled → ℤ
backoff (fetched _ _) = pos 0
backoff (nothing true) = pos (200 * 1000000)
backoff (nothing false) = pos (50 * 1000000)

abbrev started : Error ⊎ Bool → World → Option Error × World → Option Error × World
started (inl e) w later = (some (wrap (codes "failed to create consumer group for queue ") e []), w)
started (inr _) w later = later

module _ (env : Env) (group : Bytes) where
  -- The loop of `Start` over the queues; it ends with the first error.
  unfoldable pub start_groups : List Bytes → World → Option Error × World
  start_groups [] w = (none, w)
  start_groups (q ∷ qs) w =
      let r = call env (create_group env.commands group q) w in
      started r.0 r.1 (start_groups qs r.1)

  -- One round over the queue names
  unfoldable pub poll : (Bytes → Bool) → List Bytes → World → Polled × World
  poll paused [] w = (nothing true, w)
  poll paused (q ∷ qs) w =
      let skipped = poll paused qs w in
      let r = call env (read_group env.commands group q) w in
      let read : Polled × World = elim (message_of r.0) [
        | none ↦ not_all_paused (poll paused qs r.1)
        | some e ↦ (fetched q e, r.1)
      ] in
      if paused q then skipped else read

  -- What is fetched is processed, by `process`, before the next round, as with `syncExecution`; and the
  -- back-off.
  abbrev processed : (Bytes → Entry → World → World) → Polled × World → ℤ × World
  processed process (fetched q e, w) = (pos 0, process q e w)
  processed process (nothing all, w) = (backoff (nothing all), w)

  unfoldable pub worker_round :
      Sort
      → Random
      → ℕ
      → Bytes
      → List QueuePriority
      → (Bytes → Bool)
      → (Bytes → Entry → World → World)
      → World
      → ℤ × World
  worker_round sort random draw strategy queues paused process w =
      processed process (poll paused (queue_order sort random draw strategy queues) w)
