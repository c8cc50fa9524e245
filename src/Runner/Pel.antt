-- ===== src/Runner/Pel.antt =====
-- internal/taskmq/runner/pel_janitor.go: the janitor that claims messages whose consumer has gone, and
-- hands them to the processor. Its goroutines are taken one after the other; idle times, owners
-- and delivery counts of pending messages are not part of the state of a stream.
pub mod Claims
use taskmq.Prelude.{
  ℕ, Bytes, codes, Bool, ◌⊎◌, inl, inr, List, [], ◌∷◌, ◌++◌, ◌==◌, ◌=b◌, if◌then◌else◌, length,
  Option, none, some,
}
use taskmq.Prelude.Int.{ℤ, pos, ltb_ℤ, pos_part}
use taskmq.Prelude.Decimal.{decimal}
use taskmq.Errors.{Error}
use taskmq.Task.{Task, zero_task}
use taskmq.Codec.Interface.{Codec}
use taskmq.Keys.{stream}
use taskmq.Redis.{Db, Entry, set_stream}
use taskmq.World.{Env, World, call, perform, emit, stalled}
use taskmq.Worker.Delivery.{Message, Value, int64, string, other, extract_message_payload}

-- `print_id` writes a stream id.
pub record PelRecoveryJanitor : Type 0 where
  pub env : Env
  pub queue : Bytes
  pub group : Bytes
  pub consumer : Bytes
  pub concurrency : ℤ
  pub codec : Codec
  pub print_id : ℕ → Bytes
  pub process_fn : Option (Message → World → World)

-- Floor 10, ceiling 100
unfoldable pub claim_count : ℤ → ℤ
claim_count concurrency =
    if ltb_ℤ concurrency (pos 10)
    then pos 10
    else if ltb_ℤ (pos 100) concurrency
    then pos 100
    else concurrency

-- An entry of the stream as a message with its delivery count
abbrev pub message_with : Entry → ℤ → Message
message_with e count = record {
  id = e.id;
  task = string e.task;
  payload = other;
  delivery_count = some (int64 count);
}

-- `pendingMap[msg.ID]`, with the fallback
unfoldable pub delivery_count : ℕ → List (ℕ × ℤ) → ℤ
delivery_count id [] = pos 1
delivery_count id ((i, n) ∷ rest) =
    let later = delivery_count id rest in if i == id then n else later

unfoldable pub last_id : ℕ → List Entry → ℕ
last_id id [] = id
last_id id (e ∷ es) = last_id e.id es

module _ (j : PelRecoveryJanitor) where
  abbrev identified : Error ⊎ Task → Bytes × Bytes
  identified (inl e) = ([], [])
  identified (inr t) = (t.id, t.name)

  abbrev decoded : Option Bytes → Bytes × Bytes
  decoded none = ([], [])
  decoded (some payload) = identified (j.codec.unmarshal payload zero_task)

  unfoldable pub task_meta_from_message : Message → Bytes × Bytes
  task_meta_from_message m = decoded (extract_message_payload m)

  unfoldable pub emit_stalled : Message → ℤ → World → World
  emit_stalled m count w =
      let (task_id, name) = task_meta_from_message m in
      let id = if task_id =b [] then j.print_id m.id else task_id in
      perform
        (emit j.queue stalled id name (
          codes "reclaimed delivery_count="
          ++ (decimal count ++ (codes " stream_id=" ++ j.print_id m.id))))
        w

  abbrev handed : Option (Message → World → World) → Message → World → World
  handed none m w = w
  handed (some process) m w = process m w

  -- The loop over what is claimed
  unfoldable pub recover_each : List (ℕ × ℤ) → List Entry → World → World
  recover_each counts [] w = w
  recover_each counts (e ∷ es) w =
      let count = delivery_count e.id counts in
      let m = message_with e count in
      recover_each counts es (handed j.process_fn m (emit_stalled m count w))

  -- An error is logged, and all counts fall back.
  abbrev counted : Error ⊎ List (ℕ × ℤ) → List (ℕ × ℤ)
  counted (inl e) = []
  counted (inr counts) = counts

  abbrev pub pending_counts : Entry → List Entry → Db → Db × List (ℕ × ℤ)
  pending_counts e es db = (
    db,
    j.env.commands.xpending_ext j.group e.id (last_id e.id es) (length (e ∷ es))
        (db.streams (stream j.queue)),
  )

  abbrev recovered : List Entry → World → World
  recovered [] w = w
  recovered (e ∷ es) w =
      let r = call j.env (pending_counts e es) w in recover_each (counted r.0) (e ∷ es) r.1

  abbrev pub claim : ℕ → Db → Db × (List Entry × ℕ)
  claim cursor db =
      let (s, reply) =
        j.env.commands.xautoclaim j.group cursor (pos_part (claim_count j.concurrency))
          (db.streams (stream j.queue)) in
      (set_stream (stream j.queue) s db, reply)

  abbrev claimed : ℕ → (Error ⊎ List Entry × ℕ) × World → ℕ × World
  claimed cursor (inl e, w) = (cursor, w)
  claimed cursor (inr (es, next), w) = (next, recovered es w)

  -- One tick from a cursor; the next cursor
  unfoldable pub tick : ℕ → World → ℕ × World
  tick cursor w = claimed cursor (call j.env (claim cursor) w)

  unfoldable pub ticks : ℕ → ℕ → World → ℕ × World
  ticks ℕ.zero cursor w = (cursor, w)
  ticks (ℕ.suc n) cursor w = let (next, w') = tick cursor w in ticks n next w'
