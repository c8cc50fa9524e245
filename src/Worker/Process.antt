-- ===== src/Worker/Process.antt =====
-- internal/taskmq/worker/process.go: one message from decoding to its end.
use taskmq.Prelude.{
  ℕ, Bytes, codes, Bool, true, false, ◌⊎◌, inl, inr, [], ◌=b◌, if◌then◌else◌, Option, none, some,
  is_some,
}
use taskmq.Prelude.Int.{pos, leb_ℤ, ltb_ℤ}
use taskmq.Errors.{Error, message}
use taskmq.Task.{Task, zero_task}
use taskmq.Keys.{cancelled}
use taskmq.Redis.{Db, set_stream}
use taskmq.Lifecycle.Scripts.{Reply, number}
use taskmq.World.{World, Answer, reply, run, perform, TaskState, EventType, set_state, emit}
use taskmq.Broker.Transitions.{complete_task, move_to_dlq}
use taskmq.Worker.{returned, ConsumeContext, Worker, Execution, next}
use taskmq.Worker.Middleware.{middleware_chain}
use taskmq.Worker.Delivery.{Message, extract_message_payload, apply_delivery_count}

module _ (p : Worker) where
  -- `AcquireConsumeContext`
  abbrev pub context_of : Task → ℕ → ConsumeContext
  context_of t msg_id = record {
    task = t;
    message_id = msg_id;
    queue = t.queue;
    group = p.group;
    rate_limit_group = [];
    result = [];
    aborted = false;
  }

  -- Only a chain that ended without an error and was not aborted completes its task.
  abbrev pub completed : Bytes → ℕ → Execution → World
  completed stream_key msg_id (returned none, c, w) =
      if c.aborted
      then w
      else (let t = if c.result =b [] then c.task else record c.task { result = c.result } in
          (complete_task p.env t stream_key msg_id p.group w).1)
  completed stream_key msg_id (_, c, w) = w

  unfoldable pub execute_and_settle : Bytes → ℕ → Task → World → World
  execute_and_settle stream_key msg_id t w =
      completed stream_key msg_id (next (middleware_chain p) (context_of t msg_id) w)

  -- `fmt.Errorf` with the two counts, which the text here leaves out
  abbrev crash_error : Error
  crash_error = message (codes "task exceeded max retry limits due to worker crashes")

  abbrev pub dead_of_crash : Task → Task
  dead_of_crash t = p.dead_letter_policy.before_dead_letter t crash_error

  -- `none`: the caller goes on
  unfoldable pub route_exceeded_max_retry : Bytes → ℕ → Task → World → Option World
  route_exceeded_max_retry stream_key msg_id t w =
      if leb_ℤ t.retry t.max_retry
      then none
      else some
          (move_to_dlq p.env p.codec (dead_of_crash t) stream_key msg_id p.group
            (p.dead_letter_policy.dlq_queue_name t) w).1

  -- `EXISTS key`
  abbrev pub exists_key : Bytes → Db → Db × Reply
  exists_key key db = (db, number (if is_some (db.strings key) then pos 1 else pos 0))

  abbrev pub is_present : Answer → Bool
  is_present (reply (number n)) = ltb_ℤ (pos 0) n
  is_present _ = false

  abbrev pub check_cancelled : Task → World → Answer × World
  check_cancelled t w = run p.env (exists_key (cancelled t.queue t.id)) w

  abbrev pub report_cancelled : Task → ℕ → World → World
  report_cancelled t msg_id w =
      perform (emit t.queue EventType.cancelled t.id t.name (codes "cancelled before execution")) (
        perform
          (set_state t.queue t.id TaskState.cancelled (codes "cancelled before execution") msg_id)
          w)

  -- Whether it was discarded, and the world after.
  unfoldable pub discard_if_cancelled : Bytes → ℕ → Task → World → Bool × World
  discard_if_cancelled stream_key msg_id t w =
      let r = check_cancelled t w in
      if is_present r.0
      then (true, report_cancelled t msg_id (complete_task p.env t stream_key msg_id p.group r.1).1)
      else (false, r.1)

  -- XACK and XDEL, two calls, whose errors are ignored
  unfoldable pub discard_corrupted : Bytes → ℕ → World → World
  discard_corrupted stream_key msg_id w =
      let ack =
        run p.env
          (λ db. (
            set_stream stream_key (p.env.commands.xack p.group msg_id (db.streams stream_key)) db,
            number (pos 1),
          ))
          w in
      (run p.env
        (λ db. (
          set_stream stream_key (p.env.commands.xdel msg_id (db.streams stream_key)) db,
          number (pos 1),
        ))
        ack.1).1

  abbrev pub report_active : Task → ℕ → World → World
  report_active t msg_id w =
      perform (emit t.queue EventType.active t.id t.name [])
        (perform (set_state t.queue t.id TaskState.active [] msg_id) w)

  abbrev pub unless_discarded : Bytes → ℕ → Task → Bool × World → World
  unless_discarded stream_key msg_id t (true, w) = w
  unless_discarded stream_key msg_id t (false, w) =
      execute_and_settle stream_key msg_id t (report_active t msg_id w)

  -- The gates in order.
  unfoldable pub process_task : Bytes → ℕ → Task → World → World
  process_task stream_key msg_id t w = elim (route_exceeded_max_retry stream_key msg_id t w) [
    | some w' ↦ w'
    | none ↦ unless_discarded stream_key msg_id t (discard_if_cancelled stream_key msg_id t w)
  ]

  abbrev pub decoded : Bytes → Message → World → Error ⊎ Task → World
  decoded stream_key m w (inl e) = discard_corrupted stream_key m.id w
  decoded stream_key m w (inr t) = process_task stream_key m.id (apply_delivery_count t m) w

  unfoldable pub process : Bytes → Message → World → World
  process stream_key m w = elim (extract_message_payload m) [
    | none ↦ w
    | some payload ↦ decoded stream_key m w (p.codec.unmarshal payload zero_task)
  ]
