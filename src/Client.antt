-- ===== src/Client.antt =====
-- internal/taskmq/client/enqueue.go and deps.go: a task enters its stream, or its delayed set.
pub mod Entering
pub mod Delaying
pub mod DeadLetters
pub mod Scheduled
pub mod Bulk
pub mod Cron
pub mod Control
use taskmq.Prelude.{
  ℕ, Bytes, codes, Bool, true, false, ◌⊎◌, inl, inr, List, [], ◌∷◌, ◌=b◌, if◌then◌else◌, Option,
  none, some,
}
use taskmq.Prelude.Int.{ℤ, pos, ltb_ℤ, leb_ℤ, scale, wrap64, ◌+ℤ◌}
use taskmq.Errors.{Error}
use taskmq.Task.{Task, milliseconds, unix_milli}
use taskmq.Codec.Interface.{Codec}
use taskmq.Keys.{stream, delayed, unique, delayed_wakeup_channel}
use taskmq.Redis.{Db, Commands}
use taskmq.Lifecycle.Config.{stream_limits, delayed_limits}
use taskmq.Lifecycle.Metrics.{Lifecycle, check_payload_size, check_delayed_max_delay}
use taskmq.Lifecycle.Scripts.{
  Reply, enqueue_stream, enqueue_unique_with_limit, enqueue_delayed_with_limit,
  enqueue_unique_delayed_limit,
}
use taskmq.Lifecycle.Admission.{limits_of, mapped, note_soft_limit_if_needed}
use taskmq.World.{Env, World, TaskState, EventType, run, now, perform, put_meta, emit, publish}

-- `TaskOption`
abbrev pub TaskOption : Type 0
TaskOption = Task → Error ⊎ Task

-- `fresh_id` is what `generateUUID` gives the task.
pub record Client : Type 0 where
  pub env : Env
  pub codec : Codec
  pub default_unique_ttl : ℤ
  pub fresh_id : Bytes

abbrev pub reported : (World → World) → Option Error × World → Option Error × World
reported f (none, w) = (none, f w)
reported f (some e, w) = (some e, w)

-- A check of the lifecycle: an error ends the method.
abbrev pub checked :
    Option Error × Option Lifecycle → (World → Option Error × World) → World → Option Error × World
checked (some e, l) next w = (some e, record w { lifecycle = l })
checked (none, l) next w = next (record w { lifecycle = l })

abbrev pub with_result {ℓ} :
    {A : Type ℓ} → Error ⊎ A → (A → World → Option Error × World) → World → Option Error × World
with_result (inl e) next w = (some e, w)
with_result (inr a) next w = next a w

-- The options in order, until one fails.
unfoldable pub apply_task_options : List TaskOption → Task → Error ⊎ Task
apply_task_options [] t = inr t
apply_task_options (o ∷ os) t = elim (o t) [ inl e ↦ inl e | inr t' ↦ apply_task_options os t' ]

module _ (c : Client) where
  unfoldable pub unique_ttl : Task → ℤ
  unique_ttl t =
      let ttl = wrap64 (scale t.unique_ttl_ms 1000000) in
      if ltb_ℤ (pos 0) ttl
      then ttl
      else if ltb_ℤ (pos 0) c.default_unique_ttl
      then c.default_unique_ttl
      else pos 3600000000000

  abbrev pub identified : Task → Task
  identified t = record t { id = if t.id =b [] then c.fresh_id else t.id }

  -- The script that a task's unique key asks for.
  abbrev pub stream_script : Task → Bytes → World → Db → Db × Reply
  stream_script t serialized w =
      let (hard, maxlen) = stream_limits (limits_of w.lifecycle) in
      if t.unique_key =b []
      then enqueue_stream c.env.commands (stream t.queue) hard maxlen serialized
      else enqueue_unique_with_limit c.env.commands (unique t.queue t.unique_key) (stream t.queue)
          t.id (milliseconds (unique_ttl t)) serialized hard maxlen

  abbrev pub report_enqueued : Task → World → World
  report_enqueued t w =
      perform (emit t.queue EventType.enqueued t.id t.name [])
        (perform (put_meta t TaskState.pending) w)

  -- Behind the options: `Enqueue` of a task with an id
  unfoldable pub enqueue_task : Task → World → Option Error × World
  enqueue_task t w =
      checked (check_payload_size t.payload w.lifecycle)
        (λ w.
          with_result (c.codec.marshal t)
            (λ serialized w.
              let noted = note_soft_limit_if_needed c.env t.queue w in
              reported (report_enqueued t)
                (mapped (run c.env (stream_script t serialized noted) noted)))
            w)
        w

  unfoldable pub enqueue : Task → List TaskOption → World → Option Error × World
  enqueue t opts w = with_result (apply_task_options opts t) (λ t. enqueue_task (identified t)) w

  abbrev pub delayed_script : Task → ℤ → Bytes → World → Db → Db × Reply
  delayed_script t at serialized w =
      let (limit, overflow) = delayed_limits (limits_of w.lifecycle) in
      if t.unique_key =b []
      then enqueue_delayed_with_limit c.env.commands (delayed t.queue) (unix_milli at) serialized
          limit overflow
      else enqueue_unique_delayed_limit c.env.commands (unique t.queue t.unique_key)
          (delayed t.queue) t.id (milliseconds (unique_ttl t)) serialized (unix_milli at) limit
          overflow

  abbrev pub report_delayed : Task → ℤ → World → World
  report_delayed t at w = perform (emit t.queue EventType.delayed t.id t.name (codes "enqueued")) (
      perform (put_meta t TaskState.delayed)
        (perform (publish (delayed_wakeup_channel t.queue) (unix_milli at)) w))

  unfoldable pub enqueue_task_at : Task → ℤ → World → Option Error × World
  enqueue_task_at t at w =
      checked (check_payload_size t.payload w.lifecycle)
        (λ w.
          checked (check_delayed_max_delay (now c.env w).0 at w.lifecycle)
            (λ w.
              with_result (c.codec.marshal t)
                (λ serialized w.
                  reported (report_delayed t at)
                    (mapped (run c.env (delayed_script t at serialized w) w)))
                w)
            (now c.env w).1)
        w

  unfoldable pub enqueue_at : Task → ℤ → List TaskOption → World → Option Error × World
  enqueue_at t at opts w =
      with_result (apply_task_options opts t) (λ t. enqueue_task_at (identified t) at) w

  unfoldable pub enqueue_in : Task → ℤ → List TaskOption → World → Option Error × World
  enqueue_in t delay opts w = enqueue_at t ((now c.env w).0 +ℤ delay) opts (now c.env w).1
