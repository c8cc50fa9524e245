-- ===== src/Broker/Transitions.antt =====
-- The methods of `redisBroker`, internal/taskmq/broker/broker.go: each runs one script, whose error
-- it returns, and then reports the outcome by calls whose errors it ignores.
use taskmq.Prelude.{ℕ, Bytes, codes, ◌⊎◌, inl, inr, [], ◌=b◌, if◌then◌else◌, Option, none, some}
use taskmq.Prelude.Int.{ℤ, pos, ltb_ℤ}
use taskmq.Errors.{Error}
use taskmq.Task.{Task, unix_milli, milliseconds}
use taskmq.Keys.{stream, delayed, dlq, dlq_index, unique, delayed_wakeup_channel}
use taskmq.Codec.Interface.{Codec}
use taskmq.Lifecycle.Config.{Config, config}
use taskmq.Lifecycle.Metrics.{dlq_evicted, inc_metric}
use taskmq.Lifecycle.Scripts.{Reply, number}
use taskmq.World.{
  Env, World, Answer, Effect, TaskState, Field, EventType, now, perform, reply, failed, run,
  put_meta, set_state, mark_completed, inc, emit, publish,
}
use taskmq.Broker.Scripts.{
  handle_failure_dlq, handle_failure_retry, defer_rate_limited, unlock, renew_unique_lock, complete,
}

-- `b.lifecycle.Config()`, of a lifecycle that may be nil
abbrev pub lifecycle_config : World → Config
lifecycle_config w = elim w.lifecycle [ none ↦ config none | some l ↦ config (some l.cfg) ]

-- A script's error ends the method; its reply goes on.
abbrev pub settled : (Reply → World → World) → Answer × World → Option Error × World
settled next (failed e, w) = (some e, w)
settled next (reply r, w) = (none, next r w)

-- What a method does with a task that the codec accepts.
abbrev pub encoded :
    Error ⊎ Bytes → (Bytes → World → Option Error × World) → World → Option Error × World
encoded (inl e) next w = (some e, w)
encoded (inr serialized) next w = next serialized w

-- The lock and owner of a task, both empty without a unique key.
abbrev pub unique_lock : Task → Bytes
unique_lock t = if t.unique_key =b [] then [] else unique t.queue t.unique_key

abbrev pub unique_owner : Task → Bytes
unique_owner t = if t.unique_key =b [] then [] else t.id

-- A reply above 0 is the number of evicted dead letters.
abbrev pub count_evicted : Reply → World → World
count_evicted (number n) w =
    if ltb_ℤ (pos 0) n then record w { lifecycle = inc_metric dlq_evicted n w.lifecycle } else w
count_evicted _ w = w

abbrev pub report_dead : Task → Reply → World → World
report_dead t r w = perform (emit t.queue EventType.failed t.id t.name t.last_error) (
    perform (inc t.queue Field.failed)
      (perform (inc t.queue Field.dlq) (perform (put_meta t TaskState.dlq) (count_evicted r w))))

abbrev pub report_retry : Task → ℤ → Reply → World → World
report_retry t at r w = perform (emit t.queue EventType.retry t.id t.name t.last_error) (
    perform (inc t.queue Field.retried) (
      perform (put_meta t TaskState.retry)
        (perform (publish (delayed_wakeup_channel t.queue) at) w)))

abbrev pub report_deferred : Task → ℕ → ℤ → Reply → World → World
report_deferred t msg_id at r w =
    perform (emit t.queue EventType.delayed t.id t.name (codes "rate_limited")) (
      perform (inc t.queue Field.deferred) (
        perform (set_state t.queue t.id TaskState.delayed [] msg_id)
          (perform (publish (delayed_wakeup_channel t.queue) at) w)))

-- The retention and the cap are 0 without a lifecycle.
abbrev pub mark_done : Task → World → Effect
mark_done t w = elim w.lifecycle [
  | none ↦ mark_completed t t.result (pos 0) (pos 0)
  | some l ↦ mark_completed t t.result l.cfg.completed_retention l.cfg.completed_max_count
]

abbrev pub report_completed : Task → Reply → World → World
report_completed t r w = perform (emit t.queue EventType.completed t.id t.name []) (
    perform (inc t.queue Field.processed)
      (perform (inc t.queue Field.completed) (perform (mark_done t w) w)))

abbrev pub answer_error : Answer × World → Option Error × World
answer_error a = settled (λ r w. w) a

module _ (env : Env) where
  -- `RenewUniqueLock`, of a time in nanoseconds
  unfoldable pub renew_lock : Task → ℤ → World → Option Error × World
  renew_lock t ttl w =
      if t.unique_key =b []
      then (none, w)
      else answer_error (
          run env
            (renew_unique_lock env.commands (unique t.queue t.unique_key) t.id (milliseconds ttl))
            w)

  -- `ReleaseUniqueLock`
  unfoldable pub release_unique_lock : Task → World → Option Error × World
  release_unique_lock t w =
      if t.unique_key =b []
      then (none, w)
      else answer_error (run env (unlock env.commands (unique t.queue t.unique_key) t.id) w)

  unfoldable pub complete_task : Task → Bytes → ℕ → Bytes → World → Option Error × World
  complete_task t stream_key msg_id group w =
      settled (report_completed t)
        (run env (complete env.commands stream_key (unique_lock t) msg_id group (unique_owner t)) w)

  module _ (codec : Codec) where
    unfoldable pub move_to_dlq : Task → Bytes → ℕ → Bytes → Bytes → World → Option Error × World
    move_to_dlq t stream_key msg_id group dlq_name w =
        encoded (codec.marshal t)
          (λ serialized w. settled (report_dead t) (
            run env
              (handle_failure_dlq env.commands (dlq dlq_name) stream_key (unique_lock t)
                (dlq_index dlq_name) msg_id group (unix_milli (now env w).0) serialized
                (unique_owner t) t.id (lifecycle_config w).dlq_max_count)
              (now env w).1))
          w

    unfoldable pub schedule_retry : Task → Bytes → ℕ → Bytes → ℤ → World → Option Error × World
    schedule_retry t stream_key msg_id group run_at w =
        encoded (codec.marshal t)
          (λ serialized w. settled (report_retry t (unix_milli run_at)) (
            run env
              (handle_failure_retry env.commands (delayed t.queue) stream_key msg_id group
                (unix_milli run_at) serialized (lifecycle_config w).delayed_max_count (pos 1))
              w))
          w

    unfoldable pub defer_rate_limited_task : ℕ → Task → Bytes → ℤ → World → Option Error × World
    defer_rate_limited_task msg_id t group run_at w =
        encoded (codec.marshal t)
          (λ serialized w. settled (report_deferred t msg_id (unix_milli run_at)) (
            run env
              (defer_rate_limited env.commands (delayed t.queue) (stream t.queue) group msg_id
                (unix_milli run_at) serialized (lifecycle_config w).delayed_max_count (pos 1))
              w))
          w
