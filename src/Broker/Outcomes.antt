-- ===== src/Broker/Outcomes.antt =====
-- What a method of `redisBroker` returns against what it did to the server, whatever the network does.
use taskmq.Prelude.{ℕ, ◌≡◌, ◌≢◌, ◌⊎◌, inl, inr, refl, Bytes, true, arith, Option, none}
use taskmq.Prelude.Int.{ℤ, pos}
use taskmq.Errors.{Error}
use taskmq.Task.{Task, unix_milli}
use taskmq.Keys.{stream, delayed, dlq, dlq_index}
use taskmq.Redis.{Db}
use taskmq.Redis.Reference.{has}
use taskmq.Redis.Laws.{Laws}
use taskmq.Codec.Interface.{Codec}
use taskmq.Lifecycle.Scripts.{Reply, number, entry_id, script_error}
use taskmq.World.{Env, World, Fault, delivered, refused, lost, deliver, answer, run, now}
use taskmq.Broker.Scripts.{
  settle_entry, handle_failure_dlq, handle_failure_retry, defer_rate_limited, complete,
}
use taskmq.Broker.Settling.{IsSettled, complete-settles, handle_failure_dlq-settles, retry-settles}
use taskmq.Broker.DeadLetters.{IsParked, dead_letter-IsParked}
use taskmq.Broker.Transitions.{
  settled, encoded, unique_lock, unique_owner, lifecycle_config, move_to_dlq, schedule_retry,
  defer_rate_limited_task, complete_task, report_dead, report_retry, report_completed,
  report_deferred,
}

-- A method whose script was not run returned an error and left the server as it was; or it ran, and
-- the server is as `done` says.
abbrev pub Outcome : Option Error × World → World → Type 0 → Type 0
Outcome r w done = (r.0 ≢ none) × (r.1.db ≡ w.db) ⊎ done

module _ (next : Reply → World → World)
    (keeps : (r : Reply) (w : World) → (next r w).db ≡ w.db) where
  answered-db : (r : Reply) (w : World) → (settled next (answer r, w)).1.db ≡ w.db
  answered-db (number n) w = keeps (number n) w
  answered-db (entry_id n) w = keeps (entry_id n) w
  answered-db script_error w = refl

  deliver-Outcome :
      (f : Fault) (script : Db → Db × Reply) (w : World)
      → Outcome
          (settled next (deliver f script w))
          w
          ((settled next (deliver f script w)).1.db ≡ (script w.db).0)
  deliver-Outcome delivered script w = inr (answered-db (script w.db).1 _)
  deliver-Outcome refused script w = inl (ground arith, refl)
  deliver-Outcome lost script w = inr refl

  settled-Outcome :
      (env : Env) (script : Db → Db × Reply) (w : World)
      → Outcome
          (settled next (run env script w))
          w
          ((settled next (run env script w)).1.db ≡ (script w.db).0)
  unfolding run
  settled-Outcome env script w = deliver-Outcome (env.net w.calls) script w

-- The codec refused the task, with an error and nothing done, or the method went on with its encoding.
encoded-Outcome :
    (e : Error ⊎ Bytes) (step : Bytes → World → Option Error × World) (w : World)
    (P : Bytes → Db → Type 0)
    → ((s : Bytes) → Outcome (step s w) w (P s (step s w).1.db))
    → Outcome (encoded e step w) w ((s : Bytes) × (e ≡ inr s) × P s (encoded e step w).1.db)
encoded-Outcome (inl e) step w P h = inl (ground arith, refl)
encoded-Outcome (inr s) step w P h = elim (h s) [
  | inl undone ↦ inl undone
  | inr did ↦ inr (s, refl, did)
]

-- The message is settled, and an encoding waits in the delayed set of the task's queue.
abbrev pub Waiting : Task → Bytes → Bytes → ℕ → Db → Bytes → Db → Type 0
Waiting t stream_key group msg_id db serialized db' =
    IsSettled stream_key group msg_id db.streams db'.streams
    × (has serialized (db'.zsets (delayed t.queue)) ≡ true)

-- So does the encoding of the task.
abbrev pub Requeued : Codec → Task → Bytes → Bytes → ℕ → Db → Db → Type 0
Requeued codec t stream_key group msg_id db db' =
    (serialized : Bytes) × (codec.marshal t ≡ inr serialized)
    × Waiting t stream_key group msg_id db serialized db'

-- The message is settled, and the task's id is among the dead letters of a queue with its encoding in
-- their index (where the id is not empty), unless others fill them up to a cap that is set.
abbrev pub Dead : Task → Bytes → Bytes → ℕ → Bytes → Bytes → ℤ → Db → Db → Type 0
Dead t stream_key group msg_id dlq_name serialized cap db db' =
    IsSettled stream_key group msg_id db.streams db'.streams
    × IsParked t.id serialized cap (db'.zsets (dlq dlq_name)) (db'.hashes (dlq_index dlq_name))

-- The message is settled, and no set changed.
abbrev pub Completed : Bytes → Bytes → ℕ → Db → Db → Type 0
Completed stream_key group msg_id db db' =
    IsSettled stream_key group msg_id db.streams db'.streams × (db'.zsets ≡ db.zsets)

module _ (env : Env) (laws : Laws env.commands) where
  -- Whatever the network does: `CompleteTask` returns an error and leaves the server as it was, or it
  -- has settled the message and touched no sorted set.
  pub complete_task-Outcome :
      (t : Task) (stream_key group : Bytes) (msg_id : ℕ) (w : World)
      → let r = complete_task env t stream_key msg_id group w in
        Outcome r w (Completed stream_key group msg_id w.db r.1.db)
  unfolding complete_task
  complete_task-Outcome t stream_key group msg_id w =
      elim (settled-Outcome (report_completed t) (λ r w. refl) env
        (complete env.commands stream_key (unique_lock t) msg_id group (unique_owner t)) w) [
          | inl undone ↦ inl undone
          | inr ran ↦ inr (
              rw ran (
                (complete-settles env.commands laws stream_key (unique_lock t) group msg_id
                    (unique_owner t) w.db).0,
                (complete-settles env.commands laws stream_key (unique_lock t) group msg_id
                    (unique_owner t) w.db).1,
              ))
        ]

  -- Whatever the network does: `ScheduleRetry` returns an error and leaves the server as it was, or it
  -- has settled the message and the task's encoding waits in the delayed set of its queue.
  pub schedule_retry-Outcome :
      (codec : Codec) (t : Task) (stream_key group : Bytes) (msg_id : ℕ) (run_at : ℤ) (w : World)
      → let r = schedule_retry env codec t stream_key msg_id group run_at w in
        Outcome r w (Requeued codec t stream_key group msg_id w.db r.1.db)
  unfolding schedule_retry
  schedule_retry-Outcome codec t stream_key group msg_id run_at w =
      encoded-Outcome (codec.marshal t) _ w (Waiting t stream_key group msg_id w.db) (λ s.
        elim (settled-Outcome (report_retry t (unix_milli run_at)) (λ r w. refl) env
          (handle_failure_retry env.commands (delayed t.queue) stream_key msg_id group
            (unix_milli run_at) s (lifecycle_config w).delayed_max_count (pos 1))
          w) [
            | inl undone ↦ inl undone
            | inr ran ↦ inr (
                rw ran (
                  retry-settles env.commands laws (delayed t.queue) stream_key group msg_id
                    (unix_milli run_at) s (lifecycle_config w).delayed_max_count (pos 1) w.db))
          ])

  -- Whatever the network does: `DeferRateLimitedTask` returns an error and leaves the server as it was,
  -- or it has settled the message in the stream of the task's queue and the task's encoding waits in the
  -- delayed set of its queue.
  pub defer_rate_limited_task-Outcome :
      (codec : Codec) (t : Task) (group : Bytes) (msg_id : ℕ) (run_at : ℤ) (w : World)
      → let r = defer_rate_limited_task env codec msg_id t group run_at w in
        Outcome r w (Requeued codec t (stream t.queue) group msg_id w.db r.1.db)
  unfolding defer_rate_limited_task
  defer_rate_limited_task-Outcome codec t group msg_id run_at w =
      encoded-Outcome (codec.marshal t) _ w (Waiting t (stream t.queue) group msg_id w.db) (λ s.
        elim (settled-Outcome (report_deferred t msg_id (unix_milli run_at)) (λ r w. refl) env
          (defer_rate_limited env.commands (delayed t.queue) (stream t.queue) group msg_id
            (unix_milli run_at) s (lifecycle_config w).delayed_max_count (pos 1))
          w) [
            | inl undone ↦ inl undone
            | inr ran ↦ inr (
                rw ran (
                  unfold defer_rate_limited in
                  unfold handle_failure_retry in
                  retry-settles env.commands laws (delayed t.queue) (stream t.queue) group msg_id
                    (unix_milli run_at) s (lifecycle_config w).delayed_max_count (pos 1) w.db))
          ])

  report_dead-db : (t : Task) (r : Reply) (w : World) → (report_dead t r w).db ≡ w.db
  report_dead-db t (number n) w = ground arith
  report_dead-db t (entry_id n) w = refl
  report_dead-db t script_error w = refl

  -- Whatever the network does: `MoveToDLQ` returns an error and leaves the server as it was, or the
  -- codec took the task, the message is settled, and the task's id is among the dead letters with its
  -- encoding in their index (where the id is not empty), unless others fill them up to a cap that is set.
  pub move_to_dlq-Outcome :
      (codec : Codec) (t : Task) (stream_key group : Bytes) (msg_id : ℕ) (dlq_name : Bytes)
      (w : World)
      → let r = move_to_dlq env codec t stream_key msg_id group dlq_name w in
        Outcome r w (
          (serialized : Bytes) × (codec.marshal t ≡ inr serialized)
          × Dead t stream_key group msg_id dlq_name serialized
              (lifecycle_config w).dlq_max_count
              w.db
              r.1.db)
  unfolding move_to_dlq
  move_to_dlq-Outcome codec t stream_key group msg_id dlq_name w =
      encoded-Outcome (codec.marshal t) _ w
        (λ s. Dead t stream_key group msg_id dlq_name s (lifecycle_config w).dlq_max_count w.db)
        (λ s.
          elim (settled-Outcome (report_dead t) (report_dead-db t) env (script s) (now env w).1) [
            | inl undone ↦ inl undone
            | inr ran ↦ inr (rw ran (dead s))
          ])
    where
      script : Bytes → Db → Db × Reply
      script s =
          handle_failure_dlq env.commands (dlq dlq_name) stream_key (unique_lock t)
            (dlq_index dlq_name) msg_id group (unix_milli (now env w).0) s (unique_owner t) t.id
            (lifecycle_config w).dlq_max_count

      dead :
          (s : Bytes)
          → Dead t stream_key group msg_id dlq_name s
              (lifecycle_config w).dlq_max_count
              w.db
              (script s w.db).0
      dead s = (
        handle_failure_dlq-settles env.commands laws (dlq dlq_name) stream_key (unique_lock t)
            (dlq_index dlq_name) msg_id group (unix_milli (now env w).0) s (unique_owner t) t.id
            (lifecycle_config w).dlq_max_count w.db,
        unfold handle_failure_dlq in
            dead_letter-IsParked env.commands laws (dlq dlq_name) (unique_lock t)
              (dlq_index dlq_name) (unix_milli (now env w).0) s (unique_owner t) t.id
              (lifecycle_config w).dlq_max_count
              (settle_entry env.commands stream_key group msg_id w.db) (ground arith),
      )
