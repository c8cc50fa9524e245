-- ===== src/Client/Delaying.antt =====
-- What `EnqueueAt` of internal/taskmq/client/enqueue.go returns against what it did.
use taskmq.Prelude.{
  ◌≡◌, ◌≢◌, inl, inr, refl, Bytes, true, List, [], ◌=b◌, =b_refl, if-both, arith, Option, none,
  some,
}
use taskmq.Prelude.Int.{ℤ, pos, ◌<ℤ◌}
use taskmq.Errors.{Error}
use taskmq.Task.{Task, milliseconds, unix_milli}
use taskmq.Keys.{delayed, unique}
use taskmq.Redis.{Db, ZSet, Commands, StringValue, set_zset, set_string}
use taskmq.Redis.Reference.{has}
use taskmq.Redis.Laws.{Laws}
use taskmq.Lifecycle.Config.{delayed_limits}
use taskmq.Lifecycle.Metrics.{check_payload_size, check_delayed_max_delay}
use taskmq.Lifecycle.Scripts.{
  Reply, enqueue_delayed_with_limit, enqueue_unique_delayed_limit, held_by_other, make_room,
  insert_delayed, lock_and_insert,
}
use taskmq.Lifecycle.Capacity.{has-zadd}
use taskmq.Lifecycle.Admission.{mapped, limits_of}
use taskmq.World.{World, run, now}
use taskmq.Broker.Outcomes.{Outcome}
use taskmq.Client.{
  Client, TaskOption, reported, checked, with_result, apply_task_options, unique_ttl, identified,
  delayed_script, enqueue_task_at, enqueue_at, report_delayed,
}
use taskmq.Client.Entering.{Admission, checked-Ends, with_result-Ends, reported-Ends, mapped-Ends}

module _ (c : Commands) (laws : Laws c) (key : Bytes) (score : ℤ) (payload : Bytes) (db : Db) where
  abbrev IsIn : Db → Type 0
  IsIn db' = has payload (db'.zsets key) ≡ true

  inserted : (z : ZSet) (d : Db) → IsIn (set_zset key (c.zadd score payload z) d)
  inserted z d = simp =b_refl (has-zadd c laws score payload z)

  insert_delayed-Admission :
      (room : Option ZSet) → Admission (insert_delayed c key score payload room db) db IsIn
  insert_delayed-Admission none = inl (inr (inr (inl refl)), refl)
  insert_delayed-Admission (some z) = inr (inserted z db)

  enqueue_delayed-Admission :
      (limit overflow : ℤ)
      → Admission (enqueue_delayed_with_limit c key score payload limit overflow db) db IsIn
  unfolding enqueue_delayed_with_limit
  enqueue_delayed-Admission limit overflow =
      insert_delayed-Admission (make_room c limit overflow (db.zsets key))

  lock_and_insert-Admission :
      (lock : Bytes) (v : Option StringValue) (room : Option ZSet)
      → v ≢ none
      → Admission (lock_and_insert c lock key v score payload room db) db IsIn
  lock_and_insert-Admission lock v none set = inl (inr (inr (inl refl)), refl)
  lock_and_insert-Admission lock none (some z) set = elim (set refl) [ ]
  lock_and_insert-Admission lock (some v) (some z) set =
      inr (inserted z (set_string lock (some v) db))

  enqueue_unique_delayed-Admission :
      (lock owner : Bytes) (ttl limit overflow : ℤ)
      → pos 0 <ℤ ttl
      → Admission
          (enqueue_unique_delayed_limit c lock key owner ttl payload score limit overflow db)
          db
          IsIn
  unfolding enqueue_unique_delayed_limit
  enqueue_unique_delayed-Admission lock owner ttl limit overflow h =
      if-both (λ (r : Db × Reply). Admission r db IsIn) (held_by_other (db.strings lock) owner)
        (inl (inl refl, refl))
        (lock_and_insert-Admission lock (c.set_px owner ttl)
          (make_room c limit overflow (db.zsets key)) set)
    where
      set : c.set_px owner ttl ≢ none
      set = ground (arith, laws.set_px_sets owner ttl)

module _ (c : Client) (laws : Laws c.env.commands) where
  -- The task's encoding is in the delayed set of its queue.
  abbrev pub IsScheduled : Task → Db → Type 0
  IsScheduled t db' =
      (s : Bytes) × (c.codec.marshal t ≡ inr s) × (has s (db'.zsets (delayed t.queue)) ≡ true)

  delayed_script-Admission :
      (t : Task) (at : ℤ) (s : Bytes) (w : World) (db : Db)
      → pos 0 <ℤ milliseconds (unique_ttl c t)
      → Admission
          (delayed_script c t at s w db)
          db
          (λ db'. has s (db'.zsets (delayed t.queue)) ≡ true)
  delayed_script-Admission t at s w db h =
      if-both
        (λ (script : Db → Db × Reply).
          Admission (script db) db (λ db'. has s (db'.zsets (delayed t.queue)) ≡ true))
        (t.unique_key =b [])
        (enqueue_delayed-Admission c.env.commands laws (delayed t.queue) (unix_milli at) s db
          limits.0 limits.1)
        (enqueue_unique_delayed-Admission c.env.commands laws (delayed t.queue) (unix_milli at) s db
          (unique t.queue t.unique_key) t.id (milliseconds (unique_ttl c t)) limits.0 limits.1 h)
    where
      limits : ℤ × ℤ
      limits = delayed_limits (limits_of w.lifecycle)

  enqueue_task_at-Outcome :
      (t : Task) (at : ℤ) (w : World)
      → pos 0 <ℤ milliseconds (unique_ttl c t)
      → Outcome (enqueue_task_at c t at w) w (IsScheduled t (enqueue_task_at c t at w).1.db)
  unfolding enqueue_task_at
  enqueue_task_at-Outcome t at w h =
      checked-Ends P (check_payload_size t.payload w.lifecycle) timely w w refl (λ w' same.
        checked-Ends P (check_delayed_max_delay (now c.env w').0 at w'.lifecycle) encoded w
          (now c.env w').1 same marshalled)
    where
      P : Db → Type 0
      P = IsScheduled t

      ran : Bytes → World → Option Error × World
      ran s w' = mapped (run c.env (delayed_script c t at s w') w')

      push : Bytes → World → Option Error × World
      push s w' = reported (report_delayed c t at) (ran s w')

      encoded : World → Option Error × World
      encoded w' = with_result (c.codec.marshal t) push w'

      timely : World → Option Error × World
      timely w' =
          checked (check_delayed_max_delay (now c.env w').0 at w'.lifecycle) encoded
            (now c.env w').1

      admitted :
          (s : Bytes) (w' : World)
          → c.codec.marshal t ≡ inr s
          → Admission (delayed_script c t at s w' w'.db) w'.db P
      admitted s w' encodes = elim (delayed_script-Admission t at s w' w'.db h) [
        | inl refuses ↦ inl refuses
        | inr there ↦ inr (s, encodes, there)
      ]

      marshalled : (w' : World) → w'.db ≡ w.db → Outcome (encoded w') w (P (encoded w').1.db)
      marshalled w' same = with_result-Ends P (c.codec.marshal t) push w w' same (λ s encodes.
          reported-Ends P (report_delayed c t at) (ran s w') w (λ w. refl)
            (mapped-Ends P c.env (delayed_script c t at s w') w w' same (admitted s w' encodes)))

  identified_ttl :
      (t : Task)
      → pos 0 <ℤ milliseconds (unique_ttl c t)
      → pos 0 <ℤ milliseconds (unique_ttl c (identified c t))
  unfolding unique_ttl
  identified_ttl t h = h

  -- Whatever the network does: `EnqueueAt`, of a task whose unique key would be locked for a
  -- millisecond at least, returns an error and leaves the server as it was, or the options and the codec
  -- took the task, and its encoding is in the delayed set of its queue.
  pub enqueue_at-Outcome :
      (t : Task) (at : ℤ) (opts : List TaskOption) (w : World)
      → ((t' : Task) → apply_task_options opts t ≡ inr t' → pos 0 <ℤ milliseconds (unique_ttl c t'))
      → Outcome (enqueue_at c t at opts w) w (
          (t' : Task) × (apply_task_options opts t ≡ inr t')
          × IsScheduled (identified c t') (enqueue_at c t at opts w).1.db)
  unfolding enqueue_at
  enqueue_at-Outcome t at opts w h =
      with_result-Ends
        (λ db.
          (t' : Task) × (apply_task_options opts t ≡ inr t') × IsScheduled (identified c t') db)
        (apply_task_options opts t) (λ t'. enqueue_task_at c (identified c t') at) w w refl
        (λ t' took.
          elim (enqueue_task_at-Outcome (identified c t') at w (identified_ttl t' (h t' took))) [
            | inl undone ↦ inl undone
            | inr did ↦ inr (t', took, did)
          ])
