-- ===== src/Worker/Held.antt =====
-- What it is for a message not to be lost, and the calls of the pipeline that keep it so.
use taskmq.Prelude.{
  ℕ, ◌≡◌, ◌⊎◌, inl, inr, refl, ap, sym, subst, ◌∙◌, Bytes, true, arith, length, ◌=b◌, [],
  Bool-cases,
}
use taskmq.Prelude.Int.{ℤ, pos, ◌<ℤ◌}
use taskmq.Task.{Task, milliseconds}
use taskmq.Keys.{stream, delayed, dlq, dlq_index, unique}
use taskmq.Redis.{Db, ZSet, Hash}
use taskmq.Redis.Reference.{has, has_id}
use taskmq.Redis.Laws.{Laws}
use taskmq.Lifecycle.Config.{Config}
use taskmq.Lifecycle.Scripts.{Reply}
use taskmq.World.{World, Answer, reply, failed, run}
use taskmq.World.Run.{run-db}
use taskmq.Broker.Scripts.{unlock, renew_unique_lock}
use taskmq.Broker.Transitions.{
  answer_error, lifecycle_config, move_to_dlq, schedule_retry, defer_rate_limited_task,
  release_unique_lock, renew_lock,
}
use taskmq.Broker.DeadLetters.{IsParked}
use taskmq.Broker.Outcomes.{
  schedule_retry-Outcome, defer_rate_limited_task-Outcome, move_to_dlq-Outcome,
}
use taskmq.Broker.Configuration.{
  run-SameConfig, schedule_retry-SameConfig, defer_rate_limited_task-SameConfig,
  move_to_dlq-SameConfig,
}
use taskmq.Worker.{Worker}

-- The encoding of a task with this id waits in the delayed set of its queue.
abbrev pub IsDelayed : Worker → Bytes → Db → Type 0
IsDelayed p id db =
    (t : Task) × (s : Bytes) × (t.id ≡ id)
    × (p.codec.marshal t ≡ inr s)
    × (has s (db.zsets (delayed t.queue)) ≡ true)

-- The id is among the dead letters of some queue, unless others fill them up to a cap that is set.
abbrev pub IsDead : Bytes → ℤ → Db → Type 0
IsDead id cap db =
    (q : Bytes) × ((has id (db.zsets (dlq q)) ≡ true)
      ⊎ ((pos 0 <ℤ cap) × (pos (length (db.zsets (dlq q))) ≡ cap)))

-- The message is in the stream of its queue, or its task is delayed or dead.
abbrev pub IsHeld : Worker → Bytes → ℕ → Bytes → ℤ → Db → Type 0
IsHeld p queue msg_id id cap db =
    (has_id msg_id (db.streams (stream queue)).entries ≡ true)
    ⊎ IsDelayed p id db
    ⊎ IsDead id cap db

dead-along :
    (z : ZSet) (h : Hash) (serialized : Bytes) {i j : Bytes} {a b : ℤ}
    → i ≡ j
    → a ≡ b
    → IsParked i serialized a z h
    → (has j z ≡ true) ⊎ ((pos 0 <ℤ b) × (pos (length z) ≡ b))
dead-along z h serialized e f (inl (there, _)) = inl (ap (λ i. has i z) (sym e) ∙ there)
dead-along z h serialized e f (inr (set, full)) = inr (subst (λ b. pos 0 <ℤ b) f set, full ∙ f)

answer_error-world : (a : Answer × World) → (answer_error a).1 ≡ a.1
answer_error-world (failed e, w) = refl
answer_error-world (reply r, w) = refl

module _ (p : Worker) (laws : Laws p.env.commands) (queue : Bytes) (msg_id : ℕ) (id : Bytes)
    (cfg : Config) where
  abbrev pub IsSafe : World → Type 0
  IsSafe w = IsHeld p queue msg_id id cfg.dlq_max_count w.db × (lifecycle_config w ≡ cfg)

  -- Calls that leave streams and sorted sets as they are.
  abbrev pub Same : Db → Db → Type 0
  Same db db' = (db'.streams ≡ db.streams) × (db'.zsets ≡ db.zsets)

  Same-IsHeld :
      (db db' : Db)
      → Same db db'
      → IsHeld p queue msg_id id cfg.dlq_max_count db
      → IsHeld p queue msg_id id cfg.dlq_max_count db'
  Same-IsHeld db db' (s, z) h = rw s (rw z h)

  pub run-IsSafe :
      (script : Db → Db × Reply) (w : World)
      → ((db : Db) → Same db (script db).0)
      → IsSafe w
      → IsSafe (run p.env script w).1
  run-IsSafe script w same (h, c) = (
    elim (run-db p.env script w) [
      | inl ran ↦ rw ran (Same-IsHeld w.db (script w.db).0 (same w.db) h)
      | inr (kept, _) ↦ rw kept h
    ],
    run-SameConfig p.env script w ∙ c,
  )

  unlock-Same : (lock owner : Bytes) (db : Db) → Same db (unlock p.env.commands lock owner db).0
  unfolding unlock
  unlock-Same lock owner db = ground arith

  renew-Same :
      (lock owner : Bytes) (ttl : ℤ) (db : Db)
      → Same db (renew_unique_lock p.env.commands lock owner ttl db).0
  unfolding renew_unique_lock
  renew-Same lock owner ttl db = ground arith

  answer-IsSafe :
      (script : Db → Db × Reply) (w : World)
      → ((db : Db) → Same db (script db).0)
      → IsSafe w
      → IsSafe (answer_error (run p.env script w)).1
  answer-IsSafe script w same h =
      rw (answer_error-world (run p.env script w)) (run-IsSafe script w same h)

  pub release_unique_lock-IsSafe :
      (t : Task) (w : World) → IsSafe w → IsSafe (release_unique_lock p.env t w).1
  unfolding release_unique_lock
  release_unique_lock-IsSafe t w h = elim (Bool-cases (t.unique_key =b [])) [
    | inl plain ↦ rw plain h
    | inr named ↦ rw named (answer-IsSafe _ w (unlock-Same (unique t.queue t.unique_key) t.id) h)
  ]

  pub renew_lock-IsSafe :
      (t : Task) (ttl : ℤ) (w : World) → IsSafe w → IsSafe (renew_lock p.env t ttl w).1
  unfolding renew_lock
  renew_lock-IsSafe t ttl w h = elim (Bool-cases (t.unique_key =b [])) [
    | inl plain ↦ rw plain h
    | inr named ↦
        rw named
          (answer-IsSafe _ w (renew-Same (unique t.queue t.unique_key) t.id (milliseconds ttl)) h)
  ]

  pub schedule_retry-IsSafe :
      (t : Task) (stream_key group : Bytes) (run_at : ℤ) (w : World)
      → t.id ≡ id
      → IsSafe w
      → IsSafe (schedule_retry p.env p.codec t stream_key msg_id group run_at w).1
  schedule_retry-IsSafe t stream_key group run_at w e (h, c) = (
    elim (schedule_retry-Outcome p.env laws p.codec t stream_key group msg_id run_at w) [
      | inl (_, kept) ↦ rw kept h
      | inr (s, m, did) ↦ inr (inl (t, s, e, m, did.1))
    ],
    schedule_retry-SameConfig p.env p.codec t msg_id group w stream_key run_at ∙ c,
  )

  pub defer_rate_limited_task-IsSafe :
      (t : Task) (group : Bytes) (run_at : ℤ) (w : World)
      → t.id ≡ id
      → IsSafe w
      → IsSafe (defer_rate_limited_task p.env p.codec msg_id t group run_at w).1
  defer_rate_limited_task-IsSafe t group run_at w e (h, c) = (
    elim (defer_rate_limited_task-Outcome p.env laws p.codec t group msg_id run_at w) [
      | inl (_, kept) ↦ rw kept h
      | inr (s, m, did) ↦ inr (inl (t, s, e, m, did.1))
    ],
    defer_rate_limited_task-SameConfig p.env p.codec t msg_id group w run_at ∙ c,
  )

  pub move_to_dlq-IsSafe :
      (t : Task) (stream_key group dlq_name : Bytes) (w : World)
      → t.id ≡ id
      → IsSafe w
      → IsSafe (move_to_dlq p.env p.codec t stream_key msg_id group dlq_name w).1
  move_to_dlq-IsSafe t stream_key group dlq_name w e (h, c) = (
    elim (move_to_dlq-Outcome p.env laws p.codec t stream_key group msg_id dlq_name w) [
      | inl (_, kept) ↦ rw kept h
      | inr (s, m, did) ↦ inr (
          inr (
            dlq_name,
            dead-along _
                ((move_to_dlq p.env p.codec t stream_key msg_id group dlq_name w).1.db.hashes
                  (dlq_index dlq_name))
                s e (ap (λ x. x.dlq_max_count) c) did.1,
          ))
    ],
    move_to_dlq-SameConfig p.env p.codec t msg_id group w stream_key dlq_name ∙ c,
  )
