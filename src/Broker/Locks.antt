-- ===== src/Broker/Locks.antt =====
-- The unique locks under the scripts of internal/taskmq/broker/broker.go.
use taskmq.Prelude.{ℕ, ◌≡◌, ◌≢◌, refl, Bytes, true, false, [], =b_iff, =b_refl, =b_ne, arith, none}
use taskmq.Prelude.Int.{ℤ}
use taskmq.Redis.{Db, Commands}
use taskmq.Lifecycle.Scripts.{held_by_other}
use taskmq.Broker.Scripts.{
  settle_entry, release_lock, requeue, dead_letter, handle_failure_dlq, handle_failure_retry,
  defer_rate_limited, unlock, complete, renew_unique_lock,
}

module _ (c : Commands) where
  release_lock-other :
      (k lock owner : Bytes) (db : Db)
      → held_by_other (db.strings k) owner ≡ true
      → (release_lock c lock owner db).strings k ≡ db.strings k
  unfolding release_lock
  release_lock-other k lock owner db h = ground (arith, =b_iff lock k)

  -- A lock that another task holds outlives every script that settles a task, whatever lock the
  -- script is given.
  pub settle-keeps_other_lock :
      (k target stream lock dlq_index : Bytes) (msg_id : ℕ) (group : Bytes) (score : ℤ)
      (serialized owner task_id : Bytes) (max_count overflow ttl_ms : ℤ) (db : Db)
      → held_by_other (db.strings k) owner ≡ true
      → ((complete c stream lock msg_id group owner db).0.strings k ≡ db.strings k)
        × ((handle_failure_dlq c target stream lock dlq_index msg_id group score serialized owner
                task_id max_count db).0.strings
              k
            ≡ db.strings k)
        × ((handle_failure_retry c target stream msg_id group score serialized max_count overflow
                db).0.strings
              k
            ≡ db.strings k)
        × ((defer_rate_limited c target stream group msg_id score serialized max_count overflow
                db).0.strings
              k
            ≡ db.strings k)
        × ((unlock c lock owner db).0.strings k ≡ db.strings k)
        × ((renew_unique_lock c lock owner ttl_ms db).0.strings k ≡ db.strings k)
  unfolding complete handle_failure_dlq handle_failure_retry defer_rate_limited settle_entry
      dead_letter requeue unlock renew_unique_lock
  settle-keeps_other_lock k target stream lock dlq_index msg_id group score serialized owner task_id
        max_count overflow ttl_ms db h =
      (
        release_lock-other k lock owner _ h,
        release_lock-other k lock owner _ h,
        refl,
        refl,
        ground (arith, =b_iff lock k),
        ground (arith, =b_iff lock k),
      )

  release_lock-own :
      (lock owner : Bytes) (db : Db)
      → lock ≢ []
      → owner ≢ []
      → held_by_other (db.strings lock) owner ≡ false
      → (release_lock c lock owner db).strings lock ≡ none
  unfolding release_lock
  release_lock-own lock owner db named owned h =
      ground (arith, =b_ne lock [] named, =b_ne owner [] owned, =b_refl lock)

  -- The owner's own named lock is gone once the task is completed, dead or unlocked.
  pub settle-frees_own_lock :
      (target stream lock dlq_index : Bytes) (msg_id : ℕ) (group : Bytes) (score : ℤ)
      (serialized owner task_id : Bytes) (max_count : ℤ) (db : Db)
      → lock ≢ []
      → owner ≢ []
      → held_by_other (db.strings lock) owner ≡ false
      → ((complete c stream lock msg_id group owner db).0.strings lock ≡ none)
        × ((handle_failure_dlq c target stream lock dlq_index msg_id group score serialized owner
                task_id max_count db).0.strings
              lock
            ≡ none)
        × ((unlock c lock owner db).0.strings lock ≡ none)
  unfolding complete handle_failure_dlq settle_entry dead_letter unlock
  settle-frees_own_lock target stream lock dlq_index msg_id group score serialized owner task_id
        max_count db named owned h =
      (
        release_lock-own lock owner _ named owned h,
        release_lock-own lock owner _ named owned h,
        ground (arith, =b_refl lock),
      )
