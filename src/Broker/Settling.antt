-- ===== src/Broker/Settling.antt =====
-- What the scripts of internal/taskmq/broker/broker.go that end the processing of a message leave of
-- it: the entry is acknowledged and deleted, and a task that goes on is in the delayed set.
use taskmq.Prelude.{
  ℕ, ◌-◌, ◌≡◌, ◌≤◌, ◌<◌, ◌⊎◌, refl, Bytes, true, false, ◌&&◌, List, ◌=b◌, =b_refl, if◌then◌else◌,
  ◌==◌, arith, length, length-take,
}
use taskmq.Prelude.Int.{ℤ, pos}
use taskmq.Redis.{Entry, Db, Stream, ZSet, Commands}
use taskmq.Redis.Reference.{has, has_id, delete}
use taskmq.Redis.Laws.{Laws, Inserted}
use taskmq.Redis.Members.{length-insert, has-insert, length-without-le}
use taskmq.Redis.Streams.{has_id-delete}
use taskmq.Lifecycle.Capacity.{drop_farthest_lem}
use taskmq.Broker.Scripts.{
  settle_entry, release_lock, system_room, requeue, dead_letter, handle_failure_dlq,
  handle_failure_retry, defer_rate_limited, complete,
}

-- The entry is neither in the stream nor pending in the group; other entries and other pending
-- marks of the stream are as before, and so are the other streams.
pub record IsSettled (stream group : Bytes) (msg_id : ℕ) (before after : Bytes → Stream)
    : Type 0 where
  pub entries : (after stream).entries ≡ delete msg_id (before stream).entries
  pub gone : has_id msg_id (after stream).entries ≡ false
  pub pending :
      (g : Bytes) (i : ℕ)
      → (after stream).pending g i
        ≡ (if (group =b g) && (msg_id == i) then false else (before stream).pending g i)
  pub others : (k : Bytes) → after k ≡ (if stream =b k then after stream else before k)

module _ (c : Commands) (laws : Laws c) where
  pub settle_entry-IsSettled :
      (stream group : Bytes) (msg_id : ℕ) (db : Db)
      → IsSettled stream group msg_id db.streams (settle_entry c stream group msg_id db).streams
  unfolding settle_entry
  settle_entry-IsSettled stream group msg_id db = record {
    entries = simp (=b_refl, laws.xdel_entries, laws.xack_entries);
    gone = simp (=b_refl, laws.xdel_entries, laws.xack_entries) (gone_lem _);
    pending = λ g i. simp (=b_refl, laws.xdel_pending, laws.xack_pending);
    others = λ k. simp =b_refl;
  }
    where
      gone_lem : (es : List Entry) → has_id msg_id (delete msg_id es) ≡ false
      gone_lem es = ground (arith, has_id-delete msg_id msg_id es)

  release_lock-streams :
      (lock owner : Bytes) (db : Db) → (release_lock c lock owner db).streams ≡ db.streams
  unfolding release_lock
  release_lock-streams lock owner db = ground arith

  release_lock-rest :
      (lock owner : Bytes) (db : Db)
      → ((release_lock c lock owner db).zsets ≡ db.zsets)
        × ((release_lock c lock owner db).hashes ≡ db.hashes)
  unfolding release_lock
  release_lock-rest lock owner db = ground arith

  -- The system path makes room in a full set, it never refuses.
  pub system_room-length :
      (limit : ℕ) (z : ZSet) → 0 < limit → length (system_room c (pos limit) (pos 1) z) < limit
  unfolding system_room
  system_room-length limit z h =
      ground
        (arith, laws.zcard_length z, drop_farthest_lem c laws limit z h, length-take (limit - 1) z)

  -- Whatever the limit and the flag, the task is in the set.
  pub requeue-has :
      (delayed : Bytes) (score : ℤ) (serialized : Bytes) (delayed_max overflow : ℤ) (db : Db)
      → has serialized ((requeue c delayed score serialized delayed_max overflow db).zsets delayed)
        ≡ true
  unfolding requeue
  requeue-has delayed score serialized delayed_max overflow db = simp =b_refl (
      ground (
        arith,
        has-insert
            (laws.zadd_inserts score serialized
              (system_room c delayed_max overflow (db.zsets delayed)))
            serialized,
        =b_refl serialized,
      ))

  -- What the delayed set holds after a requeue under the drop flag.
  pub requeue-Requeued :
      (delayed : Bytes) (score : ℤ) (serialized : Bytes) (limit : ℕ) (db : Db)
      → let z = (requeue c delayed score serialized (pos limit) (pos 1) db).zsets delayed in
        (has serialized z ≡ true) × ((limit ≡ 0) ⊎ (length z ≤ limit))
  unfolding requeue
  requeue-Requeued delayed score serialized limit db =
      simp =b_refl (ground (arith, has-insert inserted serialized, =b_refl serialized), within)
    where
      room : ZSet
      room = system_room c (pos limit) (pos 1) (db.zsets delayed)

      inserted : Inserted score serialized room (c.zadd score serialized room)
      inserted = laws.zadd_inserts score serialized room

      within : (limit ≡ 0) ⊎ (length (c.zadd score serialized room) ≤ limit)
      within = ground (
        arith,
        length-insert inserted,
        length-without-le serialized room,
        system_room-length limit (db.zsets delayed),
      )

  -- A task that is retried or deferred is settled in its stream and waits in the delayed set, which
  -- is within its limit, if it has one, however full it was.
  pub requeue-settles :
      (delayed stream group : Bytes) (msg_id : ℕ) (score : ℤ) (serialized : Bytes) (limit : ℕ)
      (db : Db)
      → let retried =
          (handle_failure_retry c delayed stream msg_id group score serialized
            (pos limit)
            (pos 1)
            db).0 in
        let deferred =
          (defer_rate_limited c delayed stream group msg_id score serialized
            (pos limit)
            (pos 1)
            db).0 in
        IsSettled stream group msg_id db.streams retried.streams
        × (has serialized (retried.zsets delayed) ≡ true)
        × ((limit ≡ 0) ⊎ (length (retried.zsets delayed) ≤ limit))
        × (deferred ≡ retried)
  unfolding handle_failure_retry defer_rate_limited
  requeue-settles delayed stream group msg_id score serialized limit db =
      unfold requeue in
      (
        settle_entry-IsSettled stream group msg_id db,
        unfold requeue in
            (requeue-Requeued delayed score serialized limit
              (settle_entry c stream group msg_id db)).0,
        (requeue-Requeued delayed score serialized limit (settle_entry c stream group msg_id db)).1,
        refl,
      )

  -- A completed task is settled in its stream, and completing touches no set and no hash.
  pub complete-settles :
      (stream lock group : Bytes) (msg_id : ℕ) (lock_val : Bytes) (db : Db)
      → let done = (complete c stream lock msg_id group lock_val db).0 in
        IsSettled stream group msg_id db.streams done.streams
        × (done.zsets ≡ db.zsets)
        × (done.hashes ≡ db.hashes)
  unfolding complete
  complete-settles stream lock group msg_id lock_val db = (
    simp release_lock-streams (settle_entry-IsSettled stream group msg_id db),
    unfold settle_entry in
        (release_lock-rest lock lock_val (settle_entry c stream group msg_id db)).0,
    unfold settle_entry in
        (release_lock-rest lock lock_val (settle_entry c stream group msg_id db)).1,
  )

  -- A dead task is settled in its stream.
  pub handle_failure_dlq-settles :
      (target stream lock dlq_index : Bytes) (msg_id : ℕ) (group : Bytes) (score : ℤ)
      (serialized lock_val task_id : Bytes) (max_count : ℤ) (db : Db)
      → IsSettled stream group msg_id db.streams
          (handle_failure_dlq c target stream lock dlq_index msg_id group score serialized lock_val
            task_id max_count db).0.streams
  unfolding handle_failure_dlq dead_letter
  handle_failure_dlq-settles target stream lock dlq_index msg_id group score serialized lock_val
        task_id max_count db =
      simp release_lock-streams (settle_entry-IsSettled stream group msg_id db)

  -- So is one that is put into the delayed set, whatever the limit and the flag.
  pub retry-settles :
      (delayed stream group : Bytes) (msg_id : ℕ) (score : ℤ) (serialized : Bytes)
      (delayed_max overflow : ℤ) (db : Db)
      → let retried =
          (handle_failure_retry c delayed stream msg_id group score serialized delayed_max overflow
            db).0 in
        IsSettled stream group msg_id db.streams retried.streams
        × (has serialized (retried.zsets delayed) ≡ true)
  unfolding handle_failure_retry
  retry-settles delayed stream group msg_id score serialized delayed_max overflow db = (
    unfold requeue in settle_entry-IsSettled stream group msg_id db,
    requeue-has delayed score serialized delayed_max overflow
        (settle_entry c stream group msg_id db),
  )
