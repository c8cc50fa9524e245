-- ===== src/Broker/Scripts.antt =====
-- The Lua scripts of internal/taskmq/broker/broker.go.
use taskmq.Prelude.{ℕ, Bytes, ◌&&◌, not, ◌==◌, ◌=b◌, if◌then◌else◌, none, List, [], ◌∷◌, length}
use taskmq.Prelude.Int.{ℤ, pos, negsuc, ltb_ℤ, ◌+ℤ◌}
use taskmq.Redis.{Db, ZSet, Hash, Commands, set_stream, set_zset, set_hash, set_string}
use taskmq.Lifecycle.Scripts.{Reply, number, at_limit, negate, equals, drop_farthest}

module _ (c : Commands) where
  -- `XACK stream group msgId` and `XDEL stream msgId`
  unfoldable pub settle_entry : Bytes → Bytes → ℕ → Db → Db
  settle_entry stream group msg_id db =
      set_stream stream (c.xdel msg_id (c.xack group msg_id (db.streams stream))) db

  -- A lock is deleted by its owner; an empty key or value stands for no lock.
  unfoldable pub release_lock : Bytes → Bytes → Db → Db
  release_lock lock owner db =
      if not (lock =b []) && (not (owner =b []) && equals (db.strings lock) owner)
      then set_string lock none db
      else db

  unfoldable pub hdel_all : List Bytes → Hash → Hash
  hdel_all [] h = h
  hdel_all (f ∷ fs) h = hdel_all fs (c.hdel f h)

  -- The members beyond the newest `max_count`, and the two keys without them.
  unfoldable pub evicted : ℤ → ZSet → List Bytes
  evicted max_count z = c.zrange (pos 0) (negate (max_count +ℤ pos 1)) z

  unfoldable pub trim_dlq : ℤ → ZSet → ZSet
  trim_dlq max_count z = c.zremrangebyrank (pos 0) (negate (max_count +ℤ pos 1)) z

  -- `action == "dlq"`, behind XACK and XDEL
  unfoldable pub dead_letter :
      Bytes → Bytes → Bytes → ℤ → Bytes → Bytes → Bytes → ℤ → Db → Db × Reply
  dead_letter target lock dlq_index score serialized lock_val task_id max_count db =
      let z = c.zadd score task_id (db.zsets target) in
      let h =
        if not (dlq_index =b []) && not (task_id =b [])
        then c.hset task_id serialized (db.hashes dlq_index)
        else db.hashes dlq_index in
      let cut = ltb_ℤ (pos 0) max_count && not (dlq_index =b []) in
      let out = if cut then evicted max_count z else [] in
      let z' = if cut then trim_dlq max_count z else z in
      (
        release_lock lock lock_val (set_hash dlq_index (hdel_all out h) (set_zset target z' db)),
        number (pos (length out)),
      )

  -- The members of the delayed set, less what a full set drops under flag 1; another flag drops
  -- nothing, and never rejects.
  unfoldable pub system_room : ℤ → ℤ → ZSet → ZSet
  system_room delayed_max overflow z =
      if at_limit delayed_max (c.zcard z)
      then (elim overflow [
        | pos n ↦ (if n == 1 then drop_farthest c delayed_max z else z)
        | negsuc n ↦ z
      ])
      else z

  unfoldable pub requeue : Bytes → ℤ → Bytes → ℤ → ℤ → Db → Db
  requeue delayed score serialized delayed_max overflow db =
      set_zset delayed
        (c.zadd score serialized (system_room delayed_max overflow (db.zsets delayed))) db

  -- luaHandleFailure with action "dlq", which gets no ARGV[9] and ARGV[10]
  unfoldable pub handle_failure_dlq :
      Bytes → Bytes → Bytes → Bytes → ℕ → Bytes → ℤ → Bytes → Bytes → Bytes → ℤ → Db → Db × Reply
  handle_failure_dlq target stream lock dlq_index msg_id group score serialized lock_val task_id
        max_count db =
      dead_letter target lock dlq_index score serialized lock_val task_id max_count
        (settle_entry stream group msg_id db)

  -- luaHandleFailure with any other action, here "retry"
  unfoldable pub handle_failure_retry :
      Bytes → Bytes → ℕ → Bytes → ℤ → Bytes → ℤ → ℤ → Db → Db × Reply
  handle_failure_retry target stream msg_id group score serialized delayed_max overflow db = (
    requeue target score serialized delayed_max overflow (settle_entry stream group msg_id db),
    number (pos 0),
  )

  -- luaDeferRateLimitedTask
  unfoldable pub defer_rate_limited :
      Bytes → Bytes → Bytes → ℕ → ℤ → Bytes → ℤ → ℤ → Db → Db × Reply
  defer_rate_limited delayed stream group msg_id score serialized delayed_max overflow db = (
    requeue delayed score serialized delayed_max overflow (settle_entry stream group msg_id db),
    number (pos 1),
  )

  -- luaUnlock
  unfoldable pub unlock : Bytes → Bytes → Db → Db × Reply
  unlock lock owner db =
      if equals (db.strings lock) owner
      then (set_string lock none db, number (pos 1))
      else (db, number (pos 0))

  -- luaCompleteTask
  unfoldable pub complete : Bytes → Bytes → ℕ → Bytes → Bytes → Db → Db × Reply
  complete stream lock msg_id group lock_val db =
      (release_lock lock lock_val (settle_entry stream group msg_id db), number (pos 1))

  -- luaRenewUniqueLock: PEXPIRE of a time that is not positive deletes the key.
  unfoldable pub renew_unique_lock : Bytes → Bytes → ℤ → Db → Db × Reply
  renew_unique_lock lock owner ttl_ms db =
      if equals (db.strings lock) owner
      then (set_string lock (c.pexpire ttl_ms (db.strings lock)) db, number (pos 1))
      else (db, number (pos 0))
