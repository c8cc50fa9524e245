-- ===== src/Lifecycle/Scripts.antt =====
-- The Lua scripts of internal/taskmq/lifecycle/scripts, each on a whole server: KEYS and ARGV are
-- arguments, `redis.call` is a command, and an error reply of a command ends the script.
use taskmq.Prelude.{
  ℕ, zero, suc, Bytes, Bool, false, ◌&&◌, not, ◌==◌, ◌=b◌, if◌then◌else◌, Option, none, some,
}
use taskmq.Prelude.Int.{ℤ, pos, negsuc, ltb_ℤ, leb_ℤ, ◌+ℤ◌, ◌-ℤ◌}
use taskmq.Redis.{Db, Stream, ZSet, StringValue, Commands, set_stream, set_zset, set_string}

-- What a script returns: a number, the id of a stream entry, or the error of a command.
pub data Reply : Type 0 where
  number : ℤ → Reply
  entry_id : ℕ → Reply
  script_error : Reply

abbrev pub ok_reply : Reply
ok_reply = number (pos 1)

abbrev pub duplicate_reply : Reply
duplicate_reply = number (negsuc 0)

abbrev pub queue_full_reply : Reply
queue_full_reply = number (negsuc 1)

abbrev pub delayed_full_reply : Reply
delayed_full_reply = number (negsuc 2)

-- A script's test `hard > 0 and XLEN >= hard`.
abbrev pub at_limit : ℤ → ℕ → Bool
at_limit limit n = ltb_ℤ (pos 0) limit && leb_ℤ limit (pos n)

abbrev pub negate : ℤ → ℤ
negate (pos zero) = pos 0
negate (pos (suc n)) = negsuc n
negate (negsuc n) = pos (suc n)

abbrev pub equals : Option StringValue → Bytes → Bool
equals none v = false
equals (some s) v = s.value =b v

-- `currentLockVal and currentLockVal ~= lockVal`
abbrev pub held_by_other : Option StringValue → Bytes → Bool
held_by_other none v = false
held_by_other (some s) v = not (s.value =b v)

module _ (c : Commands) where
  -- `XADD stream [MAXLEN ~ maxlen] * task payload`
  unfoldable pub append : ℤ → Bytes → Stream → Stream × ℕ
  append maxlen payload s =
      if ltb_ℤ (pos 0) maxlen then c.xadd_maxlen maxlen payload s else c.xadd payload s

  -- `ZREMRANGEBYRANK key -toDrop -1` for a full set of n members.
  unfoldable pub drop_farthest : ℤ → ZSet → ZSet
  drop_farthest max_count z =
      let to_drop = pos (c.zcard z) -ℤ max_count +ℤ pos 1 in
      if ltb_ℤ (pos 0) to_drop then c.zremrangebyrank (negate to_drop) (negsuc 0) z else z

  -- A full delayed set under the overflow flag: `none` rejects.
  unfoldable pub make_room : ℤ → ℤ → ZSet → Option ZSet
  make_room max_count overflow z =
      if at_limit max_count (c.zcard z)
      then (elim overflow [
        | pos n ↦ (if n == 1 then some (drop_farthest max_count z) else none)
        | negsuc n ↦ none
      ])
      else some z

  -- enqueue_stream.lua
  unfoldable pub enqueue_stream : Bytes → ℤ → ℤ → Bytes → Db → Db × Reply
  enqueue_stream stream hard maxlen payload db =
      let s = db.streams stream in
      if at_limit hard (c.xlen s)
      then (db, queue_full_reply)
      else (set_stream stream (append maxlen payload s).0 db, entry_id (append maxlen payload s).1)

  abbrev pub insert_delayed : Bytes → ℤ → Bytes → Option ZSet → Db → Db × Reply
  insert_delayed delayed score serialized none db = (db, delayed_full_reply)
  insert_delayed delayed score serialized (some z) db =
      (set_zset delayed (c.zadd score serialized z) db, ok_reply)

  -- enqueue_delayed_with_limit.lua
  unfoldable pub enqueue_delayed_with_limit : Bytes → ℤ → Bytes → ℤ → ℤ → Db → Db × Reply
  enqueue_delayed_with_limit delayed score serialized max_count overflow db =
      insert_delayed delayed score serialized (make_room max_count overflow (db.zsets delayed)) db

  abbrev pub lock_and : Bytes → Option StringValue → (Db → Db × Reply) → Db → Db × Reply
  lock_and lock none next db = (db, script_error)
  lock_and lock (some v) next db = next (set_string lock (some v) db)

  -- enqueue_unique_with_limit.lua
  unfoldable pub enqueue_unique_with_limit :
      Bytes → Bytes → Bytes → ℤ → Bytes → ℤ → ℤ → Db → Db × Reply
  enqueue_unique_with_limit lock stream lock_val ttl_ms serialized hard maxlen db =
      let s = db.streams stream in
      if held_by_other (db.strings lock) lock_val
      then (db, duplicate_reply)
      else if at_limit hard (c.xlen s)
      then (db, queue_full_reply)
      else lock_and lock (c.set_px lock_val ttl_ms)
          (λ d. (set_stream stream (append maxlen serialized s).0 d, ok_reply)) db

  abbrev pub lock_and_insert :
      Bytes → Bytes → Option StringValue → ℤ → Bytes → Option ZSet → Db → Db × Reply
  lock_and_insert lock delayed v score serialized none db = (db, delayed_full_reply)
  lock_and_insert lock delayed none score serialized (some z) db =
      (set_zset delayed z db, script_error)
  lock_and_insert lock delayed (some v) score serialized (some z) db =
      (set_zset delayed (c.zadd score serialized z) (set_string lock (some v) db), ok_reply)

  -- enqueue_unique_delayed_limit.lua
  unfoldable pub enqueue_unique_delayed_limit :
      Bytes → Bytes → Bytes → ℤ → Bytes → ℤ → ℤ → ℤ → Db → Db × Reply
  enqueue_unique_delayed_limit lock delayed lock_val ttl_ms serialized score max_count overflow db =
      if held_by_other (db.strings lock) lock_val
      then (db, duplicate_reply)
      else lock_and_insert lock delayed (c.set_px lock_val ttl_ms) score serialized
          (make_room max_count overflow (db.zsets delayed)) db

  -- force_promote_member.lua
  unfoldable pub force_promote_member : Bytes → Bytes → Bytes → ℤ → ℤ → Db → Db × Reply
  force_promote_member delayed stream member hard maxlen db =
      let s = db.streams stream in
      let (z, removed) = c.zrem member (db.zsets delayed) in
      if at_limit hard (c.xlen s)
      then (db, queue_full_reply)
      else if removed == 0
      then (set_zset delayed z db, number (pos 0))
      else (set_stream stream (append maxlen member s).0 (set_zset delayed z db), ok_reply)
