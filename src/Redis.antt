-- ===== src/Redis.antt =====
-- The Redis server as the source uses it: the values of the keys, and the commands of the scripts,
-- which are parameters. `Redis.Laws` states the documented behaviour of the commands.
pub mod Reference
pub mod Laws
pub mod Members
pub mod Streams
pub mod Ranks
pub mod Scores
pub mod Ages
pub mod Memory
use taskmq.Prelude.{ℕ, Bytes, Bool, List, Option, none, ◌=b◌, if◌then◌else◌}
use taskmq.Prelude.Int.{ℤ}

-- An entry of a stream: its id, in the order of ids, and the value of its field `task`.
pub record Entry : Type 0 where
  pub id : ℕ
  pub task : Bytes

-- The entries in order, and for each consumer group which ids are pending, the last id that it
-- delivered, and whether it has been created. Id 0 stands for 0-0, which no entry has.
pub record Stream : Type 0 where
  pub entries : List Entry
  pub pending : Bytes → ℕ → Bool
  pub last_delivered : Bytes → ℕ
  pub groups : Bytes → Bool

pub record Member : Type 0 where
  pub score : ℤ
  pub member : Bytes

-- The members of a sorted set in the order of their ranks.
abbrev pub ZSet : Type 0
ZSet = List Member

abbrev pub Hash : Type 0
Hash = Bytes → Option Bytes

-- `ttl_ms` is 0 for a value that does not expire.
pub record StringValue : Type 0 where
  pub value : Bytes
  pub ttl_ms : ℤ

-- The keys of a server by type. A key that is not there holds an empty stream, sorted set or hash.
-- No key is used at two types: `Keys.Kinds.name-injective` has that each key has one use.
pub record Db : Type 0 where
  pub streams : Bytes → Stream
  pub zsets : Bytes → ZSet
  pub hashes : Bytes → Hash
  -- For the hashes that expire, the time to live in milliseconds that was set last
  pub expiries : Bytes → Option ℤ
  pub strings : Bytes → Option StringValue

abbrev pub update {ℓ} : {A : Type ℓ} → (Bytes → A) → Bytes → A → Bytes → A
update f k v j = if k =b j then v else f j

abbrev pub set_stream : Bytes → Stream → Db → Db
set_stream k s db = record db { streams = update db.streams k s }

abbrev pub set_zset : Bytes → ZSet → Db → Db
set_zset k z db = record db { zsets = update db.zsets k z }

abbrev pub set_hash : Bytes → Hash → Db → Db
set_hash k h db = record db { hashes = update db.hashes k h }

abbrev pub set_expiry : Bytes → Option ℤ → Db → Db
set_expiry k ttl db = record db { expiries = update db.expiries k ttl }

-- `DEL` of a hash
abbrev pub del_hash : Bytes → Db → Db
del_hash k db = set_expiry k none (set_hash k (λ f. none) db)

abbrev pub set_string : Bytes → Option StringValue → Db → Db
set_string k v db = record db { strings = update db.strings k v }

-- The commands, each on the value of its key. Those with a reply that is used return it too.
pub record Commands : Type 0 where
  pub xlen : Stream → ℕ
  pub xadd : Bytes → Stream → Stream × ℕ
  pub xadd_maxlen : ℤ → Bytes → Stream → Stream × ℕ
  pub xack : Bytes → ℕ → Stream → Stream
  pub xdel : ℕ → Stream → Stream
  -- `XTRIM key MINID ~ id LIMIT count`
  pub xtrim_minid : ℕ → ℤ → Stream → Stream × ℕ
  -- The lowest pending id in the summary of `XPENDING key group`; `none` without pending ids.
  pub xpending_lower : Bytes → Stream → Option ℕ
  -- `XGROUP CREATE key group $`; `none` is the error BUSYGROUP.
  pub xgroup_create : Bytes → Stream → Option Stream
  -- `XREADGROUP GROUP group consumer COUNT 1 STREAMS key >`; `none` is the nil reply of a timeout.
  pub xreadgroup : Bytes → Stream → Option (Stream × Entry)
  -- `XAUTOCLAIM key group consumer min-idle start COUNT count`: the stream, where pending ids of entries that
  -- are deleted may be dropped, what is claimed, and the next cursor. The idle times, the owners and the
  -- delivery counts of pending entries are not part of the state.
  pub xautoclaim : Bytes → ℕ → ℕ → Stream → Stream × (List Entry × ℕ)
  -- `XPENDING key group start end count consumer`: ids with their delivery counts
  pub xpending_ext : Bytes → ℕ → ℕ → ℕ → Stream → List (ℕ × ℤ)
  pub zcard : ZSet → ℕ
  pub zadd : ℤ → Bytes → ZSet → ZSet
  pub zrem : Bytes → ZSet → ZSet × ℕ
  pub zremrangebyrank : ℤ → ℤ → ZSet → ZSet
  pub zrange : ℤ → ℤ → ZSet → List Bytes
  pub zrange_withscores : ℤ → ℤ → ZSet → List Member
  pub zrangebyscore : ℤ → ℤ → ℕ → ZSet → List Bytes
  -- `ZRANGEBYSCORE key -inf hi LIMIT 0 count`
  pub zrangebyscore_upto : ℤ → ℕ → ZSet → List Bytes
  pub hset : Bytes → Bytes → Hash → Hash
  -- `HINCRBY key field n`; `none` is an error: the value is no integer, or leaves an int64.
  pub hincrby : Bytes → ℤ → Hash → Option Hash
  pub hdel : Bytes → Hash → Hash
  -- `SET key value PX ttl`; `none` is the error reply for an expire time that is not positive.
  pub set_px : Bytes → ℤ → Option StringValue
  -- `PEXPIRE key ttl`; a time that is not positive deletes the key.
  pub pexpire : ℤ → Option StringValue → Option StringValue
