-- ===== src/Meta.antt =====
-- internal/taskmq/meta/meta.go: the hash with the metadata of a task, and the index of the completed ones.
pub mod Info
pub mod Ops
pub mod Fields
pub mod Progress
pub mod Completed
pub mod Purge
pub mod Pipelines
use taskmq.Prelude.{
  ℕ, zero, suc, ◌*◌, ◌-◌, ◌&&◌, Bool, Bytes, codes, ◌⊎◌, inl, inr, List, [], ◌∷◌, ◌++◌, ◌=b◌,
  length, if◌then◌else◌, Option, none, some,
}
use taskmq.Prelude.Int.{ℤ, pos, negsuc, leb_ℤ, ltb_ℤ, pos_part, div_trunc}
use taskmq.Prelude.Decimal.{decimal}
use taskmq.Errors.{Error}
use taskmq.Task.{Task, zero_time, unix_milli}
use taskmq.Keys.{meta, completed}
use taskmq.Redis.{Db, Commands, Hash, set_hash, set_zset, set_expiry, del_hash}
use taskmq.World.{Env, World, call, now, TaskState, pending, active, delayed, retry, dlq, cancelled}

-- `State...`
abbrev pub state_name : TaskState → Bytes
state_name pending = codes "pending"
state_name active = codes "active"
state_name delayed = codes "delayed"
state_name retry = codes "retry"
state_name TaskState.completed = codes "completed"
state_name dlq = codes "dlq"
state_name cancelled = codes "cancelled"

abbrev pub Fields : Type 0
Fields = List (Bytes × Bytes)

-- `HSET key field value ...`
unfoldable pub hset_all : Commands → Fields → Hash → Hash
hset_all c [] h = h
hset_all c ((f, v) ∷ rest) h = hset_all c rest (c.hset f v h)

-- `IsZero` of a time
abbrev pub is_zero_time : ℤ → Bool
is_zero_time t = leb_ℤ t zero_time && leb_ℤ zero_time t

unfoldable pub created_ms : Task → ℤ → ℤ
created_ms t now_ms = if is_zero_time t.created_at then now_ms else unix_milli t.created_at

-- The fields that Put writes.
abbrev pub put_fields : Task → Bytes → ℤ → Fields
put_fields t state now_ms =
    (codes "id", t.id)
    ∷ (codes "queue", t.queue)
    ∷ (codes "name", t.name)
    ∷ (codes "state", state)
    ∷ (codes "retry", decimal t.retry)
    ∷ (codes "max_retry", decimal t.max_retry)
    ∷ (codes "timeout_ms", decimal t.timeout_ms)
    ∷ (codes "deadline_ms", decimal t.deadline_ms)
    ∷ (codes "unique_key", t.unique_key)
    ∷ (codes "group_key", t.group_key)
    ∷ (codes "last_error", t.last_error)
    ∷ (codes "updated_at", decimal now_ms)
    ∷ (codes "created_at", decimal (created_ms t now_ms))
    ∷ []

-- The value is set where it is not empty.
abbrev pub unless_empty : Bytes → Bytes → Fields
unless_empty field value = if value =b [] then [] else (field, value) ∷ []

abbrev pub state_fields : Bytes → Bytes → Bytes → ℤ → Fields
state_fields state last_error stream_id now_ms =
    (codes "state", state)
    ∷ (codes "updated_at", decimal now_ms)
    ∷ (unless_empty (codes "last_error") last_error ++ unless_empty (codes "stream_id") stream_id)

abbrev pub completed_fields : Task → Bytes → ℤ → Fields
completed_fields t result now_ms =
    (codes "id", t.id)
    ∷ (codes "queue", t.queue)
    ∷ (codes "name", t.name)
    ∷ (codes "state", state_name TaskState.completed)
    ∷ (codes "retry", decimal t.retry)
    ∷ (codes "max_retry", decimal t.max_retry)
    ∷ (codes "timeout_ms", decimal t.timeout_ms)
    ∷ (codes "deadline_ms", decimal t.deadline_ms)
    ∷ (codes "updated_at", decimal now_ms)
    ∷ (codes "completed_at", decimal now_ms)
    ∷ (codes "last_error", [])
    ∷ unless_empty (codes "result") result

-- `if percent < 0 { percent = 0 }` and `if percent > 100 { percent = 100 }`
unfoldable pub clamp : ℤ → ℤ
clamp percent =
    let p = if ltb_ℤ percent (pos 0) then pos 0 else percent in
    if ltb_ℤ (pos 100) p then pos 100 else p

abbrev pub progress_fields : ℤ → Bytes → ℤ → Fields
progress_fields percent text now_ms =
    (codes "progress", decimal (clamp percent))
    ∷ (codes "progress_data", text)
    ∷ (codes "updated_at", decimal now_ms)
    ∷ []

-- `if batch <= 0 { batch = 100 }`
abbrev pub batch_or_default : ℤ → ℤ
batch_or_default batch = if leb_ℤ batch (pos 0) then pos 100 else batch

-- The milliseconds of `PEXPIRE` by nanoseconds: those below one are rounded up to it.
unfoldable pub expire_ms : ℤ → ℤ
expire_ms retention =
    if ltb_ℤ (pos 0) retention && ltb_ℤ retention (pos 1000000)
    then pos 1
    else div_trunc retention 1000000

-- `.Err()` of a call
abbrev pub err {ℓ} : {A : Type ℓ} → (Error ⊎ A) × World → Option Error × World
err (inl e, w) = (some e, w)
err (inr _, w) = (none, w)

module _ (c : Commands) where
  abbrev pub hset_script : Bytes → Fields → Db → Db × Unit {0}
  hset_script key fields db = (set_hash key (hset_all c fields (db.hashes key)) db, tt)

  abbrev pub del_script : Bytes → Db → Db × Unit {0}
  del_script key db = (del_hash key db, tt)

  -- `if maxCount > 0 { pipe.ZRemRangeByRank(..., 0, -(maxCount + 1)) }`
  abbrev pub cap_completed : Bytes → ℤ → Db → Db
  cap_completed key max_count db =
      if ltb_ℤ (pos 0) max_count
      then set_zset key (c.zremrangebyrank (pos 0) (negsuc (pos_part max_count)) (db.zsets key)) db
      else db

  -- The pipeline of MarkCompleted
  abbrev pub index_completed : Task → Bytes → ℤ → ℤ → Db → Db
  index_completed t result retention now_ms db =
      let key = meta t.queue t.id in
      let index = completed t.queue in
      let db = (hset_script key (completed_fields t result now_ms) db).0 in
      let db = set_expiry key (some (expire_ms retention)) db in
      set_zset index (c.zadd now_ms t.id (db.zsets index)) db

  abbrev pub completed_script : Task → Bytes → ℤ → ℤ → ℤ → Db → Db × Unit {0}
  completed_script t result retention max_count now_ms db = (
    cap_completed (completed t.queue) max_count (index_completed t result retention now_ms db),
    tt,
  )

  -- The pipeline of PurgeExpiredCompleted
  unfoldable pub purge_each : Bytes → List Bytes → Db → Db
  purge_each queue [] db = db
  purge_each queue (id ∷ ids) db =
      let db = del_hash (meta queue id) db in
      let index = completed queue in
      purge_each queue ids (set_zset index (c.zrem id (db.zsets index)).0 db)

  abbrev pub expired : Bytes → ℤ → ℤ → Db → Db × List Bytes
  expired queue before_ms batch db =
      (db, c.zrangebyscore_upto before_ms (pos_part batch) (db.zsets (completed queue)))

module _ (env : Env) where
  unfoldable pub put : Task → Bytes → World → Option Error × World
  put t state w =
      let (at, w') = now env w in
      if t.id =b []
      then (none, w)
      else err (
          call env
            (hset_script env.commands (meta t.queue t.id) (put_fields t state (unix_milli at))) w')

  unfoldable pub set_state : Bytes → Bytes → Bytes → Bytes → Bytes → World → Option Error × World
  set_state queue task_id state last_error stream_id w =
      let (at, w') = now env w in
      if task_id =b []
      then (none, w)
      else err (
          call env
            (hset_script env.commands (meta queue task_id)
              (state_fields state last_error stream_id (unix_milli at)))
            w')

  unfoldable pub mark_completed : Task → Bytes → ℤ → ℤ → World → Option Error × World
  mark_completed t result retention max_count w =
      let (at, w') = now env w in
      if t.id =b []
      then (none, w)
      else if leb_ℤ retention (pos 0)
      then err (call env (del_script env.commands (meta t.queue t.id)) w)
      else err
          (call env (completed_script env.commands t result retention max_count (unix_milli at)) w')

  -- The task is changed for its caller too.
  unfoldable pub mark_dlq : Task → Bytes → World → Task × (Option Error × World)
  mark_dlq t err_msg w =
      let t' = record t { last_error = err_msg } in (t', put t' (state_name dlq) w)

  unfoldable pub mark_retry : Task → Bytes → World → Task × (Option Error × World)
  mark_retry t err_msg w =
      let t' = if err_msg =b [] then t else record t { last_error = err_msg } in
      (t', put t' (state_name retry) w)

  unfoldable pub delete : Bytes → Bytes → World → Option Error × World
  delete queue task_id w = err (call env (del_script env.commands (meta queue task_id)) w)

  unfoldable pub set_progress : Bytes → Bytes → ℤ → Bytes → World → Option Error × World
  set_progress queue task_id percent text w =
      let (at, w') = now env w in
      if task_id =b []
      then (none, w)
      else err (
          call env
            (hset_script env.commands (meta queue task_id)
              (progress_fields percent text (unix_milli at)))
            w')

  abbrev pub counted : ℕ → Option Error × World → Option Error × (ℕ × World)
  counted n (some e, w) = (some e, (0, w))
  counted n (none, w) = (none, (n, w))

  abbrev pub purge_script : Bytes → List Bytes → Db → Db × Unit {0}
  purge_script queue ids db = (purge_each env.commands queue ids db, tt)

  abbrev pub purged : Bytes → (Error ⊎ List Bytes) × World → (Db → Db) → Option Error × (ℕ × World)
  purged queue (inl e, w) others = (some e, (0, w))
  purged queue (inr [], w) others = (none, (0, w))
  purged queue (inr (id ∷ ids), w) others =
      counted (length (id ∷ ids))
        (err (call env (purge_script queue (id ∷ ids)) (record w { db = others w.db })))

  -- Between its two calls other clients act on the server: what they do is an argument.
  unfoldable pub purge_expired_completed :
      Bytes → ℤ → ℤ → (Db → Db) → World → Option Error × (ℕ × World)
  purge_expired_completed queue before_ms batch others w =
      purged queue (call env (expired env.commands queue before_ms (batch_or_default batch)) w)
        others
