-- ===== src/Runner/Retention/Aged.antt =====
-- `purgeDLQByAge` of internal/taskmq/runner/retention_janitor.go: dead letters that are too old are removed.
pub mod Deleting
pub mod Emptied
use taskmq.Prelude.{
  ℕ, zero, suc, ◌+◌, Bytes, ◌⊎◌, inl, inr, List, [], ◌∷◌, length, ltb, if◌then◌else◌, Option, none,
  some,
}
use taskmq.Prelude.Int.{ℤ, ◌-ℤ◌}
use taskmq.Errors.{Error}
use taskmq.Task.{unix_milli}
use taskmq.Keys.{dlq, dlq_index}
use taskmq.Meta.{err}
use taskmq.Redis.{Db, set_zset, set_hash}
use taskmq.World.{World, call, now}
use taskmq.Runner.Retention.{RetentionJanitor}
use taskmq.Runner.Retention.Cancelled.{Round, ended, more, batch}

-- The error of a pipeline is that of the first command that failed.
abbrev pub earlier : Option Error → Option Error → Option Error
earlier none e = e
earlier (some e) _ = some e

module _ (j : RetentionJanitor) where
  -- `ZREM` and `HDEL` of an id
  abbrev pub remove_letter : Bytes → Db → Db × Unit {0}
  remove_letter id db =
      (set_zset (dlq j.queue) (j.env.commands.zrem id (db.zsets (dlq j.queue))).0 db, tt)

  abbrev pub remove_entry : Bytes → Db → Db × Unit {0}
  remove_entry id db =
      (set_hash (dlq_index j.queue) (j.env.commands.hdel id (db.hashes (dlq_index j.queue))) db, tt)

  -- The pipeline is no transaction: each of its commands is executed or fails for itself.
  unfoldable pub delete_each : List Bytes → World → Option Error × World
  delete_each [] w = (none, w)
  delete_each (id ∷ ids) w =
      let (e, w) = err (call j.env (remove_letter id) w) in
      let (e', w) = err (call j.env (remove_entry id) w) in
      let (rest, w) = delete_each ids w in (earlier e (earlier e' rest), w)

  abbrev pub deleted : ℕ → ℕ → Option Error × World → Round
  deleted total n (some e, w) = ended total (some e) w
  deleted total n (none, w) = if ltb n batch then ended (total + n) none w else more (total + n) w

  abbrev pub listed : ℕ → (Error ⊎ List Bytes) × World → Round
  listed total (inl e, w) = ended total (some e) w
  listed total (inr [], w) = ended total none w
  listed total (inr (id ∷ ids), w) = deleted total (length (id ∷ ids)) (delete_each (id ∷ ids) w)

  abbrev pub list_aged : ℤ → Db → Db × List Bytes
  list_aged cutoff db =
      (db, j.env.commands.zrangebyscore_upto cutoff batch (db.zsets (dlq j.queue)))

  unfoldable pub purge_aged : ℤ → ℕ → World → Round
  purge_aged cutoff total w = listed total (call j.env (list_aged cutoff) w)

  -- The loop on fuel: `none` means that the fuel ran out.
  unfoldable pub purge_aged_batches : ℤ → ℕ → ℕ → World → Option (ℕ × Option Error × World)
  purge_aged_batches cutoff zero total w = none
  purge_aged_batches cutoff (suc fuel) total w = elim (purge_aged cutoff total w) [
    | ended n e w' ↦ some (n, e, w')
    | more n w' ↦ purge_aged_batches cutoff fuel n w'
  ]

  -- `time.Now().Add(-maxAge).UnixMilli()`
  abbrev pub cutoff_of : ℤ → World → ℤ
  cutoff_of max_age w = unix_milli ((now j.env w).0 -ℤ max_age)

  unfoldable pub purge_dlq_by_age : ℤ → ℕ → World → Option (ℕ × Option Error × World)
  purge_dlq_by_age max_age fuel w = purge_aged_batches (cutoff_of max_age w) fuel 0 (now j.env w).1
