-- ===== src/Client/Scheduled.antt =====
-- internal/taskmq/client/scheduled.go, but for the listing: a delayed task is run at once or deleted.
pub mod Outcomes
use taskmq.Prelude.{
  ℕ, Bytes, codes, ◌⊎◌, inl, inr, List, [], ◌∷◌, ◌++◌, ◌=b◌, ◌==◌, if◌then◌else◌, Option, none,
  some,
}
use taskmq.Prelude.Int.{ℤ, pos, negsuc}
use taskmq.Errors.{Error, message, is, err_member_gone}
use taskmq.Task.{Task, zero_task}
use taskmq.Keys.{stream, delayed, unique}
use taskmq.Redis.{Db, set_zset, set_string}
use taskmq.Lifecycle.Admission.{force_promote}
use taskmq.World.{World, call}
use taskmq.Client.{Client}

module _ (c : Client) (queue task_id : Bytes) where
  abbrev pub matched : Bytes → Error ⊎ Task → Option (Bytes × Task) → Option (Bytes × Task)
  matched m (inl e) later = later
  matched m (inr t) later = if t.id =b task_id then some (m, t) else later

  -- The first member that decodes to a task with the id, and that task.
  unfoldable pub find_scheduled : List Bytes → Option (Bytes × Task)
  find_scheduled [] = none
  find_scheduled (m ∷ ms) = matched m (c.codec.unmarshal m zero_task) (find_scheduled ms)

  abbrev pub not_found : Error
  not_found = message (codes "taskmq: task not found in scheduled tasks: " ++ task_id)

  abbrev pub already_gone : Error
  already_gone = message (codes "taskmq: task already processed or deleted: " ++ task_id)

  -- `ZRANGE` of all ranks
  abbrev pub all_scheduled : Db → Db × List Bytes
  all_scheduled db = (db, c.env.commands.zrange (pos 0) (negsuc 0) (db.zsets (delayed queue)))

  -- An empty member counts as none.
  abbrev pub chosen :
      (Bytes → Task → World → Option Error × World)
      → Option (Bytes × Task)
      → World
      → Option Error × World
  chosen next none w = (some not_found, w)
  chosen next (some (m, t)) w = if m =b [] then (some not_found, w) else next m t w

  abbrev pub on_scheduled :
      (Bytes → Task → World → Option Error × World)
      → (Error ⊎ List Bytes) × World
      → Option Error × World
  on_scheduled next (inl e, w) = (some e, w)
  on_scheduled next (inr ms, w) = chosen next (find_scheduled ms) w

  -- `ErrMemberGone` is told with the id.
  abbrev pub gone_named : Option Error × World → Option Error × World
  gone_named (none, w) = (none, w)
  gone_named (some e, w) = (some (if is e err_member_gone then already_gone else e), w)

  abbrev pub run_member : Bytes → Task → World → Option Error × World
  run_member m t w = gone_named (force_promote c.env (delayed queue) (stream queue) m w)

  unfoldable pub run_scheduled_task : World → Option Error × World
  run_scheduled_task w = on_scheduled run_member (call c.env all_scheduled w)

  -- `ZREM`
  abbrev pub remove_member : Bytes → Db → Db × ℕ
  remove_member m db =
      let (z, n) = c.env.commands.zrem m (db.zsets (delayed queue)) in
      (set_zset (delayed queue) z db, n)

  -- `DEL` of the lock
  abbrev pub delete_lock : Task → Db → Db × Unit {0}
  delete_lock t db = (set_string (unique queue t.unique_key) none db, tt)

  -- The error of the deletion of the lock is ignored.
  abbrev pub member_removed : Task → (Error ⊎ ℕ) × World → Option Error × World
  member_removed t (inl e, w) = (some e, w)
  member_removed t (inr n, w) =
      if n == 0
      then (some already_gone, w)
      else if t.unique_key =b []
      then (none, w)
      else (none, (call c.env (delete_lock t) w).1)

  abbrev pub delete_member : Bytes → Task → World → Option Error × World
  delete_member m t w = member_removed t (call c.env (remove_member m) w)

  unfoldable pub delete_scheduled_task : World → Option Error × World
  delete_scheduled_task w = on_scheduled delete_member (call c.env all_scheduled w)
