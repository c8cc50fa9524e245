-- ===== src/Client/Cron.antt =====
-- internal/taskmq/client/cron.go, but for the listing, and scripts/register_cron.lua: cron jobs are
-- registered, run at once and deleted.
pub mod Entries
use taskmq.Prelude.{
  Bytes, codes, ◌⊎◌, inl, inr, List, [], ◌++◌, ◌=b◌, if◌then◌else◌, Option, none, some,
}
use taskmq.Prelude.Int.{ℤ, pos}
use taskmq.Errors.{Error, message, wrap}
use taskmq.Task.{Task, unix_milli}
use taskmq.Keys.{stream, delayed, delayed_wakeup_channel, cron_configs}
use taskmq.Redis.{Db, Commands, ZSet, set_zset, set_hash}
use taskmq.Lifecycle.Config.{delayed_limits}
use taskmq.Lifecycle.Scripts.{Reply, number, ok_reply, delayed_full_reply, make_room}
use taskmq.Lifecycle.Admission.{limits_of, mapped, x_add_task}
use taskmq.World.{World, run, now, call, perform, publish}
use taskmq.Runner.Cron.{Schedule, Parsing, parse_cron_spec}
use taskmq.Client.{Client, TaskOption, with_result, apply_task_options, identified, reported}

module _ (c : Commands) (configs delayed_key job serialized : Bytes) (score : ℤ) (db : Db) where
  abbrev pub with_job : ZSet → Db × Reply
  with_job z = (
    set_zset delayed_key (c.zadd score serialized z)
        (set_hash configs (c.hset job serialized (db.hashes configs)) db),
    ok_reply,
  )

  abbrev pub new_job : Option ZSet → Db × Reply
  new_job none = (db, delayed_full_reply)
  new_job (some z) = with_job z

  abbrev pub job_set : ℤ → ℤ → Option Bytes → Db × Reply
  job_set max_count overflow none = new_job (make_room c max_count overflow (db.zsets delayed_key))
  job_set max_count overflow (some existing) =
      if existing =b serialized
      then (db, number (pos 0))
      else with_job (c.zrem existing (db.zsets delayed_key)).0

  -- register_cron.lua, which does not use the specification among its arguments
  unfoldable pub register_cron_script : ℤ → ℤ → Db × Reply
  register_cron_script max_count overflow = job_set max_count overflow (db.hashes configs job)

-- `task.Name = jobName` and what follows
abbrev pub job_task : Bytes → Bytes → Task → Task
job_task job spec t = record t {
  name = job;
  cron_spec = spec;
  queue = if t.queue =b [] then codes "default" else t.queue;
}

module _ (c : Client) where
  abbrev pub parsed_spec : (Bytes → Parsing) → Bytes → Error ⊎ Schedule
  parsed_spec parse spec = elim (parse_cron_spec parse spec) [
    | inl e ↦ inl (wrap (codes "taskmq: invalid cron spec: ") e [])
    | inr next ↦ inr next
  ]

  abbrev pub register_at : Bytes → Task → ℤ → Bytes → World → Option Error × World
  register_at job t at serialized w =
      let (max_count, overflow) = delayed_limits (limits_of w.lifecycle) in
      reported (perform (publish (delayed_wakeup_channel t.queue) (unix_milli at))) (
        mapped (
          run c.env
            (λ db.
              register_cron_script c.env.commands (cron_configs t.queue) (delayed t.queue) job
                serialized (unix_milli at) db max_count overflow)
            w))

  unfoldable pub register_cron :
      (Bytes → Parsing) → Bytes → Bytes → Task → List TaskOption → World → Option Error × World
  register_cron parse job spec t opts w =
      with_result (apply_task_options opts t)
        (λ t w.
          with_result (parsed_spec parse spec)
            (λ next w.
              let named = identified c (job_task job spec t) in
              with_result (c.codec.marshal named)
                (λ serialized w.
                  register_at job named (next (now c.env w).0) serialized (now c.env w).1)
                w)
            w)
        w

  abbrev pub job_not_found : Bytes → Error
  job_not_found job = message (codes "taskmq: cron job not found: " ++ job)

  abbrev pub on_job :
      Bytes
      → (Bytes → World → Option Error × World)
      → (Error ⊎ Option Bytes) × World
      → Option Error × World
  on_job job next (inl e, w) = (some e, w)
  on_job job next (inr none, w) = (some (job_not_found job), w)
  on_job job next (inr (some serialized), w) = next serialized w

  -- `HGET`
  abbrev pub read_job : Bytes → Bytes → Db → Db × Option Bytes
  read_job queue job db = (db, db.hashes (cron_configs queue) job)

  unfoldable pub run_cron_job : Bytes → Bytes → World → Option Error × World
  run_cron_job queue job w =
      on_job job (x_add_task c.env (stream queue)) (call c.env (read_job queue job) w)

  -- `ZREM`, whose error is ignored, and `HDEL`
  abbrev pub remove_run : Bytes → Bytes → Db → Db × Unit {0}
  remove_run queue serialized db = (
    set_zset (delayed queue) (c.env.commands.zrem serialized (db.zsets (delayed queue))).0 db,
    tt,
  )

  abbrev pub remove_config : Bytes → Bytes → Db → Db × Unit {0}
  remove_config queue job db = (
    set_hash (cron_configs queue) (c.env.commands.hdel job (db.hashes (cron_configs queue))) db,
    tt,
  )

  abbrev pub only_failed : (Error ⊎ Unit {0}) × World → Option Error × World
  only_failed (inl e, w) = (some e, w)
  only_failed (inr _, w) = (none, w)

  abbrev pub delete_found : Bytes → Bytes → Bytes → World → Option Error × World
  delete_found queue job serialized w =
      only_failed
        (call c.env (remove_config queue job) (call c.env (remove_run queue serialized) w).1)

  unfoldable pub delete_cron_job : Bytes → Bytes → World → Option Error × World
  delete_cron_job queue job w =
      on_job job (delete_found queue job) (call c.env (read_job queue job) w)
