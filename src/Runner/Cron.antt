-- ===== src/Runner/Cron.antt =====
-- `Reschedule` and `ParseCronSpec` of internal/taskmq/runner/cron_manager.go: the next run of a cron job
-- goes into the delayed set of its queue.
pub mod Keeping
use taskmq.Prelude.{
  Bytes, codes, Bool, false, ◌&&◌, ◌||◌, not, ◌++◌, ◌⊎◌, inl, inr, [], ◌∷◌, ◌==◌, ◌=b◌,
  if◌then◌else◌, Option, none, some, true,
}
use taskmq.Prelude.Int.{ℤ, pos}
use taskmq.Prelude.Decimal.{decimal}
use taskmq.Errors.{Error, message}
use taskmq.Task.{Task, TaskOptions, new_task, unix_milli, unique_until_succeeded}
use taskmq.Codec.Interface.{Codec}
use taskmq.Keys.{delayed, delayed_wakeup_channel, has_prefix}
use taskmq.Lifecycle.Admission.{z_add_delayed}
use taskmq.World.{Env, World, now, perform, publish}

-- `cron.Schedule`: the next time after one, in nanoseconds.
abbrev pub Schedule : Type 0
Schedule = ℤ → ℤ

-- What the library's parser does with a specification; it may panic with some text.
pub data Parsing : Type 0 where
  schedule : Schedule → Parsing
  refused : Error → Parsing
  panicking : Bytes → Parsing

pub record CronManager : Type 0 where
  pub env : Env
  pub codec : Codec
  pub parse : Bytes → Parsing

unfoldable pub contains : Bytes → Bytes → Bool
contains [] byte = false
contains (x ∷ xs) byte = has_prefix (x ∷ xs) byte || contains xs byte

abbrev recovered : Parsing → Error ⊎ Schedule
recovered (schedule next) = inr next
recovered (refused e) = inl e
recovered (panicking text) = inl (message (codes "cron: malformed spec: " ++ text))

-- `ParseCronSpec`
unfoldable pub parse_cron_spec : (Bytes → Parsing) → Bytes → Error ⊎ Schedule
parse_cron_spec parse spec =
    if (has_prefix spec (codes "TZ=") || has_prefix spec (codes "CRON_TZ="))
      && not (contains spec (codes " "))
    then inl (message (codes "cron: missing space after timezone specification"))
    else recovered (parse spec)

-- `taskmodel.TaskOptions{Queue: task.Queue, MaxRetry: taskmodel.Ptr(task.MaxRetry)}`
abbrev job_options : Task → TaskOptions
job_options t = record {
  id = [];
  queue = t.queue;
  max_retry = some t.max_retry;
  timeout = pos 0;
  deadline = none;
  unique_key = [];
  unique_ttl = pos 0;
  unique_scope = unique_until_succeeded;
  group_key = [];
}

-- The run of a job at a time, created at another; its id is determined by the name and the time.
unfoldable pub next_task : Task → ℤ → ℤ → Task
next_task t at created = record (new_task t.name t.payload created (some (job_options t))) {
  cron_spec = t.cron_spec;
  id = codes "cron:" ++ (t.name ++ (codes ":" ++ decimal (unix_milli at)));
}

module _ (m : CronManager) where
  abbrev pub announced : Task → ℤ → Option Error × World → Option Error × World
  announced t at (some e, w) = (some e, w)
  announced t at (none, w) =
      (none, perform (publish (delayed_wakeup_channel t.queue) (unix_milli at)) w)

  abbrev pub scheduled : Task → ℤ → Error ⊎ Bytes → World → Option Error × World
  scheduled t at (inl e) w = (some e, w)
  scheduled t at (inr serialized) w =
      announced t at (z_add_delayed m.env (delayed t.queue) (unix_milli at) serialized true w)

  -- The clock is read for the next run and again for the creation of its task.
  abbrev pub rescheduled : Task → Error ⊎ Schedule → World → Option Error × World
  rescheduled t (inl e) w = (some e, w)
  rescheduled t (inr next) w =
      let at = next (now m.env w).0 in
      let created = now m.env (now m.env w).1 in
      scheduled t at (m.codec.marshal (next_task t at created.0)) created.1

  unfoldable pub reschedule : Task → World → Option Error × World
  reschedule t w =
      if t.cron_spec =b [] then (none, w) else rescheduled t (parse_cron_spec m.parse t.cron_spec) w
