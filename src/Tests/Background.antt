-- ===== src/Tests/Background.antt =====
-- Runs of the scheduler, of the janitor and of the queue orders.
use taskmq.Prelude.{
  ℕ, ◌≡◌, ◌==◌, ◌&&◌, not, inl, inr, refl, arith, subst, Bytes, codes, true, false, ◌=b◌, =b_refl,
  List, [], ◌∷◌, some, none, ◌⊎◌,
}
use taskmq.Prelude.Int.{ℤ, pos, ◌+ℤ◌}
use taskmq.Errors.{Error}
use taskmq.Task.{Task}
use taskmq.Codec.Interface.{Codec}
use taskmq.Keys.{stream}
use taskmq.Redis.{Db, Stream, Entry, set_stream}
use taskmq.Redis.Memory.{memory}
use taskmq.Redis.Memory.Lawful.{memory-Laws}
use taskmq.Redis.Reference.{has}
use taskmq.Lifecycle.Config.{delayed_limits}
use taskmq.World.{World, delivered}
use taskmq.Runner.Promotion.{promote, IsPromoted, promote-IsPromoted}
use taskmq.Runner.Cron.{CronManager, schedule, reschedule}
use taskmq.Runner.Cron.Keeping.{reschedule-KeepsTasks}
use taskmq.Runner.Scheduler.{
  Scheduler, returned, Event, timer_fired, message_received, channel_closed, run_scheduler,
  promote_ready_tasks,
}
use taskmq.Runner.Scheduler.Held.{IsUncapped, LoopKept, run_scheduler-Kept}
use taskmq.Runner.Scheduler.Drained.{NoneDue, promote_ready_tasks-drains}
use taskmq.Runner.Scheduler.Quiet.{IsPlain, IsQuiet}
use taskmq.Runner.Retention.{RetentionJanitor, safe_trim_threshold, safe_trim}
use taskmq.Runner.Retention.SafeTrim.{IsSafeTrim, safe_trim-IsSafeTrim}
use taskmq.Runner.Retention.Cancelled.{purge_cancelled_delayed}
use taskmq.Runner.Retention.Cancelled.Sweep.{HasPurged, purge_cancelled_delayed-HasPurged}
use taskmq.Worker.Pause.{
  PauseController, new_pause_controller, set_paused, wait_chan, PauseOp, set, wait, pause_ops,
}
use taskmq.Worker.Pause.Orderly.{pause_ops-IsOrderly}
use taskmq.Worker.Pause.Waking.{pause_ops-wakes, pause_ops-lost_wakeup}
use taskmq.Worker.Queues.{QueuePriority}
use taskmq.Tests.Data.{sample, busy, three, flaky, start, short_codec, quiet, task_or}

promote-IsPromoted_example :
    let r = promote memory (codes "d") (codes "s") (pos 0) (pos 2) 100 (pos 2) (pos 0) busy in
    IsPromoted (codes "d") (codes "s") (pos 0) (pos 2) 100 (pos 2) busy r.0 r.1
promote-IsPromoted_example =
    promote-IsPromoted memory memory-Laws (codes "d") (codes "s") (pos 0) (pos 2) 100 (pos 2)
      (pos 0) busy (omega arith)

-- Every payload decodes to the task of a cron job.
abbrev cron_codec : Codec
cron_codec = record {
  marshal = λ t. inr t.id;
  unmarshal = λ b t. inr (record sample { cron_spec = codes "@every 1s" });
}

abbrev late : ℕ → ℤ
late n = pos 2500000

abbrev manager : CronManager
manager = record {
  env = record flaky { clock = late };
  codec = cron_codec;
  parse = λ spec. schedule (λ at. at +ℤ pos 1000000000);
}

-- The second call loses its answer; the cron jobs are rescheduled.
abbrev scheduler : Scheduler
scheduler = record {
  env = record flaky { clock = late };
  codec = cron_codec;
  queue = codes "mail";
  cron = some (reschedule manager);
  poll_interval = pos 1000000000;
  stream_hard_limit = pos 2;
  stream_max_len = pos 0;
}

abbrev events : List Event
events = timer_fired ∷ (message_received (some (pos 1)) ∷ (channel_closed ∷ []))

uncapped : IsUncapped start
unfolding delayed_limits
uncapped = omega arith

run_scheduler-Kept_example : LoopKept (codes "mail") start (run_scheduler scheduler 5 events start)
run_scheduler-Kept_example =
    run_scheduler-Kept scheduler memory-Laws 5 events start (omega arith)
      (reschedule-KeepsTasks manager memory-Laws (codes "mail")) uncapped

-- Plain tasks, and no cron manager
abbrev plain : Scheduler
plain = record scheduler { codec = short_codec; cron = none; stream_hard_limit = pos 0 }

abbrev reliable_plain : Scheduler
reliable_plain = record plain {
  env = record { commands = memory; net = λ n. delivered; clock = late };
}

plain_sample : (m : Bytes) → IsPlain plain m
unfolding ◌=b◌
plain_sample m t e = subst (λ (r : Error ⊎ Task). ((task_or r).cron_spec =b []) ≡ true) e refl

three-IsQuiet : IsQuiet plain three
unfolding has ◌=b◌
three-IsQuiet = record { distinct = (refl, (refl, (refl, tt))); plain = λ m h. plain_sample m }

three-IsQuiet_reliable : IsQuiet reliable_plain three
unfolding has ◌=b◌
three-IsQuiet_reliable = record {
  distinct = (refl, (refl, (refl, tt)));
  plain = λ m h. plain_sample m;
}

promote_ready_tasks-drains_example :
    (w' : World) × (promote_ready_tasks reliable_plain 4 start ≡ some (returned w'))
    × NoneDue reliable_plain memory-Laws (omega arith) (omega arith) (λ n. refl) w'
promote_ready_tasks-drains_example =
    promote_ready_tasks-drains reliable_plain memory-Laws (omega arith) (omega arith) (λ n. refl) 4
      start (omega arith) three-IsQuiet_reliable

-- The group has read the entries up to 7 and has still to process 7.
abbrev reading : Stream
reading = record {
  entries =
      record { id = 5; task = codes "a" }
      ∷ (record { id = 7; task = codes "b" } ∷ (record { id = 9; task = codes "c" } ∷ []));
  pending = λ g i. i == 7;
  last_delivered = λ g. 7;
  groups = λ g. true;
}

abbrev half_read : World
half_read = record start { db = record quiet { streams = λ k. reading } }

abbrev janitor : RetentionJanitor
janitor = record { env = flaky; queue = codes "mail"; group = codes "g"; codec = short_codec }

-- A worker acknowledges 7.
abbrev acknowledge : Db → Db
acknowledge db =
    let s = db.streams (stream (codes "mail")) in
    set_stream (stream (codes "mail")) (record s { pending = λ g i. s.pending g i && not (i == 7) })
      db

safe_trim-IsSafeTrim_example :
    IsSafeTrim janitor memory-Laws acknowledge
      (safe_trim_threshold janitor (λ db. db) half_read)
      (safe_trim janitor (λ db. db) acknowledge half_read).1
safe_trim-IsSafeTrim_example =
    safe_trim-IsSafeTrim janitor memory-Laws (λ db. db) acknowledge half_read (λ i p. ground arith)
      (λ db. record { pending = λ i p. p; last = refl })
      (λ db i. simp (=b_refl) (λ o. elim o [ inl p ↦ inl (ground arith) | inr l ↦ inr l ]))

abbrev first_entry : Entry
first_entry = record { id = 3; task = codes "a" }

abbrev second_entry : Entry
second_entry = record { id = 4; task = codes "b" }

-- Nothing is read yet.
abbrev unread_stream : Stream
unread_stream = record {
  entries = first_entry ∷ (second_entry ∷ []);
  pending = λ g i. false;
  last_delivered = λ g. 0;
  groups = λ g. true;
}

abbrev unread : World
unread = record start { db = record quiet { streams = λ k. unread_stream } }

-- A janitor on a server in memory, over a network that delivers its calls
abbrev local_janitor : RetentionJanitor
local_janitor = record {
  env = record { commands = memory; net = λ n. delivered; clock = late };
  queue = codes "mail";
  group = codes "g";
  codec = short_codec;
}

abbrev queue_named : Bytes → ℤ → QueuePriority
queue_named name weight = record {
  name = name;
  weight = weight;
  rate_limit_max = pos 0;
  rate_limit_duration = pos 0;
  rate_limit_key_field = [];
}

abbrev queues : List QueuePriority
queues = queue_named (codes "mail") (pos 3) ∷ (queue_named (codes "log") (pos 0) ∷ [])

purge_cancelled_delayed-HasPurged_example :
    HasPurged janitor memory-Laws busy
      (purge_cancelled_delayed janitor 21 (record start { db = busy }))
purge_cancelled_delayed-HasPurged_example =
    purge_cancelled_delayed-HasPurged janitor memory-Laws 21 (record start { db = busy })
      (omega arith)

-- Two consumers of a paused queue wait, and another queue is resumed.
abbrev turns : List PauseOp
turns =
    wait (codes "mail")
    ∷ (wait (codes "mail") ∷ (set (codes "log") false ∷ (set (codes "mail") true ∷ [])))

abbrev mail_paused : PauseController
mail_paused = pause_ops (set (codes "mail") true ∷ []) new_pause_controller

mail_is_paused : mail_paused.paused_queues (codes "mail") ≡ true
unfolding pause_ops set_paused ◌=b◌
mail_is_paused = refl

pause_ops-wakes_example :
    let (ch, p') = wait_chan (codes "mail") mail_paused in
    (pause_ops turns (set_paused (codes "mail") false (pause_ops turns p'))).closed ch ≡ true
pause_ops-wakes_example = pause_ops-wakes (codes "mail") turns turns mail_paused mail_is_paused

abbrev quiet_turns : List PauseOp
quiet_turns = wait (codes "mail") ∷ (set (codes "mail") false ∷ (wait (codes "log") ∷ []))

pause_ops-lost_wakeup_example :
    let (ch, p') = wait_chan (codes "mail") (set_paused (codes "mail") false mail_paused) in
    (p'.paused_queues (codes "mail") ≡ false) × ((pause_ops quiet_turns p').closed ch ≡ false)
pause_ops-lost_wakeup_example =
    pause_ops-lost_wakeup (codes "mail") quiet_turns mail_paused
      (pause_ops-IsOrderly (set (codes "mail") true ∷ [])) mail_is_paused (tt, (inr refl, (tt, tt)))
