-- ===== src/Tests/Letters.antt =====
-- Runs of the client, on dead letters and delayed tasks, and on the unique lock.
use mathlib.Core.List.Perm
use taskmq.Prelude.{
  Option, ◌≡◌, ◌⊎◌, refl, arith, subst, codes, ◌=b◌, =b_iff, List, [], ◌∷◌, some, none,
  if◌then◌else◌,
}
use taskmq.Prelude.Int.{pos}
use taskmq.Errors.{Error}
use taskmq.Task.{Task}
use taskmq.Redis.{ZSet, Hash}
use taskmq.Redis.Memory.{memory}
use taskmq.Redis.Memory.Lawful.{memory-Laws}
use taskmq.Redis.Reference.{has}
use taskmq.World.{World, delivered}
use taskmq.Broker.Outcomes.{Outcome}
use taskmq.Broker.DeadLetters.{IsIndexed}
use taskmq.Broker.LockSpec.{
  Op, enqueue_now, renew_by, complete_by, Trace, holder, apply_all, apply_all-Trace,
}
use taskmq.Client.{Client, identified}
use taskmq.Client.DeadLetters.{reset_task, retry_dead_letter, retry_all_dead_letters}
use taskmq.Client.DeadLetters.Outcomes.{IsRetried, retry_dead_letter-Outcome}
use taskmq.Client.DeadLetters.Orphans.{retry_all_never_returns}
use taskmq.Client.DeadLetters.Ending.{OwnIds, Ended, retry_all_dead_letters-Ended}
use taskmq.Client.Scheduled.{run_scheduled_task, delete_scheduled_task}
use taskmq.Client.Scheduled.Outcomes.{
  IsRunNow, IsRemoved, run_scheduled_task-Outcome, delete_scheduled_task-Outcome,
}
use taskmq.Client.Cron.{register_cron_script}
use taskmq.Client.Cron.Entries.{IsRegistered, register_cron_script-IsRegistered}
use taskmq.Tests.Data.{sample, busy, flaky, start, short_codec, quiet, task_or}

-- One dead letter, of the sample
abbrev one_letter : ZSet
one_letter = record { score = pos 5; member = codes "t1" } ∷ []

abbrev one_index : Hash
one_index f = if codes "t1" =b f then some (codes "x") else none

abbrev dead : World
dead = record start { db = record quiet { zsets = λ k. one_letter; hashes = λ k. one_index } }

dead-IsIndexed : IsIndexed one_letter one_index
unfolding has
dead-IsIndexed = record { distinct = (refl, tt); indexed = λ id. ground arith }

abbrev failing_client : Client
failing_client = record {
  env = flaky;
  codec = short_codec;
  default_unique_ttl = pos 0;
  fresh_id = codes "f";
}

abbrev client : Client
client = record failing_client {
  env = record { commands = memory; net = λ n. delivered; clock = λ n. pos n };
}

retry_dead_letter-Outcome_example :
    Outcome (retry_dead_letter failing_client (codes "mail") (codes "t1") dead) dead (
      IsRetried failing_client memory-Laws
        (codes "mail")
        (codes "t1")
        dead.db
        (retry_dead_letter failing_client (codes "mail") (codes "t1") dead).1.db)
retry_dead_letter-Outcome_example =
    retry_dead_letter-Outcome failing_client memory-Laws (codes "mail") (codes "t1") dead

retry_all_never_returns_example : retry_all_dead_letters client (codes "mail") 1000 0 start ≡ none
retry_all_never_returns_example =
    retry_all_never_returns client memory-Laws (codes "mail") (λ n. refl) 1000 0 start
      (refl, (refl, (refl, tt)))

own_id : OwnIds client memory-Laws (codes "mail") (λ n. refl) one_index
unfolding ◌=b◌
own_id id s t there decodes =
    subst (λ (r : Error ⊎ Task). (identified client (reset_task (task_or r))).id ≡ id) decodes
      ((=b_iff (codes "t1") id).0 (ground arith))

retry_all_dead_letters-Ended_example :
    Ended client memory-Laws
      (codes "mail")
      (λ n. refl)
      one_index
      own_id
      (retry_all_dead_letters client (codes "mail") 2 0 dead)
retry_all_dead_letters-Ended_example =
    retry_all_dead_letters-Ended client memory-Laws (codes "mail") 2 0 dead (λ n. refl)
      dead-IsIndexed own_id (omega arith)

-- t1 and t2 compete for a lock; t1 renews it and completes.
abbrev competing : List Op
competing =
    enqueue_now (codes "t1") (codes "s") (codes "x") (pos 9) (pos 0) (pos 0)
    ∷ (enqueue_now (codes "t2") (codes "s") (codes "y") (pos 9) (pos 0) (pos 0)
        ∷ (renew_by (codes "t1") (pos 9)
            ∷ (complete_by (codes "t1") (codes "s") (codes "g") 7 ∷ [])))

apply_all-Trace_example :
    Trace memory memory-Laws
      (codes "u")
      competing
      none
      (holder memory (codes "u") (apply_all memory (codes "u") competing quiet))
apply_all-Trace_example = apply_all-Trace memory memory-Laws (codes "u") competing quiet

-- The sample waits in the delayed set.
abbrev delayed_sample : ZSet
delayed_sample = record { score = pos 5; member = codes "x" } ∷ []

abbrev waiting : World
waiting = record start { db = record busy { zsets = λ k. delayed_sample } }

run_scheduled_task-Outcome_example :
    Outcome (run_scheduled_task failing_client (codes "mail") (codes "t1") waiting) waiting (
      IsRunNow failing_client memory-Laws
        (codes "mail")
        (codes "t1")
        waiting
        (run_scheduled_task failing_client (codes "mail") (codes "t1") waiting).1)
run_scheduled_task-Outcome_example =
    run_scheduled_task-Outcome failing_client memory-Laws (codes "mail") (codes "t1") waiting

delete_scheduled_task-Outcome_example :
    Outcome (delete_scheduled_task client (codes "mail") (codes "t1") waiting) waiting (
      IsRemoved client memory-Laws
        (codes "mail")
        (codes "t1")
        waiting
        (delete_scheduled_task client (codes "mail") (codes "t1") waiting).1)
delete_scheduled_task-Outcome_example =
    delete_scheduled_task-Outcome client memory-Laws (codes "mail") (codes "t1") waiting

-- Two tasks for two queues, and a nil task
abbrev several : List (Option Task)
several =
    some sample ∷ (none ∷ (some (record sample { queue = codes "log"; unique_key = [] }) ∷ []))

register_cron_script-IsRegistered_example :
    IsRegistered (codes "c") (codes "d") (codes "job") (codes "x") (pos 2) (pos 1) busy (
      register_cron_script memory
        (codes "c")
        (codes "d")
        (codes "job")
        (codes "x")
        (pos 9)
        busy
        (pos 2)
        (pos 1))
register_cron_script-IsRegistered_example =
    register_cron_script-IsRegistered memory memory-Laws (codes "c") (codes "d") (codes "job")
      (codes "x") (pos 9) busy (pos 2) (pos 1)
