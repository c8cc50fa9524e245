-- ===== src/Tests/Admission.antt =====
-- Runs of the admission scripts on a server in memory.
use taskmq.Prelude.{arith, codes}
use taskmq.Prelude.Int.{pos}
use taskmq.Redis.Memory.{memory}
use taskmq.Redis.Memory.Lawful.{memory-Laws}
use taskmq.Lifecycle.Scripts.{enqueue_delayed_with_limit}
use taskmq.Lifecycle.Capacity.{DelayedOutcome, enqueue_delayed_bounded}
use taskmq.Tests.Data.{busy}

-- A set of three under a limit of two and the flag that drops.
enqueue_delayed_bounded_example :
    DelayedOutcome
      (codes "d")
      (codes "x")
      2
      (pos 1)
      busy
      (enqueue_delayed_with_limit memory (codes "d") (pos 5) (codes "x") (pos 2) (pos 1) busy)
enqueue_delayed_bounded_example =
    enqueue_delayed_bounded memory memory-Laws (codes "d") (pos 5) (codes "x") 2 (pos 1) busy
      (omega arith)
