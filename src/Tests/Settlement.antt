-- ===== src/Tests/Settlement.antt =====
-- Runs of the broker's scripts on a server in memory.
use taskmq.Prelude.{◌≡◌, ◌≢◌, ◌⊎◌, ◌≤◌, refl, arith, codes, [], length}
use taskmq.Prelude.Int.{pos}
use taskmq.Redis.Memory.{memory}
use taskmq.Redis.Memory.Lawful.{memory-Laws}
use taskmq.Redis.Reference.{has}
use taskmq.Broker.Scripts.{handle_failure_dlq}
use taskmq.Broker.DeadLetters.{IsIndexed, handle_failure_dlq-IsIndexed}
use taskmq.Tests.Data.{empty, one}

stream_named : codes "s" ≢ []
stream_named = ground arith

empty-IsIndexed : IsIndexed (empty.zsets (codes "dlq")) (empty.hashes (codes "index"))
unfolding has
empty-IsIndexed = record { distinct = tt; indexed = λ id. refl }

handle_failure_dlq-IsIndexed_example :
    let r =
      handle_failure_dlq memory
        (codes "dlq")
        (codes "s")
        (codes "u")
        (codes "s")
        7
        (codes "g")
        (pos 9)
        (codes "x")
        (codes "t1")
        (codes "s")
        (pos 1)
        empty in
    IsIndexed (r.0.zsets (codes "dlq")) (r.0.hashes (codes "s"))
    × ((one ≡ 0) ⊎ (length (r.0.zsets (codes "dlq")) ≤ 1))
handle_failure_dlq-IsIndexed_example =
    handle_failure_dlq-IsIndexed memory memory-Laws (codes "dlq") (codes "s") (codes "u")
      (codes "s") 7 (codes "g") (pos 9) (codes "x") (codes "t1") (codes "s") 1 empty stream_named
      stream_named empty-IsIndexed
