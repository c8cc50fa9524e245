-- ===== src/Tests/Purging.antt =====
-- A run of the janitor's purge by age.
use taskmq.Prelude.{◌=b◌, refl, codes, arith}
use taskmq.Prelude.Int.{pos}
use taskmq.Redis.Reference.{has}
use taskmq.Redis.Members.{IsDistinct}
use taskmq.Redis.Memory.Lawful.{memory-Laws}
use taskmq.World.{World}
use taskmq.Runner.Retention.{RetentionJanitor}
use taskmq.Runner.Retention.Aged.{cutoff_of, purge_dlq_by_age}
use taskmq.Runner.Retention.Aged.Emptied.{HasPurged, purge_dlq_by_age-HasPurged}
use taskmq.Tests.Data.{busy, three, flaky, start, short_codec}

-- At two milliseconds
abbrev keeper : RetentionJanitor
keeper = record {
  env = record flaky { clock = λ n. pos 2000000 };
  queue = codes "mail";
  group = codes "g";
  codec = short_codec;
}

three-IsDistinct : IsDistinct three
unfolding has ◌=b◌
three-IsDistinct = (refl, (refl, (refl, tt)))

abbrev letters : World
letters = record start { db = busy }

purge_dlq_by_age-HasPurged_example :
    HasPurged keeper memory-Laws busy
      (cutoff_of keeper (pos 1000000) letters)
      three-IsDistinct
      (purge_dlq_by_age keeper (pos 1000000) 4 letters)
purge_dlq_by_age-HasPurged_example =
    purge_dlq_by_age-HasPurged keeper memory-Laws (pos 1000000) 4 letters three-IsDistinct
      (omega arith)
