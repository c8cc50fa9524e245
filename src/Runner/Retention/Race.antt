-- ===== src/Runner/Retention/Race.antt =====
-- What `safeTrim` of internal/taskmq/runner/retention_janitor.go loses when workers read between its calls.
use taskmq.Prelude.{ℕ, ◌≡◌, Bytes, true, ◌&&◌, ◌||◌, ◌==◌, ◌=b◌, List, drop, if◌then◌else◌}
use taskmq.Prelude.Int.{ℤ}
use taskmq.Redis.{Db, Entry, Stream, set_stream}
use taskmq.Redis.Laws.{Laws}
use taskmq.Redis.Memory.{leading}
use taskmq.World.{World, delivered}
use taskmq.Runner.Retention.{RetentionJanitor, key}

-- Two workers of the group read the entries a and b.
abbrev pub deliver_both : Bytes → Bytes → ℕ → ℕ → Db → Db
deliver_both key group a b db =
    set_stream key
      (record (db.streams key) {
        pending = λ g i.
            if (group =b g) && ((i == a) || (i == b)) then true else (db.streams key).pending g i;
        last_delivered = λ g. if group =b g then b else (db.streams key).last_delivered g;
      })
      db

module _ (j : RetentionJanitor) (laws : Laws j.env.commands)
    (reliable : (n : ℕ) → j.env.net n ≡ delivered)
    (trims_all : (m : ℕ) (limit : ℤ) (s : Stream)
      → (j.env.commands.xtrim_minid m limit s).0.entries ≡ drop (leading m s.entries) s.entries)
    (a b : Entry) (rest : List Entry) (w : World) where
  -- The stream when both have been read.
  abbrev read : Db
  read = deliver_both (key j) j.group a.id b.id w.db
