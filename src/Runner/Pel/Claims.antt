-- ===== src/Runner/Pel/Claims.antt =====
-- How much a tick of the PEL janitor claims, and what one without a processor does.
use taskmq.Prelude.{Bytes, true, false, ◌=b◌, ℕ, ◌+◌, ◌≡◌, ◌≤◌, length, none, arith}
use taskmq.Prelude.Int.{ℤ, pos, negsuc, ◌≤ℤ◌, pos_part}
use taskmq.Keys.{stream}
use taskmq.Redis.{Db}
use taskmq.Redis.Reference.{has_id}
use taskmq.Redis.Laws.{Laws}
use taskmq.World.{World}
use taskmq.Runner.Pel.{PelRecoveryJanitor, claim_count}

pub claim_count_bounds : (n : ℤ) → (pos 10 ≤ℤ claim_count n) × (claim_count n ≤ℤ pos 100)
unfolding claim_count
claim_count_bounds (pos n) = ground arith
claim_count_bounds (negsuc n) = ground arith

-- On the server, no entry of a stream has changed, and a pending id is gone only for the queue's stream
-- and the group, and only where its entry is deleted; all else is as it was.
pub record KeepsMessages (queue group : Bytes) (db db' : Db) : Type 0 where
  pub entries : (db'.streams (stream queue)).entries ≡ (db.streams (stream queue)).entries
  pub kept :
      (i : ℕ)
      → has_id i (db.streams (stream queue)).entries ≡ true
      → (db'.streams (stream queue)).pending group i ≡ (db.streams (stream queue)).pending group i
  pub shrinks :
      (i : ℕ)
      → (db'.streams (stream queue)).pending group i ≡ true
      → (db.streams (stream queue)).pending group i ≡ true
  pub groups :
      (h : Bytes)
      → (group =b h) ≡ false
      → (i : ℕ) → (db'.streams (stream queue)).pending h i ≡ (db.streams (stream queue)).pending h i
  pub streams : (key : Bytes) → (stream queue =b key) ≡ false → db'.streams key ≡ db.streams key
  pub zsets : db'.zsets ≡ db.zsets
  pub hashes : db'.hashes ≡ db.hashes
  pub strings : db'.strings ≡ db.strings

-- The messages are kept, and n things at most were written down.
abbrev IsIdleRun : Bytes → Bytes → ℕ → World → World → Type 0
IsIdleRun queue group n w w' =
    KeepsMessages queue group w.db w'.db × (length w'.effects ≤ length w.effects + n)

module _ (j : PelRecoveryJanitor) (laws : Laws j.env.commands) (without : j.process_fn ≡ none) where
  abbrev Keeps : Db → Db → Type 0
  Keeps = KeepsMessages j.queue j.group

  abbrev batch : ℕ
  batch = pos_part (claim_count j.concurrency)
