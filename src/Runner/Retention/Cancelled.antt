-- ===== src/Runner/Retention/Cancelled.antt =====
-- `purgeCancelledDelayed` of internal/taskmq/runner/retention_janitor.go: members of the delayed set whose
-- task has been cancelled are removed.
pub mod Sweep
use taskmq.Prelude.{
  ℕ, zero, suc, ◌+◌, Bytes, Bool, true, false, ◌⊎◌, inl, inr, List, [], ◌∷◌, ◌=b◌, length, ltb,
  if◌then◌else◌, is_some, Option, none, some,
}
use taskmq.Prelude.Int.{pos}
use taskmq.Errors.{Error}
use taskmq.Task.{Task, zero_task}
use taskmq.Keys.{delayed, cancelled}
use taskmq.Redis.{Db, set_zset}
use taskmq.World.{World, call}
use taskmq.Runner.Retention.{RetentionJanitor}

-- The members of a batch are done, with a count, or an error has ended the purge.
pub data Swept : Type 0 where
  swept : ℕ → World → Swept
  stopped : ℕ → Error → World → Swept

-- A round of the loop returns a count and an error or none, or asks for the next one.
pub data Round : Type 0 where
  ended : ℕ → Option Error → World → Round
  more : ℕ → World → Round

abbrev pub batch : ℕ
batch = 100

-- The cap on the cursor
abbrev pub last_cursor : ℕ
last_cursor = 2000

module _ (j : RetentionJanitor) where
  -- The marker of a task's cancellation; a task without a queue is of the janitor's.
  abbrev pub marker : Task → Bytes
  marker t = cancelled (if t.queue =b [] then j.queue else t.queue) t.id

  -- `ZREM`
  abbrev pub remove : Bytes → Db → Db × ℕ
  remove m db =
      let (z, n) = j.env.commands.zrem m (db.zsets (delayed j.queue)) in
      (set_zset (delayed j.queue) z db, n)

  abbrev pub removed : ℕ → (ℕ → World → Swept) → (Error ⊎ ℕ) × World → Swept
  removed purged rest (inl e, w) = stopped purged e w
  removed purged rest (inr n, w) = rest (suc purged) w

  -- A failed `EXISTS` counts as no cancellation.
  abbrev pub checked : Bytes → ℕ → (ℕ → World → Swept) → (Error ⊎ Bool) × World → Swept
  checked m purged rest (inl e, w) = rest purged w
  checked m purged rest (inr false, w) = rest purged w
  checked m purged rest (inr true, w) = removed purged rest (call j.env (remove m) w)

  -- `EXISTS`
  abbrev pub is_marked : Task → Db → Db × Bool
  is_marked t db = (db, is_some (db.strings (marker t)))

  abbrev pub sweep_decoded : Bytes → Error ⊎ Task → ℕ → (ℕ → World → Swept) → World → Swept
  sweep_decoded m (inl e) purged rest w = rest purged w
  sweep_decoded m (inr t) purged rest w =
      if t.id =b [] then rest purged w else checked m purged rest (call j.env (is_marked t) w)

  -- The loop over the members of a batch
  unfoldable pub sweep_each : List Bytes → ℕ → World → Swept
  sweep_each [] purged w = swept purged w
  sweep_each (m ∷ ms) purged w =
      sweep_decoded m (j.codec.unmarshal m zero_task) purged (sweep_each ms) w

  abbrev pub swept_batch : ℕ → ℕ → Swept → Round
  swept_batch n cursor (stopped purged e w) = ended purged (some e) w
  swept_batch n cursor (swept purged w) =
      if ltb n batch
      then ended purged none w
      else if ltb last_cursor (cursor + batch)
      then ended purged none w
      else more purged w

  abbrev pub listed : ℕ → ℕ → (Error ⊎ List Bytes) × World → Round
  listed cursor purged (inl e, w) = ended purged (some e) w
  listed cursor purged (inr [], w) = ended purged none w
  listed cursor purged (inr (m ∷ ms), w) =
      swept_batch (length (m ∷ ms)) cursor (sweep_each (m ∷ ms) purged w)

  -- `ZRANGE` of a batch behind the cursor
  abbrev pub list : ℕ → Db → Db × List Bytes
  list cursor db =
      (db, j.env.commands.zrange (pos cursor) (pos (cursor + 99)) (db.zsets (delayed j.queue)))

  unfoldable pub purge_round : ℕ → ℕ → World → Round
  purge_round cursor purged w = listed cursor purged (call j.env (list cursor) w)

  -- The loop on fuel: `none` means that the fuel ran out.
  unfoldable pub purge_batches : ℕ → ℕ → ℕ → World → Option (ℕ × Option Error × World)
  purge_batches zero cursor purged w = none
  purge_batches (suc fuel) cursor purged w = elim (purge_round cursor purged w) [
    | ended n e w' ↦ some (n, e, w')
    | more n w' ↦ purge_batches fuel (cursor + batch) n w'
  ]

  unfoldable pub purge_cancelled_delayed : ℕ → World → Option (ℕ × Option Error × World)
  purge_cancelled_delayed fuel w = purge_batches fuel 0 0 w
