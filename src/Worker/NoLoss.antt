-- ===== src/Worker/NoLoss.antt =====
-- No message is lost by internal/taskmq/worker/process.go, whatever the network, the clock, the limiter
-- and the handlers do.
use taskmq.Prelude.{ℕ, ◌≡◌, ◌⊎◌, Bytes, true, is_some}
use taskmq.Task.{Task}
use taskmq.Keys.{cancelled}
use taskmq.Redis.Laws.{Laws}
use taskmq.Lifecycle.Config.{Config}
use taskmq.World.{World}
use taskmq.Broker.Transitions.{lifecycle_config}
use taskmq.Worker.{Worker}
use taskmq.Worker.Held.{IsHeld}
use taskmq.Worker.Chain.{KeepsIdentity, HasSucceeded}

module _ (p : Worker) (laws : Laws p.env.commands) (keeps : KeepsIdentity p) where
  -- How the message of a task may end.
  abbrev Fate : Task → Bytes → Bytes → ℕ → World → World → Type 0
  Fate t queue id msg_id w w' =
      IsHeld p queue msg_id id (lifecycle_config w).dlq_max_count w'.db
      ⊎ HasSucceeded p t
      ⊎ (is_some (w.db.strings (cancelled queue id)) ≡ true)
