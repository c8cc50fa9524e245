-- ===== src/Codec/Interface.antt =====
-- The interface of internal/taskmq/codec/codec.go, for any codec that a client or worker is given.
use taskmq.Prelude.{Bytes, ◌⊎◌}
use taskmq.Errors.{Error}
use taskmq.Task.{Task}

-- Unmarshal writes into a task that exists.
pub record Codec : Type 0 where
  pub marshal : Task → Error ⊎ Bytes
  pub unmarshal : Bytes → Task → Error ⊎ Task
