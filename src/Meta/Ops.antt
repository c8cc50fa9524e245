-- ===== src/Meta/Ops.antt =====
-- The operations of the store of internal/taskmq/meta/meta.go that write, in sequence.
use taskmq.Prelude.{Bytes, List, [], ◌∷◌}
use taskmq.Prelude.Int.{ℤ}
use taskmq.Task.{Task}
use taskmq.Redis.{Db}
use taskmq.World.{Env, World}
use taskmq.Meta.{
  put, set_state, mark_completed, mark_dlq, mark_retry, delete, set_progress,
  purge_expired_completed,
}

-- The operations that write, with their arguments. A purge carries what others do in its midst.
pub data MetaOp : Type 0 where
  put_op : Task → Bytes → MetaOp
  set_state_op : Bytes → Bytes → Bytes → Bytes → Bytes → MetaOp
  mark_completed_op : Task → Bytes → ℤ → ℤ → MetaOp
  mark_dlq_op mark_retry_op : Task → Bytes → MetaOp
  delete_op : Bytes → Bytes → MetaOp
  set_progress_op : Bytes → Bytes → ℤ → Bytes → MetaOp
  purge_op : Bytes → ℤ → ℤ → (Db → Db) → MetaOp

abbrev pub meta_op : Env → MetaOp → World → World
meta_op env (put_op t s) w = (put env t s w).1
meta_op env (set_state_op queue id s e stream_id) w = (set_state env queue id s e stream_id w).1
meta_op env (mark_completed_op t r retention max_count) w =
    (mark_completed env t r retention max_count w).1
meta_op env (mark_dlq_op t e) w = (mark_dlq env t e w).1.1
meta_op env (mark_retry_op t e) w = (mark_retry env t e w).1.1
meta_op env (delete_op queue id) w = (delete env queue id w).1
meta_op env (set_progress_op queue id percent text) w = (set_progress env queue id percent text w).1
meta_op env (purge_op queue before_ms batch others) w =
    (purge_expired_completed env queue before_ms batch others w).1.1

unfoldable pub meta_ops : Env → List MetaOp → World → World
meta_ops env [] w = w
meta_ops env (op ∷ ops) w = meta_ops env ops (meta_op env op w)
