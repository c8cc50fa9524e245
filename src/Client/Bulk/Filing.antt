-- ===== src/Client/Bulk/Filing.antt =====
-- Where `EnqueueBulk` of internal/taskmq/client/enqueue.go files what has failed, and what has succeeded.
use mathlib.Core.List.Perm
use mathlib.Core.List.{Perm}
use taskmq.Prelude.{ℕ, ◌≡◌, ◌≤◌, ◌⊎◌, inl, inr, Bool, List, [], ltb, if◌then◌else◌, is_some}
use taskmq.Errors.{Error}
use taskmq.Task.{Task}
use taskmq.World.{Env, World}
use taskmq.Client.{Client}
use taskmq.Client.Bulk.{BulkResult, Group}
use taskmq.Client.Bulk.Chunks.{one_if, occurrences, IsSilent, open_groups, Filed}

-- Each failure is filed once at most, under the index of a task, and with its error; and nothing has
-- succeeded where no call is answered.
abbrev pub IsFiled : Env → ℕ → BulkResult → Type 0
IsFiled env n out =
    ((k : ℕ)
      → (occurrences k out.failed_indexes ≤ (if ltb k n then 1 else 0))
        × (is_some (out.errors k) ≡ ltb 0 (occurrences k out.failed_indexes)))
    × (IsSilent env → out.succeeded ≡ [])

module _ (c : Client) (fail_fast : Bool) (k : ℕ) where
  -- Before task i of n, only the indexes below i are to be done or have failed.
  abbrev Collects : ℕ → (Error × BulkResult) ⊎ (List Group × BulkResult) → Type 0
  Collects n (inl (e, out)) = Filed c fail_fast k (one_if (ltb k n)) 0 out
  Collects n (inr (gs, out)) =
      Filed c fail_fast k (one_if (ltb k n)) (open_groups c fail_fast k gs) out
