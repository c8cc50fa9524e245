-- ===== src/Task/Timeout.antt =====
-- What `EffectiveTimeout` of internal/taskmq/task/task.go promises.
use taskmq.Prelude.{◌≡◌, ◌⊎◌, ◌↔◌, ◌*◌, ◌<◌, ◌^◌, Bytes, none, some, arith}
use taskmq.Prelude.Int.{ℤ, pos, pos_part, ◌≤ℤ◌, ◌<ℤ◌, ◌+ℤ◌, scale}
use taskmq.Task.{Task, TaskOptions, new_task, effective_timeout}

-- A duration `d` that a task may run from `now` on.
pub record IsEffective (t : Task) (now d : ℤ) : Type 0 where
  pub nonneg : pos 0 ≤ℤ d
  pub zero_unset : (d ≡ pos 0) ↔ ((t.timeout_ms ≤ℤ pos 0) × (t.deadline_ms ≤ℤ pos 0))
  pub within_timeout : (t.timeout_ms ≤ℤ pos 0) ⊎ (d ≤ℤ scale t.timeout_ms 1000000)
  pub within_deadline :
      (t.deadline_ms ≤ℤ pos 0)
      ⊎ (now +ℤ d ≤ℤ scale t.deadline_ms 1000000)
      ⊎ ((scale t.deadline_ms 1000000 ≤ℤ now) × (d ≡ pos 1))

module _ (t : Task) (now : ℤ) (fits : pos_part t.timeout_ms * 1000000 < 2 ^ 63) where
  -- For a timeout that fits a `time.Duration`, the effective timeout is never negative, is 0
  -- exactly when neither timeout nor deadline is set, ends by the timeout and by the deadline where
  -- they are set, and is 1 ns once the deadline has passed.
  pub effective_timeout-IsEffective : IsEffective t now (effective_timeout (some t) now)
  unfolding effective_timeout
  effective_timeout-IsEffective = record {
    nonneg = ground arith;
    zero_unset = ((λ h. ground arith), (λ h. ground arith));
    within_timeout = ground arith;
    within_deadline = ground arith;
  }

-- A task built with a positive `Timeout` below one millisecond, and no deadline, has no timeout at
-- all: `NewTask` rounds it down to 0 ms, which `EffectiveTimeout` reads as unset.
pub new_task_sub_millisecond :
    (name payload : Bytes) (now later : ℤ) (opt : TaskOptions)
    → pos 0 <ℤ opt.timeout
    → opt.timeout <ℤ pos 1000000
    → opt.deadline ≡ none
    → effective_timeout (some (new_task name payload now (some opt))) later ≡ pos 0
unfolding effective_timeout new_task
new_task_sub_millisecond name payload now later opt positive small no_deadline = ground arith
