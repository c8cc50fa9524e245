-- ===== src/Tests/Decisions.antt =====
-- Runs of the retry policies.
use taskmq.Prelude.{ℕ, ◌-◌, ◌≡◌, ◌*◌, ◌^◌, false}
use taskmq.Prelude.Int.{ℤ, pos, negsuc}
use taskmq.Policy.{capped_backoff}
use taskmq.Policy.Backoff.{capped_backoff_wraps}

abbrev huge : ℕ → ℤ
huge n = negsuc (2 ^ 63 - 1)

-- A draw below its bound.
abbrev lowest : ℤ → ℤ
lowest n = pos 0

capped_backoff_wraps_example :
    capped_backoff huge lowest
      (record { base_delay = pos (1 * 1000000000); max_delay = pos 60000000000; jitter = false })
      (pos 55)
    ≡ pos 0
capped_backoff_wraps_example = capped_backoff_wraps huge lowest false 1 60000000000
