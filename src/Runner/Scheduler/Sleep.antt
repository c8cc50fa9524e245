-- ===== src/Runner/Scheduler/Sleep.antt =====
-- How long `calculateSleep` of internal/taskmq/runner/delayed_scheduler.go sleeps.
use taskmq.Prelude.{ℕ, suc, ◌*◌, ◌^◌, ◌≡◌, ◌≤◌, ◌<◌, ◌⊎◌, inl, inr, refl, [], ◌∷◌, All, take, arith}
use taskmq.Prelude.Int.{ℤ, pos, negsuc, pos_part, scale, ◌≤ℤ◌, ◌-ℤ◌}
use taskmq.Task.{unix_milli}
use taskmq.Keys.{delayed}
use taskmq.Redis.{ZSet}
use taskmq.Redis.Reference.{in_ranks}
use taskmq.Redis.Laws.{Laws}
use taskmq.World.{World, delivered, refused, lost, carry, call}
use taskmq.Runner.Scheduler.{
  Scheduler, min_sleep, max_sleep, sleep_until, sleep_for, peek, calculate_sleep,
}

-- A time ahead that fits a duration: less than 2^63 nanoseconds, about 292 years.
abbrev pub IsNear : ℤ → ℤ → Type 0
IsNear now_ms at = pos_part (at -ℤ now_ms) * 1000000 < 2 ^ 63

-- From a millisecond to ten seconds, and not beyond the earliest task unless that is a millisecond.
abbrev pub IsSleep : ℤ → ℤ → ℤ → Type 0
IsSleep earliest now_ms d =
    (min_sleep ≤ℤ d)
    × (d ≤ℤ max_sleep)
    × ((d ≡ min_sleep) ⊎ (d ≤ℤ scale (earliest -ℤ now_ms) 1000000))

sleep_until-IsSleep :
    (earliest now_ms : ℤ)
    → IsNear now_ms earliest
    → IsSleep earliest now_ms (sleep_until earliest now_ms)
unfolding sleep_until
sleep_until-IsSleep (pos a) (pos n) h = ground arith
sleep_until-IsSleep (pos a) (negsuc n) h = ground arith
sleep_until-IsSleep (negsuc a) (pos n) h = ground arith
sleep_until-IsSleep (negsuc a) (negsuc n) h = ground arith

module _ (s : Scheduler) (laws : Laws s.env.commands) where
  -- The delayed set of the queue, and the clock's next reading.
  abbrev due : World → ZSet
  due w = w.db.zsets (delayed s.queue)

  abbrev pub next_ms : World → ℤ
  next_ms w = unix_milli (s.env.clock w.reads)

  -- The interval for a failed call, ten seconds for an empty set, and else a sleep for its first task.
  abbrev pub IsSleepFor : ZSet → ℤ → ℤ → Type 0
  IsSleepFor [] now_ms d = (d ≡ s.poll_interval) ⊎ (d ≡ max_sleep)
  IsSleepFor (x ∷ z) now_ms d = (d ≡ s.poll_interval) ⊎ IsSleep x.score now_ms d

  first : (z : ZSet) → s.env.commands.zrange_withscores (pos 0) (pos 0) z ≡ take 1 z
  unfolding in_ranks
  first z = laws.zrange_withscores_lists (pos 0) (pos 0) z

  sleep_for-IsSleepFor :
      (z : ZSet) (w : World)
      → All (λ x. IsNear (next_ms w) x.score) z
      → IsSleepFor z (next_ms w) (sleep_for s (inr (take 1 z), w)).0
  sleep_for-IsSleepFor [] w near = inr refl
  sleep_for-IsSleepFor (x ∷ z) w near = inr (sleep_until-IsSleep x.score (next_ms w) near.0)

  failed-IsSleepFor : (z : ZSet) (now_ms : ℤ) → IsSleepFor z now_ms s.poll_interval
  failed-IsSleepFor [] now_ms = inl refl
  failed-IsSleepFor (x ∷ z) now_ms = inl refl

  -- While the delayed tasks are less than 292 years ahead, the scheduler sleeps for its poll interval
  -- when the call fails, ten seconds for an empty delayed set, and else between a millisecond and ten
  -- seconds, and beyond the time of the first task of the set only for that millisecond.
  pub calculate_sleep-IsSleepFor :
      (w : World)
      → All (λ x. IsNear (next_ms w) x.score) (due w)
      → IsSleepFor (due w) (next_ms w) (calculate_sleep s w).0
  unfolding calculate_sleep call
  calculate_sleep-IsSleepFor w near =
      elim (s.env.net w.calls)
        as (λ f. IsSleepFor (due w) (next_ms w) (sleep_for s (carry f (peek s) w)).0) [
          | delivered ↦
              rw (first (due w))
                (sleep_for-IsSleepFor (due w) (record w { calls = suc w.calls }) near)
          | refused ↦ failed-IsSleepFor (due w) (next_ms w)
          | lost ↦ failed-IsSleepFor (due w) (next_ms w)
        ]

-- A task between 2^63 and 2^64 nanoseconds ahead, 292 to 584 years, makes the duration wrap: the
-- scheduler gets a sleep that is not positive.
pub sleep_until_wraps :
    (earliest now_ms : ℕ)
    → now_ms < earliest
    → 2 ^ 63 ≤ pos_part (pos earliest -ℤ pos now_ms) * 1000000
    → pos_part (pos earliest -ℤ pos now_ms) * 1000000 ≤ 2 ^ 64
    → sleep_until (pos earliest) (pos now_ms) ≤ℤ pos 0
unfolding sleep_until
sleep_until_wraps earliest now_ms ahead far near = ground arith
