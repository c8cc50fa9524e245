-- ===== src/Runner/Scheduler.antt =====
-- The loop of internal/taskmq/runner/delayed_scheduler.go: promotions, the sleep until the next one,
-- and the events that end a sleep.
pub mod Held
pub mod Sleep
pub mod Drained
pub mod Quiet
pub mod Rounds
use taskmq.Prelude.{
  ℕ, zero, suc, Bytes, ◌||◌, ◌⊎◌, inl, inr, List, [], ◌∷◌, ◌=b◌, length, ltb, if◌then◌else◌, Option,
  none, some,
}
use taskmq.Prelude.Int.{ℤ, pos, ltb_ℤ, leb_ℤ, scale, div_trunc, wrap64, ◌+ℤ◌, ◌-ℤ◌}
use taskmq.Errors.{Error}
use taskmq.Task.{Task, zero_task, unix_milli, milliseconds}
use taskmq.Codec.Interface.{Codec}
use taskmq.Keys.{stream, delayed}
use taskmq.Redis.{Db, Member}
use taskmq.World.{Env, World, now, call}
use taskmq.Runner.Promotion.{promote}

-- `CronManager.Reschedule` of runner/interfaces.go
abbrev pub Reschedule : Type 0
Reschedule = Task → World → Option Error × World

-- `cron` is `none` for a nil manager; times are in nanoseconds.
pub record Scheduler : Type 0 where
  pub env : Env
  pub codec : Codec
  pub queue : Bytes
  pub cron : Option Reschedule
  pub poll_interval : ℤ
  pub stream_hard_limit : ℤ
  pub stream_max_len : ℤ

-- How a round of the promotion loop ends: the function returns, the loop goes on, or a method is
-- called on a nil manager.
pub data Round : Type 0 where
  returned again panicked : World → Round

abbrev pub batch_size : ℕ
batch_size = 100

abbrev pub max_sleep : ℤ
max_sleep = pos 10000000000

abbrev pub min_sleep : ℤ
min_sleep = pos 1000000

-- `time.Duration(earliestMs-nowMs) * time.Millisecond` is an int64 product.
unfoldable pub sleep_until : ℤ → ℤ → ℤ
sleep_until earliest now_ms =
    let diff = wrap64 (scale (wrap64 (earliest -ℤ now_ms)) 1000000) in
    if leb_ℤ earliest now_ms then min_sleep else if ltb_ℤ max_sleep diff then max_sleep else diff

-- The sleep that the timer is set to, and the time in milliseconds at which it fires.
pub record Timer : Type 0 where
  pub sleep_duration : ℤ
  pub next_wakeup_ms : ℤ

-- What ends a sleep: the timer, a message of the wakeup channel with what `strconv.ParseInt` makes of
-- its payload, or the channel's end, after which it is subscribed again.
pub data Event : Type 0 where
  timer_fired : Event
  message_received : Option ℤ → Event
  channel_closed : Event

-- The loop sleeps, has crashed, or is in a promotion whose fuel ran out.
pub data Loop : Type 0 where
  sleeping : Timer → World → Loop
  crashed : World → Loop
  out_of_fuel : Loop

module _ (s : Scheduler) where
  -- A promoted member of a cron job is rescheduled, with the error ignored; `inl` is a panic.
  abbrev pub reschedule_with : Option Reschedule → Task → World → World ⊎ World
  reschedule_with none t w = inl w
  reschedule_with (some f) t w = inr (f t w).1

  abbrev pub reschedule_decoded : Error ⊎ Task → World → World ⊎ World
  reschedule_decoded (inl e) w = inr w
  reschedule_decoded (inr t) w = if t.cron_spec =b [] then inr w else reschedule_with s.cron t w

  unfoldable pub reschedule_each : List Bytes → World → World ⊎ World
  reschedule_each [] w = inr w
  reschedule_each (m ∷ ms) w = elim (reschedule_decoded (s.codec.unmarshal m zero_task) w) [
    | inl w' ↦ inl w'
    | inr w' ↦ reschedule_each ms w'
  ]

  -- A full batch asks for another round.
  abbrev pub continued : List Bytes → World ⊎ World → Round
  continued ms (inl w) = panicked w
  continued ms (inr w) = if ltb (length ms) batch_size then returned w else again w

  abbrev pub answered : (Error ⊎ List Bytes) × World → Round
  answered (inl e, w) = returned w
  answered (inr [], w) = returned w
  answered (inr (m ∷ ms), w) = continued (m ∷ ms) (reschedule_each (m ∷ ms) w)

  -- The script at a time in milliseconds
  abbrev pub promote_due : ℤ → Db → Db × List Bytes
  promote_due now_ms =
      promote s.env.commands (delayed s.queue) (stream s.queue) (pos 0) now_ms batch_size
        s.stream_hard_limit s.stream_max_len

  unfoldable pub promote_round : World → Round
  promote_round w = answered (call s.env (promote_due (unix_milli (now s.env w).0)) (now s.env w).1)

  -- `promoteReadyTasks` on fuel: `none` means that the fuel ran out.
  unfoldable pub promote_ready_tasks : ℕ → World → Option Round
  promote_ready_tasks zero w = none
  promote_ready_tasks (suc fuel) w = elim (promote_round w) [
    | returned w' ↦ some (returned w')
    | again w' ↦ promote_ready_tasks fuel w'
    | panicked w' ↦ some (panicked w')
  ]

  abbrev pub sleep_for : (Error ⊎ List Member) × World → ℤ × World
  sleep_for (inl e, w) = (s.poll_interval, w)
  sleep_for (inr [], w) = (max_sleep, w)
  sleep_for (inr (x ∷ xs), w) = (sleep_until x.score (unix_milli (now s.env w).0), (now s.env w).1)

  abbrev pub peek : Db → Db × List Member
  peek db = (db, s.env.commands.zrange_withscores (pos 0) (pos 0) (db.zsets (delayed s.queue)))

  unfoldable pub calculate_sleep : World → ℤ × World
  calculate_sleep w = sleep_for (call s.env peek w)

  abbrev pub timer_set : ℤ × World → Timer × World
  timer_set (d, w) = (
    record { sleep_duration = d; next_wakeup_ms = unix_milli (now s.env w).0 +ℤ milliseconds d },
    (now s.env w).1,
  )

  abbrev pub slept : Option Round → Loop
  slept none = out_of_fuel
  slept (some (panicked w)) = crashed w
  slept (some (again w)) = out_of_fuel
  slept (some (returned w)) = let set = timer_set (calculate_sleep w) in sleeping set.0 set.1

  -- Promote what is due and set the timer.
  unfoldable pub refresh : ℕ → World → Loop
  refresh fuel w = slept (promote_ready_tasks fuel w)

  -- The loop's `select`. Behind an earlier task's message there is a short random sleep.
  unfoldable pub handle_event : ℕ → Event → Timer → World → Loop
  handle_event fuel timer_fired t w = refresh fuel w
  handle_event fuel channel_closed t w = sleeping t w
  handle_event fuel (message_received none) t w = sleeping t w
  handle_event fuel (message_received (some new_ms)) t w =
      if leb_ℤ t.next_wakeup_ms new_ms then sleeping t w else refresh fuel w

  unfoldable pub run_events : ℕ → List Event → Loop → Loop
  run_events fuel [] l = l
  run_events fuel (e ∷ es) (sleeping t w) = run_events fuel es (handle_event fuel e t w)
  run_events fuel (e ∷ es) (crashed w) = crashed w
  run_events fuel (e ∷ es) out_of_fuel = out_of_fuel

  -- `Run`, until the events end
  unfoldable pub run_scheduler : ℕ → List Event → World → Loop
  run_scheduler fuel es w = run_events fuel es (refresh fuel w)
