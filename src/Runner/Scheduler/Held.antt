-- ===== src/Runner/Scheduler/Held.antt =====
-- No task is lost between the delayed set and the stream, whatever fails.
use taskmq.Prelude.{
  ℕ, zero, suc, ◌≡◌, ◌⊎◌, inl, inr, refl, ap, Bytes, true, ◌||◌, ◌++◌, List, [], ◌∷◌, ◌=b◌, length,
  ltb, if-both, Option, none, some, arith,
}
use taskmq.Prelude.Int.{ℤ, pos, leb_ℤ, ◌≤ℤ◌}
use taskmq.Errors.{Error}
use taskmq.Task.{Task, zero_task, unix_milli}
use taskmq.Keys.{stream, delayed}
use taskmq.Redis.{Db, Member}
use taskmq.Redis.Reference.{has, payloads}
use taskmq.Redis.Laws.{Laws}
use taskmq.Redis.Ranks.{among}
use taskmq.Redis.Scores.{has-without_each}
use taskmq.Lifecycle.Config.{delayed_limits}
use taskmq.Lifecycle.Admission.{limits_of}
use taskmq.World.{World, now, call, carry, delivered, refused, lost}
use taskmq.World.Run.{call-keeps}
use taskmq.Runner.Promotion.{promote-IsPromoted, IsPromoted}
use taskmq.Runner.Scheduler.{
  Scheduler, Reschedule, Round, returned, again, panicked, batch_size, reschedule_with,
  reschedule_decoded, reschedule_each, continued, answered, promote_round, promote_ready_tasks,
  promote_due, peek, calculate_sleep, sleep_for, Loop, sleeping, crashed, out_of_fuel, Timer, slept,
  refresh, Event, timer_fired, message_received, channel_closed, handle_event, run_events,
  run_scheduler,
}

-- The encoded task waits in the delayed set of a queue, or is in its stream.
abbrev pub IsQueued : Bytes → Bytes → Db → Type 0
IsQueued queue p db =
    has p (db.zsets (delayed queue)) || among p (payloads (db.streams (stream queue)).entries)
    ≡ true

-- `DelayedMaxCount` is off.
abbrev pub IsUncapped : World → Type 0
IsUncapped w = (delayed_limits (limits_of w.lifecycle)).0 ≤ℤ pos 0

-- A later world still has no cap, and the tasks of an earlier one.
abbrev pub Keeps : Bytes → World → World → Type 0
Keeps queue w w' = IsUncapped w' × ((p : Bytes) → IsQueued queue p w.db → IsQueued queue p w'.db)

-- What the scheduler asks of a cron manager.
abbrev pub KeepsTasks : Bytes → Option Reschedule → Type 0
KeepsTasks queue none = Unit {0}
KeepsTasks queue (some f) = (t : Task) (w : World) → IsUncapped w → Keeps queue w (f t w).1

among-append : (m : Bytes) (xs ys : List Bytes) → among m (xs ++ ys) ≡ among m xs || among m ys
unfolding among
among-append m [] ys = refl
among-append m (x ∷ xs) ys = ground (arith, among-append m xs ys)

-- A promotion moves each task or leaves it.
pub IsPromoted-IsQueued :
    (queue : Bytes) {lo hi : ℤ} {batch : ℕ} {hard : ℤ} {db db' : Db} {moved : List Bytes}
    → IsPromoted (delayed queue) (stream queue) lo hi batch hard db db' moved
    → (p : Bytes) → IsQueued queue p db
    → IsQueued queue p db'
IsPromoted-IsQueued queue {db = db} {moved = moved} done p h = ground (
  arith,
  ap (has p) done.left,
  has-without_each moved (db.zsets (delayed queue)) p,
  ap (among p) done.appended,
  among-append p (payloads (db.streams (stream queue)).entries) moved,
)

-- What ends of the loop keep of a first world.
module _ (queue : Bytes) (w₀ : World) where
  abbrev pub RescheduledKept : World ⊎ World → Type 0
  RescheduledKept (inl w) = Keeps queue w₀ w
  RescheduledKept (inr w) = Keeps queue w₀ w

  abbrev pub RoundKept : Round → Type 0
  RoundKept (returned w) = Keeps queue w₀ w
  RoundKept (again w) = Keeps queue w₀ w
  RoundKept (panicked w) = Keeps queue w₀ w

  abbrev pub EndKept : Option Round → Type 0
  EndKept none = Unit {0}
  EndKept (some r) = RoundKept r

  abbrev pub LoopKept : Loop → Type 0
  LoopKept (sleeping t w) = Keeps queue w₀ w
  LoopKept (crashed w) = Keeps queue w₀ w
  LoopKept out_of_fuel = Unit {0}

module _ (s : Scheduler) (laws : Laws s.env.commands) (off : s.stream_max_len ≤ℤ pos 0)
    (cron_keeps : KeepsTasks s.queue s.cron) (w₀ : World) where
  call-IsUncapped :
      {A : Type 0} (script : Db → Db × A) (w : World)
      → IsUncapped w
      → IsUncapped (call s.env script w).1
  unfolding call
  call-IsUncapped script w h = elim (s.env.net w.calls) as (λ f. IsUncapped (carry f script w).1) [
    | delivered ↦ h
    | refused ↦ h
    | lost ↦ h
  ]

  reschedule_with-Kept :
      (f : Option Reschedule) (t : Task) (w : World)
      → KeepsTasks s.queue f
      → Keeps s.queue w₀ w
      → RescheduledKept s.queue w₀ (reschedule_with s f t w)
  reschedule_with-Kept none t w keeps h = h
  reschedule_with-Kept (some f) t w keeps (u, h) =
      ((keeps t w u).0, (λ p q. (keeps t w u).1 p (h p q)))

  reschedule_decoded-Kept :
      (d : Error ⊎ Task) (w : World)
      → Keeps s.queue w₀ w
      → RescheduledKept s.queue w₀ (reschedule_decoded s d w)
  reschedule_decoded-Kept (inl e) w h = h
  reschedule_decoded-Kept (inr t) w h =
      if-both (RescheduledKept s.queue w₀) (t.cron_spec =b []) h
        (reschedule_with-Kept s.cron t w cron_keeps h)

  reschedule_each-Kept :
      (ms : List Bytes) (w : World)
      → Keeps s.queue w₀ w
      → RescheduledKept s.queue w₀ (reschedule_each s ms w)
  unfolding reschedule_each
  reschedule_each-Kept [] w h = h
  reschedule_each-Kept (m ∷ ms) w h =
      step (reschedule_decoded s (s.codec.unmarshal m zero_task) w)
        (reschedule_decoded-Kept (s.codec.unmarshal m zero_task) w h) (reschedule_each-Kept ms)
    where
      step :
          (r : World ⊎ World)
          → RescheduledKept s.queue w₀ r
          → ((w' : World)
              → Keeps s.queue w₀ w'
              → RescheduledKept s.queue w₀ (reschedule_each s ms w'))
          → RescheduledKept s.queue w₀ (elim r as (λ r. World ⊎ World) [
            | inl w' ↦ inl w'
            | inr w' ↦ reschedule_each s ms w'
          ])
      step (inl w') k rest = k
      step (inr w') k rest = rest w' k

  continued-Kept :
      (ms : List Bytes) (r : World ⊎ World)
      → RescheduledKept s.queue w₀ r
      → RoundKept s.queue w₀ (continued s ms r)
  continued-Kept ms (inl w) h = h
  continued-Kept ms (inr w) h = if-both (RoundKept s.queue w₀) (ltb (length ms) batch_size) h h

  answered-Kept :
      (r : (Error ⊎ List Bytes) × World)
      → Keeps s.queue w₀ r.1
      → RoundKept s.queue w₀ (answered s r)
  answered-Kept (inl e, w) h = h
  answered-Kept (inr [], w) h = h
  answered-Kept (inr (m ∷ ms), w) h =
      continued-Kept (m ∷ ms) (reschedule_each s (m ∷ ms) w) (reschedule_each-Kept (m ∷ ms) w h)

  promote_round-Kept : (w : World) → Keeps s.queue w₀ w → RoundKept s.queue w₀ (promote_round s w)
  unfolding promote_round
  promote_round-Kept w (u, h) = answered-Kept (call s.env (promote_due s now_ms) (now s.env w).1) (
    call-IsUncapped (promote_due s now_ms) (now s.env w).1 u,
    (λ p q. call-keeps (IsQueued s.queue p) s.env (promote_due s now_ms) (now s.env w).1 (h p q) (
        IsPromoted-IsQueued s.queue
          (promote-IsPromoted s.env.commands laws (delayed s.queue) (stream s.queue) (pos 0) now_ms
            batch_size s.stream_hard_limit s.stream_max_len w.db off)
          p (h p q))),
  )
    where
      now_ms : ℤ
      now_ms = unix_milli (now s.env w).0

  promote_ready_tasks-Kept :
      (fuel : ℕ) (w : World)
      → Keeps s.queue w₀ w
      → EndKept s.queue w₀ (promote_ready_tasks s fuel w)
  unfolding promote_ready_tasks
  promote_ready_tasks-Kept zero w h = tt
  promote_ready_tasks-Kept (suc fuel) w h =
      step (promote_round s w) (promote_round-Kept w h) (promote_ready_tasks-Kept fuel)
    where
      step :
          (r : Round)
          → RoundKept s.queue w₀ r
          → ((w' : World)
              → Keeps s.queue w₀ w'
              → EndKept s.queue w₀ (promote_ready_tasks s fuel w'))
          → EndKept s.queue w₀ (elim r as (λ r. Option Round) [
            | returned w' ↦ some (returned w')
            | again w' ↦ promote_ready_tasks s fuel w'
            | panicked w' ↦ some (panicked w')
          ])
      step (returned w') k rest = k
      step (again w') k rest = rest w' k
      step (panicked w') k rest = k

  sleep_for-Kept :
      (r : (Error ⊎ List Member) × World)
      → Keeps s.queue w₀ r.1
      → Keeps s.queue w₀ (sleep_for s r).1
  sleep_for-Kept (inl e, w) h = h
  sleep_for-Kept (inr [], w) h = h
  sleep_for-Kept (inr (x ∷ xs), w) h = h

  calculate_sleep-Kept : (w : World) → Keeps s.queue w₀ w → Keeps s.queue w₀ (calculate_sleep s w).1
  unfolding calculate_sleep
  calculate_sleep-Kept w h = sleep_for-Kept (call s.env (peek s) w) (
    call-IsUncapped (peek s) w h.0,
    (λ p q. call-keeps (IsQueued s.queue p) s.env (peek s) w (h.1 p q) (h.1 p q)),
  )

  slept-Kept : (r : Option Round) → EndKept s.queue w₀ r → LoopKept s.queue w₀ (slept s r)
  slept-Kept none h = tt
  slept-Kept (some (panicked w)) h = h
  slept-Kept (some (again w)) h = tt
  slept-Kept (some (returned w)) h = calculate_sleep-Kept w h

  refresh-Kept :
      (fuel : ℕ) (w : World) → Keeps s.queue w₀ w → LoopKept s.queue w₀ (refresh s fuel w)
  unfolding refresh
  refresh-Kept fuel w h =
      slept-Kept (promote_ready_tasks s fuel w) (promote_ready_tasks-Kept fuel w h)

  handle_event-Kept :
      (fuel : ℕ) (e : Event) (t : Timer) (w : World)
      → Keeps s.queue w₀ w
      → LoopKept s.queue w₀ (handle_event s fuel e t w)
  unfolding handle_event
  handle_event-Kept fuel timer_fired t w h = refresh-Kept fuel w h
  handle_event-Kept fuel channel_closed t w h = h
  handle_event-Kept fuel (message_received none) t w h = h
  handle_event-Kept fuel (message_received (some new_ms)) t w h =
      if-both (LoopKept s.queue w₀) (leb_ℤ t.next_wakeup_ms new_ms) h (refresh-Kept fuel w h)

  run_events-Kept :
      (fuel : ℕ) (es : List Event) (l : Loop)
      → LoopKept s.queue w₀ l
      → LoopKept s.queue w₀ (run_events s fuel es l)
  unfolding run_events
  run_events-Kept fuel [] l h = h
  run_events-Kept fuel (e ∷ es) (sleeping t w) h =
      run_events-Kept fuel es (handle_event s fuel e t w) (handle_event-Kept fuel e t w h)
  run_events-Kept fuel (e ∷ es) (crashed w) h = h
  run_events-Kept fuel (e ∷ es) out_of_fuel h = tt

-- Whatever the events and the failures of calls, while the scheduler runs without MAXLEN, without a cap
-- on the delayed set, and with a cron manager that keeps tasks: a payload that was in the delayed set or
-- the stream of the queue still is when the scheduler sleeps, and when it has crashed.
pub run_scheduler-Kept :
    (s : Scheduler) (laws : Laws s.env.commands) (fuel : ℕ) (es : List Event) (w : World)
    → s.stream_max_len ≤ℤ pos 0
    → KeepsTasks s.queue s.cron
    → IsUncapped w
    → LoopKept s.queue w (run_scheduler s fuel es w)
unfolding run_scheduler
run_scheduler-Kept s laws fuel es w off keeps uncapped =
    run_events-Kept s laws off keeps w fuel es (refresh s fuel w)
      (refresh-Kept s laws off keeps w fuel w (uncapped, (λ p q. q)))
