-- ===== src/Runner/Scheduler/Drained.antt =====
-- The promotion loop of internal/taskmq/runner/delayed_scheduler.go ends, and with a network that
-- delivers its calls it leaves nothing that is due.
use taskmq.Prelude.{
  ℕ, zero, suc, ◌≡◌, ◌≤◌, ◌<◌, inl, inr, ap, true, [], length, take, take_all, length-take, ltb,
  some, arith,
}
use taskmq.Prelude.Int.{pos, ◌≤ℤ◌}
use taskmq.Task.{unix_milli}
use taskmq.Keys.{stream, delayed}
use taskmq.Redis.{ZSet}
use taskmq.Redis.Reference.{in_scores, members}
use taskmq.Redis.Laws.{Laws}
use taskmq.Redis.Scores.{length-members, in_scores_gone}
use taskmq.World.{World, delivered, call}
use taskmq.Runner.Promotion.{IsPromoted}
use taskmq.Runner.Scheduler.{
  Scheduler, returned, batch_size, promote_due, promote_round, promote_ready_tasks,
}
use taskmq.Runner.Scheduler.Quiet.{IsQuiet}
use taskmq.Runner.Scheduler.Rounds.{
  loop-ends, Progress, moved-batch, next_ms, promoted, moved_by, after_call, delivered-Progress,
}

abbrev pub before : ℕ → ℕ
before zero = 0
before (suc n) = n

module _ (s : Scheduler) (laws : Laws s.env.commands) (off : s.stream_max_len ≤ℤ pos 0)
    (unlimited : s.stream_hard_limit ≤ℤ pos 0) (reliable : (n : ℕ) → s.env.net n ≡ delivered) where
  -- No delayed task was due at the last reading of the clock.
  abbrev pub NoneDue : World → Type 0
  NoneDue w =
      in_scores (pos 0) (unix_milli (s.env.clock (before w.reads))) (w.db.zsets (delayed s.queue))
      ≡ []

  all_moved :
      (w : World)
      → ltb (length (moved_by s laws off w)) batch_size ≡ true
      → NoneDue (after_call s laws off delivered w).1
  all_moved w short = elim done.stayed [
    | inl whole ↦
        rw (done.left, whole, take_all batch_size due (few (ap length whole)))
          (in_scores_gone (pos 0) (next_ms s laws off w) (w.db.zsets (delayed s.queue)))
    | inr (limited, _) ↦ absurd (omega arith)
  ]
    where
      done :
          IsPromoted
            (delayed s.queue)
            (stream s.queue)
            (pos 0)
            (next_ms s laws off w)
            batch_size
            s.stream_hard_limit
            w.db
            (promote_due s (next_ms s laws off w) w.db).0
            (promote_due s (next_ms s laws off w) w.db).1
      done = promoted s laws off w

      due : ZSet
      due = in_scores (pos 0) (next_ms s laws off w) (w.db.zsets (delayed s.queue))

      few :
          length (promote_due s (next_ms s laws off w) w.db).1
            ≡ length (members (take batch_size due))
          → length due ≤ batch_size
      few e = ground (
        arith,
        length-members (take batch_size due),
        length-members (moved_by s laws off w),
        ap length (moved-batch s laws off done),
        length-take batch_size due,
      )

  drained-Progress :
      (w : World)
      → IsQuiet s (w.db.zsets (delayed s.queue))
      → Progress s laws off NoneDue (w.db.zsets (delayed s.queue)) (promote_round s w)
  unfolding promote_round call
  drained-Progress w q =
      rw (reliable w.calls) (delivered-Progress s laws off NoneDue w q (all_moved w))

  -- On a delayed set with each member once and none of a cron job, without MAXLEN and hard limit, and
  -- with a network that delivers its calls: the promotion loop returns, and no delayed task was due
  -- when the clock was read last.
  pub promote_ready_tasks-drains :
      (fuel : ℕ) (w : World)
      → length (w.db.zsets (delayed s.queue)) < fuel
      → IsQuiet s (w.db.zsets (delayed s.queue))
      → (w' : World) × (promote_ready_tasks s fuel w ≡ some (returned w')) × NoneDue w'
  promote_ready_tasks-drains = loop-ends s laws off NoneDue drained-Progress
