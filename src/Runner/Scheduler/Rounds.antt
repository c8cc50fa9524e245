-- ===== src/Runner/Scheduler/Rounds.antt =====
-- The rounds of the promotion loop of internal/taskmq/runner/delayed_scheduler.go, one by one.
use taskmq.Prelude.{
  ℕ, zero, suc, ◌+◌, ◌≡◌, ◌<◌, ◌⊎◌, inr, refl, ap, sym, ◌∙◌, subst, Bytes, true, List, length, take,
  ltb, if-split, Option, some, arith,
}
use taskmq.Prelude.Int.{ℤ, pos, ◌≤ℤ◌}
use taskmq.Errors.{Error}
use taskmq.Task.{unix_milli}
use taskmq.Keys.{stream, delayed}
use taskmq.Redis.{Db, ZSet}
use taskmq.Redis.Reference.{in_scores, members}
use taskmq.Redis.Members.{IsDistinct}
use taskmq.Redis.Laws.{Laws}
use taskmq.Redis.Scores.{
  without_each, Within, has-of-has-in_scores, has-of-has-take, IsDistinct-in_scores,
  IsDistinct-take, length-without_each, take-members,
}
use taskmq.World.{World, Fault, delivered, refused, lost, carry, now, call}
use taskmq.Runner.Promotion.{promote-IsPromoted, IsPromoted}
use taskmq.Runner.Scheduler.{
  Scheduler, Round, returned, again, panicked, batch_size, answered, promote_due, promote_round,
  promote_ready_tasks,
}
use taskmq.Runner.Scheduler.Quiet.{answered_plain, IsQuiet-without_each, IsQuiet}

module _ (s : Scheduler) (laws : Laws s.env.commands) (off : s.stream_max_len ≤ℤ pos 0) where
  abbrev waiting : World → ZSet
  waiting w = w.db.zsets (delayed s.queue)

  -- A round that goes on leaves fewer members, and one that returns has P.
  abbrev pub Progress : (World → Type 0) → ZSet → Round → Type 0
  Progress P z (returned w) = P w
  Progress P z (again w) = IsQuiet s (waiting w) × (length (waiting w) < length z)
  Progress P z (panicked w) = ⊥

  -- The members that a promotion moves.
  abbrev batch : ℕ → ℤ → ZSet → ZSet
  batch count now_ms z = take count (take batch_size (in_scores (pos 0) now_ms z))

  batch-Within : (count : ℕ) (now_ms : ℤ) (z : ZSet) → Within (batch count now_ms z) z
  batch-Within count now_ms z j h = has-of-has-in_scores (pos 0) now_ms j z (
      has-of-has-take batch_size j (in_scores (pos 0) now_ms z)
        (has-of-has-take count j (take batch_size (in_scores (pos 0) now_ms z)) h))

  batch-IsDistinct :
      (count : ℕ) (now_ms : ℤ) (z : ZSet) → IsDistinct z → IsDistinct (batch count now_ms z)
  batch-IsDistinct count now_ms z d =
      IsDistinct-take count (take batch_size (in_scores (pos 0) now_ms z)) (
        IsDistinct-take batch_size (in_scores (pos 0) now_ms z)
          (IsDistinct-in_scores (pos 0) now_ms z d))

  length-batch :
      (count : ℕ) (now_ms : ℤ) (z : ZSet)
      → IsQuiet s z
      → length (without_each (members (batch count now_ms z)) z) + length (batch count now_ms z)
        ≡ length z
  length-batch count now_ms z q =
      length-without_each (batch count now_ms z) z (batch-IsDistinct count now_ms z q.distinct)
        q.distinct (batch-Within count now_ms z)

  pub moved-batch :
      {now_ms : ℤ} {db db' : Db} {moved : List Bytes}
      (done : IsPromoted
        (delayed s.queue)
        (stream s.queue)
        (pos 0)
        now_ms
        batch_size
        s.stream_hard_limit
        db
        db'
        moved)
      → moved ≡ members (batch done.count now_ms (db.zsets (delayed s.queue)))
  moved-batch {now_ms} {db} done =
      done.first
      ∙ take-members done.count
          (take batch_size (in_scores (pos 0) now_ms (db.zsets (delayed s.queue))))

  module _ (P : World → Type 0) where
    moved-Progress :
        (z y : ZSet) (moved : List Bytes) (w : World)
        → moved ≡ members y
        → waiting w ≡ without_each moved z
        → IsQuiet s z
        → Within y z
        → length (without_each (members y) z) + length y ≡ length z
        → (ltb (length y) batch_size ≡ true → P w)
        → Progress P z (answered s (inr moved, w))
    moved-Progress z y moved w is left q inside shrinks p =
        rw (is, answered_plain s y w (λ m h. q.plain m (inside m h)))
          (if-split (Progress P z) (ltb (length y) batch_size) p (λ full. (
            subst (IsQuiet s) (sym left) (IsQuiet-without_each s moved z q),
            ground (arith, ap length left, ap (λ ms. length (without_each ms z)) is),
          )))

    -- The loop ends when every round makes progress.
    pub loop-ends :
        ((w : World) → IsQuiet s (waiting w) → Progress P (waiting w) (promote_round s w))
        → (fuel : ℕ) (w : World) → length (waiting w) < fuel
        → IsQuiet s (waiting w)
        → (w' : World) × (promote_ready_tasks s fuel w ≡ some (returned w')) × P w'
    unfolding promote_ready_tasks
    loop-ends round zero w h q = absurd (omega arith)
    loop-ends round (suc fuel) w h q = step (promote_round s w) (round w q) (loop-ends round fuel)
      where
        step :
            (r : Round)
            → Progress P (waiting w) r
            → ((w₁ : World)
                → length (waiting w₁) < fuel
                → IsQuiet s (waiting w₁)
                → (w' : World) × (promote_ready_tasks s fuel w₁ ≡ some (returned w')) × P w')
            → (w' : World) × ((elim r as (λ r. Option Round) [
              | returned w' ↦ some (returned w')
              | again w' ↦ promote_ready_tasks s fuel w'
              | panicked w' ↦ some (panicked w')
            ])
                ≡ some (returned w'))
              × P w'
        step (returned w₁) p rest = (w₁, refl, p)
        step (again w₁) p rest = rest w₁ (omega (arith, p.1, h)) p.0
        step (panicked w₁) p rest = elim p [ ]

  abbrev pub next_ms : World → ℤ
  next_ms w = unix_milli (s.env.clock w.reads)

  pub promoted :
      (w : World)
      → IsPromoted
          (delayed s.queue)
          (stream s.queue)
          (pos 0)
          (next_ms w)
          batch_size
          s.stream_hard_limit
          w.db
          (promote_due s (next_ms w) w.db).0
          (promote_due s (next_ms w) w.db).1
  promoted w =
      promote-IsPromoted s.env.commands laws (delayed s.queue) (stream s.queue) (pos 0) (next_ms w)
        batch_size s.stream_hard_limit s.stream_max_len w.db off

  abbrev pub moved_by : World → ZSet
  moved_by w = batch (promoted w).count (next_ms w) (waiting w)

  abbrev pub after_call : Fault → World → (Error ⊎ List Bytes) × World
  after_call f w = carry f (promote_due s (next_ms w)) (now s.env w).1

  pub delivered-Progress :
      (P : World → Type 0) (w : World)
      → IsQuiet s (waiting w)
      → (ltb (length (moved_by w)) batch_size ≡ true → P (after_call delivered w).1)
      → Progress P (waiting w) (answered s (after_call delivered w))
  delivered-Progress P w q p =
      moved-Progress P (waiting w) (moved_by w) (promote_due s (next_ms w) w.db).1
        (after_call delivered w).1 (moved-batch (promoted w)) (promoted w).left q
        (batch-Within (promoted w).count (next_ms w) (waiting w))
        (length-batch (promoted w).count (next_ms w) (waiting w) q) p

  round-Progress :
      (w : World) → IsQuiet s (waiting w) → Progress (λ w. Unit {0}) (waiting w) (promote_round s w)
  unfolding promote_round call
  round-Progress w q =
      elim (s.env.net w.calls)
        as (λ f. Progress (λ w. Unit {0}) (waiting w) (answered s (after_call f w))) [
          | delivered ↦ delivered-Progress (λ w. Unit {0}) w q (λ _. tt)
          | refused ↦ tt
          | lost ↦ tt
        ]

  -- On a delayed set with each member once and none of a cron job, without MAXLEN, the promotion loop
  -- returns within as many rounds as there are members, and one more, whatever calls fail.
  pub promote_ready_tasks-ends :
      (fuel : ℕ) (w : World)
      → length (waiting w) < fuel
      → IsQuiet s (waiting w)
      → (w' : World) × (promote_ready_tasks s fuel w ≡ some (returned w'))
  promote_ready_tasks-ends fuel w h q = ended (loop-ends (λ w. Unit {0}) round-Progress fuel w h q)
    where
      ended :
          (w' : World) × (promote_ready_tasks s fuel w ≡ some (returned w')) × Unit {0}
          → (w' : World) × (promote_ready_tasks s fuel w ≡ some (returned w'))
      ended (w', e, _) = (w', e)
