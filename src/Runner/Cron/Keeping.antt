-- ===== src/Runner/Cron/Keeping.antt =====
-- Rescheduling a cron job with no cap on the delayed set loses no task.
use taskmq.Prelude.{
  ℕ, zero, suc, ◌≡◌, ap, sym, subst, Bool-cases, Bytes, Bool, true, false, ◌⊎◌, inl, inr, [], ◌=b◌,
  =b_iff, if-both, Option, none, some, arith,
}
use taskmq.Prelude.Int.{ℤ, pos, negsuc, ◌≤ℤ◌}
use taskmq.Errors.{Error}
use taskmq.Task.{Task, unix_milli}
use taskmq.Keys.{delayed}
use taskmq.Redis.{Db, set_zset}
use taskmq.Redis.Reference.{has}
use taskmq.Redis.Laws.{Laws}
use taskmq.Redis.Members.{has-insert}
use taskmq.Lifecycle.Config.{delayed_limits}
use taskmq.Lifecycle.Metrics.{Lifecycle, Counter, observe}
use taskmq.Lifecycle.Scripts.{
  Reply, number, entry_id, script_error, make_room, enqueue_delayed_with_limit, at_limit,
}
use taskmq.Lifecycle.Admission.{limits_of, count, mapped, map_enqueue_script_result, z_add_delayed}
use taskmq.World.{World, answer, deliver, run, delivered, refused, lost, now}
use taskmq.Runner.Scheduler.Held.{IsQueued, IsUncapped, Keeps, KeepsTasks}
use taskmq.Runner.Cron.{
  CronManager, Schedule, parse_cron_spec, announced, scheduled, rescheduled, reschedule,
}

count-IsUncapped :
    (name : Counter) (l : Option Lifecycle)
    → (delayed_limits (limits_of l)).0 ≤ℤ pos 0
    → (delayed_limits (limits_of (count name l))).0 ≤ℤ pos 0
unfolding observe delayed_limits
count-IsUncapped name none h = h
count-IsUncapped name (some l) h = h

-- The mapped reply of a script leaves the server and the cap alone.
mapped-Keeps :
    (queue : Bytes) (r : Reply) (w : World) → IsUncapped w → Keeps queue w (mapped (answer r, w)).1
unfolding mapped map_enqueue_script_result
mapped-Keeps queue (entry_id n) w h = (h, (λ p q. q))
mapped-Keeps queue script_error w h = (h, (λ p q. q))
mapped-Keeps queue (number (pos n)) w h = (h, (λ p q. q))
mapped-Keeps queue (number (negsuc zero)) w h = (h, (λ p q. q))
mapped-Keeps queue (number (negsuc (suc zero))) w h = (count-IsUncapped _ w.lifecycle h, (λ p q. q))
mapped-Keeps queue (number (negsuc (suc (suc zero)))) w h =
    (count-IsUncapped _ w.lifecycle h, (λ p q. q))
mapped-Keeps queue (number (negsuc (suc (suc (suc n))))) w h = (h, (λ p q. q))

module _ (m : CronManager) (laws : Laws m.env.commands) where
  -- Without a cap the script only adds.
  added-IsQueued :
      (queue key : Bytes) (score : ℤ) (payload : Bytes) (db : Db) (p : Bytes)
      → IsQueued queue p db
      → IsQueued queue p (set_zset key (m.env.commands.zadd score payload (db.zsets key)) db)
  added-IsQueued queue key score payload db p h = elim (Bool-cases (key =b delayed queue)) [
    | inl here ↦ rw here (
        ground (
          arith,
          ap (λ k. has p (db.zsets k)) ((=b_iff key (delayed queue)).0 here),
          has-insert (laws.zadd_inserts score payload (db.zsets key)) p,
        ))
    | inr elsewhere ↦ rw elsewhere h
  ]

  enqueue_delayed-added :
      (key : Bytes) (score : ℤ) (payload : Bytes) (limit overflow : ℤ) (db : Db)
      → limit ≤ℤ pos 0
      → (enqueue_delayed_with_limit m.env.commands key score payload limit overflow db).0
        ≡ set_zset key (m.env.commands.zadd score payload (db.zsets key)) db
  unfolding enqueue_delayed_with_limit make_room
  enqueue_delayed-added key score payload limit overflow db off = rw (off_limit limit _ off)
    where
      off_limit : (limit : ℤ) (n : ℕ) → limit ≤ℤ pos 0 → at_limit limit n ≡ false
      off_limit limit n h = ground arith

  module _ (queue : Bytes) where
    run-Keeps :
        (script : Db → Db × Reply) (w : World)
        → IsUncapped w
        → ((p : Bytes) → IsQueued queue p w.db → IsQueued queue p (script w.db).0)
        → Keeps queue w (mapped (run m.env script w)).1
    unfolding run
    run-Keeps script w u h =
        elim (m.env.net w.calls) as (λ f. Keeps queue w (mapped (deliver f script w)).1) [
          | delivered ↦ (
            (mapped-Keeps queue (script w.db).1 _ u).0,
            (λ p q. (mapped-Keeps queue (script w.db).1 _ u).1 p (h p q)),
          )
          | refused ↦ unfold mapped in (u, (λ p q. q))
          | lost ↦ unfold mapped in (u, h)
        ]

    z_add_delayed-Keeps :
        (key : Bytes) (score : ℤ) (payload : Bytes) (system : Bool) (w : World)
        → IsUncapped w
        → Keeps queue w (z_add_delayed m.env key score payload system w).1
    unfolding z_add_delayed
    z_add_delayed-Keeps key score payload system w u = run-Keeps _ w u (λ p q.
        subst (IsQueued queue p)
          (sym (
            enqueue_delayed-added key score payload (delayed_limits (limits_of w.lifecycle)).0 _
              w.db u))
          (added-IsQueued queue key score payload w.db p q))

    announced-Keeps :
        (t : Task) (at : ℤ) (r : Option Error × World) (w : World)
        → Keeps queue w r.1
        → Keeps queue w (announced m t at r).1
    announced-Keeps t at (some e, w') w h = h
    announced-Keeps t at (none, w') w h = h

    scheduled-Keeps :
        (t : Task) (at : ℤ) (e : Error ⊎ Bytes) (w : World)
        → IsUncapped w
        → Keeps queue w (scheduled m t at e w).1
    scheduled-Keeps t at (inl e) w u = (u, (λ p q. q))
    scheduled-Keeps t at (inr serialized) w u =
        announced-Keeps t at
          (z_add_delayed m.env (delayed t.queue) (unix_milli at) serialized true w) w
          (z_add_delayed-Keeps (delayed t.queue) (unix_milli at) serialized true w u)

    rescheduled-Keeps :
        (t : Task) (r : Error ⊎ Schedule) (w : World)
        → IsUncapped w
        → Keeps queue w (rescheduled m t r w).1
    rescheduled-Keeps t (inl e) w u = (u, (λ p q. q))
    rescheduled-Keeps t (inr next) w u =
        scheduled-Keeps t (next (now m.env w).0) _ (now m.env (now m.env w).1).1 u

    -- The manager keeps tasks, as the scheduler asks of it.
    pub reschedule-KeepsTasks : KeepsTasks queue (some (reschedule m))
    unfolding reschedule
    reschedule-KeepsTasks t w u =
        if-both (λ (r : Option Error × World). Keeps queue w r.1) (t.cron_spec =b [])
          (u, (λ p q. q)) (rescheduled-Keeps t (parse_cron_spec m.parse t.cron_spec) w u)
