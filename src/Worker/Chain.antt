-- ===== src/Worker/Chain.antt =====
-- The middlewares of internal/taskmq/worker/middleware.go keep a message from getting lost, one by one.
use taskmq.Prelude.{
  ap, subst, ℕ, zero, suc, ◌≡◌, ◌≢◌, ◌⊎◌, inl, inr, refl, ◌∙◌, Bytes, true, ◌||◌, if◌then◌else◌,
  arith, Option, none, some, ◌=b◌, List, [], ◌∷◌, if-both, if-split,
}
use taskmq.Prelude.Int.{ℤ, pos, leb_ℤ, ltb_ℤ, ◌+ℤ◌, add64}
use taskmq.Errors.{Error, is_handled, text}
use taskmq.Task.{Task, effective_timeout, unique_until_start}
use taskmq.Keys.{stream, rate_limit}
use taskmq.Redis.{Db, StringValue}
use taskmq.Redis.Laws.{Laws}
use taskmq.Lifecycle.Config.{Config}
use taskmq.World.{World, run, now}
use taskmq.Lifecycle.Scripts.{Reply}
use taskmq.Broker.Transitions.{release_unique_lock, renew_lock}
use taskmq.Worker.{
  Outcome, returned, panicked, Handler, ConsumeContext, Worker, Execution, Next, next,
}
use taskmq.RateLimit.{script_on, on_key, try_consume}
use taskmq.RateLimit.Foretold.{wait_time-world}
use taskmq.Worker.Middleware.{
  equal_scope, group_of, on_error, recovered, deferred, limited, after_dead, after_retry,
  released_on_error, watched, handle, recovery_middleware, rate_limit_middleware, fail_task,
  is_permanent, retry_and_dlq_middleware, renew_attempts, watchdog, lock_ttl,
  unique_lock_watchdog_middleware, call_handler, middleware_chain,
}
use taskmq.Worker.Held.{
  IsSafe, run-IsSafe, release_unique_lock-IsSafe, renew_lock-IsSafe, schedule_retry-IsSafe,
  defer_rate_limited_task-IsSafe, move_to_dlq-IsSafe,
}

-- The application's functions leave the id and the queue of a task as they are.
pub record KeepsIdentity (p : Worker) : Type 0 where
  pub handler :
      (name : Bytes) (h : Handler) (time : ℤ) (t : Task)
      → p.handlers name ≡ some h
      → ((h time t).1.id ≡ t.id) × ((h time t).1.queue ≡ t.queue)
  pub hook :
      (t : Task) (err : Error)
      → ((p.dead_letter_policy.before_dead_letter t err).id ≡ t.id)
        × ((p.dead_letter_policy.before_dead_letter t err).queue ≡ t.queue)

-- The handler of the task's name returned nil for the task, with the timeout of some reading of the clock.
abbrev pub HasSucceeded : Worker → Task → Type 0
HasSucceeded p t =
    (h : Handler) × (k : ℕ) × (p.handlers t.name ≡ some h)
    × ((h (effective_timeout (some t) (p.env.clock k)) t).0 ≡ returned none)

module _ (p : Worker) (laws : Laws p.env.commands) (keeps : KeepsIdentity p) (queue : Bytes)
    (msg_id : ℕ) (t0 : Task) (cfg : Config) where
  abbrev Safe : World → Type 0
  Safe w = IsSafe p laws queue msg_id t0.id cfg w

  abbrev IsContext : ConsumeContext → Type 0
  IsContext c = (c.message_id ≡ msg_id) × (c.queue ≡ queue) × (c.task.id ≡ t0.id)

  -- No middleware has changed the task.
  abbrev IsFresh : ConsumeContext → Type 0
  IsFresh c = (c.message_id ≡ msg_id) × (c.queue ≡ queue) × (c.task ≡ t0)

  known : (c : ConsumeContext) → IsFresh c → IsContext c
  known c (m, q, same) = (m, q, ap (λ (t : Task). t.id) same)

  -- Without an error, the chain was aborted or a handler succeeded.
  abbrev IsJustified : Outcome → ConsumeContext → Type 0
  IsJustified o c = (o ≢ returned none) ⊎ (c.aborted ≡ true) ⊎ HasSucceeded p t0

  unfoldable pub IsGood : Execution → Type 0
  IsGood r = IsContext r.1 × Safe r.2 × IsJustified r.0 r.1

  abbrev KeepsGood : (Next → Next) → Type 0
  KeepsGood m =
      (n : Next)
      → ((c : ConsumeContext) (w : World) → IsFresh c → Safe w → IsGood (n c w))
      → (c : ConsumeContext) (w : World) → IsFresh c
      → Safe w
      → IsGood (m n c w)

  handle-IsGood :
      (o : Option Handler) (c : ConsumeContext) (w : World)
      → p.handlers c.task.name ≡ o
      → IsFresh c
      → Safe w
      → IsGood (handle p o c w)
  unfolding IsGood
  handle-IsGood none c w e ctx safe = (known c ctx, safe, inl (ground arith))
  handle-IsGood (some h) c w e (m, q, same) safe = (
    (m, q, (keeps.handler c.task.name h time c.task e).0 ∙ ap (λ (t : Task). t.id) same),
    safe,
    justified (h time c.task).0 refl,
  )
    where
      time : ℤ
      time = effective_timeout (some c.task) (now p.env w).0

      justified :
          (o : Outcome)
          → (h time c.task).0 ≡ o
          → IsJustified o (record c { task = (h time c.task).1 })
      justified (panicked x) f = inl (ground arith)
      justified (returned (some err)) f = inl (ground arith)
      justified (returned none) f = inr (inr (subst (HasSucceeded p) same (h, w.reads, e, f)))

  call_handler-IsGood :
      (n : Next) (c : ConsumeContext) (w : World)
      → IsFresh c
      → Safe w
      → IsGood (call_handler p n c w)
  unfolding call_handler
  call_handler-IsGood n c w ctx safe = handle-IsGood (p.handlers c.task.name) c w refl ctx safe

  recovered-IsGood : (r : Execution) → IsGood r → IsGood (recovered r)
  unfolding IsGood
  recovered-IsGood (panicked x, c, w) (ctx, safe, j) = (ctx, safe, inl (ground arith))
  recovered-IsGood (returned o, c, w) g = g

  recovery-KeepsGood : KeepsGood recovery_middleware
  unfolding recovery_middleware
  recovery-KeepsGood n good c w ctx safe = recovered-IsGood (n c w) (good c w ctx safe)

  renew_attempts-Safe :
      (n : ℕ) (t : Task) (ttl : ℤ) (w : World) → Safe w → Safe (renew_attempts p n t ttl w)
  unfolding renew_attempts
  renew_attempts-Safe zero t ttl w h = h
  renew_attempts-Safe (suc n) t ttl w h =
      elim (renew_lock p.env t ttl w).0
        as (λ o. Safe (elim o [
          | none ↦ (renew_lock p.env t ttl w).1
          | some e ↦ renew_attempts p n t ttl (renew_lock p.env t ttl w).1
        ])) [ none ↦ renewed | some e ↦ renew_attempts-Safe n t ttl _ renewed ]
    where
      renewed : Safe (renew_lock p.env t ttl w).1
      renewed = renew_lock-IsSafe p laws queue msg_id t0.id cfg t ttl w h

  watchdog-Safe : (n : ℕ) (t : Task) (ttl : ℤ) (w : World) → Safe w → Safe (watchdog p n t ttl w)
  unfolding watchdog
  watchdog-Safe zero t ttl w h = h
  watchdog-Safe (suc n) t ttl w h = watchdog-Safe n t ttl _ (renew_attempts-Safe _ t ttl w h)

  released-IsGood : (r : Execution) → IsGood r → IsGood (released_on_error p r)
  unfolding IsGood
  released-IsGood (panicked x, c, w) g = g
  released-IsGood (returned none, c, w) g = g
  released-IsGood (returned (some err), c, w) (ctx, safe, j) = (
    ctx,
    if-both Safe _ (release_unique_lock-IsSafe p laws queue msg_id t0.id cfg c.task w safe) safe,
    inl (ground arith),
  )

  watched-IsGood : (ttl : ℤ) (r : Execution) → IsGood r → IsGood (watched p ttl r)
  unfolding IsGood
  watched-IsGood ttl (o, c, w) (ctx, safe, j) =
      (ctx, watchdog-Safe (p.ticks w.calls) c.task ttl w safe, j)

  unique_lock-KeepsGood : KeepsGood (unique_lock_watchdog_middleware p)
  unfolding unique_lock_watchdog_middleware
  unique_lock-KeepsGood n good c w ctx safe =
      if-both IsGood (c.task.unique_key =b []) (good c w ctx safe) (
        if-both IsGood (equal_scope p c.task.unique_scope unique_until_start)
          (good c (release_unique_lock p.env c.task w).1 ctx
            (release_unique_lock-IsSafe p laws queue msg_id t0.id cfg c.task w safe))
          (released-IsGood _ (
            watched-IsGood ttl _
              (good c ticked ctx (watchdog-Safe (p.ticks w.calls) c.task ttl w safe)))))
    where
      ttl : ℤ
      ttl = lock_ttl p c.task

      ticked : World
      ticked = watchdog p (p.ticks w.calls) c.task ttl w

  on_key-keeps :
      (key : Bytes) (r : Option StringValue × Reply) (db : Db)
      → ((on_key key r db).0.streams ≡ db.streams) × ((on_key key r db).0.zsets ≡ db.zsets)
  on_key-keeps key (none, r) db = (refl, refl)
  on_key-keeps key (some v, r) db = (refl, refl)

  try_consume-Safe :
      (key : Bytes) (limit duration : ℤ) (w : World)
      → Safe w
      → Safe (try_consume p.env p.gcra key limit duration w).1
  unfolding try_consume
  try_consume-Safe key limit duration w h =
      if-both (λ (r : (Error ⊎ ℤ) × World). Safe r.1)
        (leb_ℤ limit (pos 0) || leb_ℤ duration (pos 0)) h
        (rw (wait_time-world (run p.env (script_on p.gcra key limit duration w.calls) w)) (
          run-IsSafe p laws queue msg_id t0.id cfg (script_on p.gcra key limit duration w.calls) w
            (λ db. on_key-keeps key (p.gcra limit duration w.calls (db.strings key)) db) h))

  deferred-IsGood :
      (c : ConsumeContext) (r : Option Error × World)
      → IsContext c
      → Safe r.1
      → IsGood (deferred p c r)
  unfolding IsGood
  deferred-IsGood c (some e, w) ctx safe = (ctx, safe, inl (ground arith))
  deferred-IsGood c (none, w) ctx safe = (ctx, safe, inr (inl refl))

  limited-IsGood :
      (n : Next) (c : ConsumeContext) (r : (Error ⊎ ℤ) × World)
      → ((c : ConsumeContext) (w : World) → IsFresh c → Safe w → IsGood (n c w))
      → IsFresh c
      → Safe r.1
      → IsGood (limited p n c r)
  limited-IsGood n c (inl e, w) good ctx safe = good c w ctx safe
  limited-IsGood n c (inr wait, w) good (m, q, same) safe =
      if-both IsGood (ltb_ℤ (pos 0) wait)
        (deferred-IsGood c _ (known c (m, q, same)) (
          rw m (
            defer_rate_limited_task-IsSafe p laws queue msg_id t0.id cfg c.task c.group _
              (now p.env w).1 (ap (λ (t : Task). t.id) same) safe)))
        (good c w (m, q, same) safe)

  rate_limit-KeepsGood : KeepsGood (rate_limit_middleware p)
  unfolding rate_limit_middleware
  rate_limit-KeepsGood n good c w ctx safe =
      if-both IsGood (leb_ℤ limit (pos 0) || leb_ℤ duration (pos 0)) (good c w ctx safe) (
        limited-IsGood n _ (try_consume p.env p.gcra (rate_limit c.queue group) limit duration w)
          good ctx (try_consume-Safe (rate_limit c.queue group) limit duration w safe))
    where
      limit : ℤ
      limit = (p.rate_limit c.queue).0

      duration : ℤ
      duration = (p.rate_limit c.queue).1

      group : Bytes
      group = group_of p c.task (p.rate_limit c.queue).2

  after_dead-IsGood :
      (err : Error) (c : ConsumeContext) (r : Option Error × World)
      → IsContext c
      → Safe r.1
      → IsGood (after_dead p err c r)
  unfolding IsGood
  after_dead-IsGood err c (some e, w) ctx safe = (ctx, safe, inl (ground arith))
  after_dead-IsGood err c (none, w) ctx safe = (ctx, safe, inl (ground arith))

  after_retry-IsGood :
      (err : Error) (c : ConsumeContext) (r : Option Error × World)
      → IsContext c
      → Safe r.1
      → IsGood (after_retry p err c r)
  unfolding IsGood
  after_retry-IsGood err c (some e, w) ctx safe = (ctx, safe, inl (ground arith))
  after_retry-IsGood err c (none, w) ctx safe = (ctx, safe, inl (ground arith))

  fail_task-IsGood :
      (err : Error) (c : ConsumeContext) (w : World)
      → IsContext c
      → Safe w
      → IsGood (fail_task p err c w)
  unfolding fail_task
  fail_task-IsGood err c w (m, q, i) safe =
      if-both IsGood (is_permanent p t err)
        (after_dead-IsGood err _ _ (m, q, named)
          (rw m (
            move_to_dlq-IsSafe p laws queue msg_id t0.id cfg dead (stream c.queue) c.group
              (p.dead_letter_policy.dlq_queue_name dead) w named safe)))
        (after_retry-IsGood err _ _ (m, q, i)
          (rw m (
            schedule_retry-IsSafe p laws queue msg_id t0.id cfg t (stream c.queue) c.group
              ((now p.env w).0 +ℤ p.retry_policy.next_backoff t) (now p.env w).1 i safe)))
    where
      t : Task
      t = record c.task { retry = add64 c.task.retry (pos 1); last_error = text err }

      dead : Task
      dead = p.dead_letter_policy.before_dead_letter t err

      named : dead.id ≡ t0.id
      named = (keeps.hook t err).0 ∙ i

  on_error-IsGood :
      (r : Execution)
      → IsGood r
      → IsGood (
          on_error
            (λ err c w. if is_handled err then (returned (some err), c, w) else fail_task p err c w)
            r)
  unfolding IsGood
  on_error-IsGood (panicked x, c, w) g = g
  on_error-IsGood (returned none, c, w) g = g
  on_error-IsGood (returned (some err), c, w) (ctx, safe, j) =
      if-both IsGood (is_handled err) (ctx, safe, j) (fail_task-IsGood err c w ctx safe)

  retry_and_dlq-KeepsGood : KeepsGood (retry_and_dlq_middleware p)
  unfolding retry_and_dlq_middleware
  retry_and_dlq-KeepsGood n good c w ctx safe = on_error-IsGood (n c w) (good c w ctx safe)

  abbrev AllGood : Next → Type 0
  AllGood n = (c : ConsumeContext) (w : World) → IsFresh c → Safe w → IsGood (n c w)

  -- An aborted context is justified, and any other runs the middleware.
  next-AllGood :
      (m : Next → Next) (ms : List (Next → Next)) → AllGood (m (next ms)) → AllGood (next (m ∷ ms))
  unfolding next IsGood
  next-AllGood m ms good c w ctx safe =
      if-split IsGood c.aborted (λ stopped. (known c ctx, safe, inr (inl stopped)))
        (λ going. good c w ctx safe)

  pub chain-AllGood : AllGood (next (middleware_chain p))
  unfolding middleware_chain
  chain-AllGood = next-AllGood _ _ (
      retry_and_dlq-KeepsGood _ (
        next-AllGood _ _ (
          unique_lock-KeepsGood _ (
            next-AllGood _ _ (
              rate_limit-KeepsGood _ (
                next-AllGood _ _
                  (recovery-KeepsGood _ (next-AllGood _ [] (call_handler-IsGood _)))))))))
