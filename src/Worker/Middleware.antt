-- ===== src/Worker/Middleware.antt =====
-- internal/taskmq/worker/middleware.go, and the chain of base_worker.go.
use taskmq.Prelude.{
  min, ℕ, zero, suc, Bytes, codes, Bool, not, ◌&&◌, ◌||◌, ◌⊎◌, inl, inr, List, [], ◌∷◌, ◌++◌, ◌=b◌,
  if◌then◌else◌, Option, none, some,
}
use taskmq.Prelude.Int.{ℤ, pos, ltb_ℤ, leb_ℤ, ◌+ℤ◌, add64, scale, wrap64}
use taskmq.Errors.{
  Error, message, wrap, sentinel, is, is_skip_retry, is_handled, handled, err_no_handler, text,
}
use taskmq.Task.{Task, effective_timeout, unique_until_start, unique_until_success}
use taskmq.Keys.{stream, rate_limit}
use taskmq.World.{World, now}
use taskmq.Broker.Transitions.{
  renew_lock, release_unique_lock, move_to_dlq, schedule_retry, defer_rate_limited_task,
}
use taskmq.RateLimit.{try_consume}
use taskmq.Worker.{
  returned, panicked, Handler, ConsumeContext, Worker, Execution, Next, next, abort,
}

-- What follows a function that returned an error; a panic goes on unwinding.
abbrev pub on_error : (Error → ConsumeContext → World → Execution) → Execution → Execution
on_error f (returned (some err), c, w) = f err c w
on_error f (o, c, w) = (o, c, w)

abbrev pub recovered : Execution → Execution
recovered (panicked text, c, w) =
    (returned (some (message (codes "task panicked: " ++ text))), c, w)
recovered (o, c, w) = (o, c, w)

unfoldable pub recovery_middleware : Next → Next
recovery_middleware next c w = recovered (next c w)

module _ (p : Worker) where
  -- The group of a task: its own, the extractor's, or a field of its payload.
  abbrev or_empty : Option Bytes → Bytes
  or_empty none = []
  or_empty (some b) = b

  unfoldable pub group_of : Task → Bytes → Bytes
  group_of t key_field =
      if not (t.group_key =b []) then t.group_key else elim p.group_key_extractor [
        | some extract ↦ extract t.payload
        | none ↦ if not (key_field =b []) then or_empty (p.inspect t.payload key_field) else []
      ]

  -- A deferred task aborts the chain.
  abbrev pub deferred : ConsumeContext → Option Error × World → Execution
  deferred c (some e, w) = (returned (some e), c, w)
  deferred c (none, w) = (returned none, abort c, w)

  abbrev pub limited : Next → ConsumeContext → (Error ⊎ ℤ) × World → Execution
  limited next c (inl e, w) = next c w
  limited next c (inr wait, w) =
      if ltb_ℤ (pos 0) wait
      then (let at = (now p.env w).0 +ℤ wait in
          deferred c
            (defer_rate_limited_task p.env p.codec c.message_id c.task c.group at (now p.env w).1))
      else next c w

  unfoldable pub rate_limit_middleware : Next → Next
  rate_limit_middleware next c w =
      let (max, duration, key_field) = p.rate_limit c.queue in
      if leb_ℤ max (pos 0) || leb_ℤ duration (pos 0)
      then next c w
      else (let c' = record c { rate_limit_group = group_of c.task key_field } in
          limited next c' (
            try_consume p.env p.gcra (rate_limit c.queue (group_of c.task key_field)) max duration
              w))

  -- The stream key is the one of the context's queue.
  abbrev pub after_dead : Error → ConsumeContext → Option Error × World → Execution
  after_dead err c (some e, w) = (returned (some (wrap (codes "move to dlq: ") e [])), c, w)
  after_dead err c (none, w) = (returned (some (handled (some err))), c, w)

  abbrev pub after_retry : Error → ConsumeContext → Option Error × World → Execution
  after_retry err c (some e, w) = (returned (some (wrap (codes "schedule retry: ") e [])), c, w)
  after_retry err c (none, w) = (returned (some (handled (some err))), c, w)

  -- No retry for an unknown handler, a permanent error, or by the policy.
  unfoldable pub is_permanent : Task → Error → Bool
  is_permanent t err =
      is err err_no_handler || (is_skip_retry err || not (p.retry_policy.should_retry t err))

  unfoldable pub fail_task : Error → ConsumeContext → World → Execution
  fail_task err c w =
      let t = record c.task { retry = add64 c.task.retry (pos 1); last_error = text err } in
      let dead = p.dead_letter_policy.before_dead_letter t err in
      let at = (now p.env w).0 +ℤ p.retry_policy.next_backoff t in
      if is_permanent t err
      then after_dead err (record c { task = dead })
          (move_to_dlq p.env p.codec dead (stream c.queue) c.message_id c.group
            (p.dead_letter_policy.dlq_queue_name dead) w)
      else after_retry err (record c { task = t })
          (schedule_retry p.env p.codec t (stream c.queue) c.message_id c.group at (now p.env w).1)

  unfoldable pub retry_and_dlq_middleware : Next → Next
  retry_and_dlq_middleware next c w =
      on_error
        (λ err c w. if is_handled err then (returned (some err), c, w) else fail_task err c w)
        (next c w)

  -- The attempts of one tick, until one succeeds.
  unfoldable pub renew_attempts : ℕ → Task → ℤ → World → World
  renew_attempts zero t ttl w = w
  renew_attempts (suc n) t ttl w =
      let r = renew_lock p.env t ttl w in
      let again = renew_attempts n t ttl r.1 in elim r.0 [ none ↦ r.1 | some e ↦ again ]

  unfoldable pub watchdog : ℕ → Task → ℤ → World → World
  watchdog zero t ttl w = w
  watchdog (suc n) t ttl w = watchdog n t ttl (renew_attempts (min 3 (p.attempts w.calls)) t ttl w)

  unfoldable pub lock_ttl : Task → ℤ
  lock_ttl t =
      let ttl = wrap64 (scale t.unique_ttl_ms 1000000) in
      if leb_ℤ ttl (pos 0) then pos 3600000000000 else ttl

  abbrev pub equal_scope : ℤ → ℤ → Bool
  equal_scope a b = leb_ℤ a b && leb_ℤ b a

  -- Until success: the lock is free while the task waits for its retry.
  abbrev pub released_on_error : Execution → Execution
  released_on_error (returned (some err), c, w) = (
    returned (some err),
    c,
    if equal_scope c.task.unique_scope unique_until_success
        then (release_unique_lock p.env c.task w).1
        else w,
  )
  released_on_error (o, c, w) = (o, c, w)

  -- The ticks fall before and after the calls of the next handler.
  abbrev pub watched : ℤ → Execution → Execution
  watched ttl (o, c, w) = (o, c, watchdog (p.ticks w.calls) c.task ttl w)

  unfoldable pub unique_lock_watchdog_middleware : Next → Next
  unique_lock_watchdog_middleware next c w =
      if c.task.unique_key =b []
      then next c w
      else if equal_scope c.task.unique_scope unique_until_start
      then next c (release_unique_lock p.env c.task w).1
      else released_on_error (
          watched (lock_ttl c.task)
            (next c (watchdog (p.ticks w.calls) c.task (lock_ttl c.task) w)))

  abbrev pub handle : Option Handler → Next
  handle none c w =
      (returned (some (wrap [] (sentinel err_no_handler) (codes ": " ++ c.task.name))), c, w)
  handle (some h) c w =
      let r = h (effective_timeout (some c.task) (now p.env w).0) c.task in
      (r.0, record c { task = r.1 }, (now p.env w).1)

  -- The last of the chain, which calls the task's handler.
  unfoldable pub call_handler : Next → Next
  call_handler next c w = handle (p.handlers c.task.name) c w

  unfoldable pub middleware_chain : List (Next → Next)
  middleware_chain =
      retry_and_dlq_middleware
      ∷ (unique_lock_watchdog_middleware
          ∷ (rate_limit_middleware ∷ (recovery_middleware ∷ (call_handler ∷ []))))
