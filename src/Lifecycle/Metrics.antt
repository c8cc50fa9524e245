-- ===== src/Lifecycle/Metrics.antt =====
-- The counters of internal/taskmq/lifecycle/lifecycle.go and the two checks that need no Redis.
-- A lifecycle is its configuration, its counters and what it sent to the optional sink.
use taskmq.Prelude.{
  zero, Bytes, ◌||◌, not, if◌then◌else◌, Option, none, some, List, [], ◌∷◌, ◌++◌, length,
}
use taskmq.Prelude.Int.{ℤ, pos, ltb_ℤ, leb_ℤ, ◌+ℤ◌, add64}
use taskmq.Errors.{Error, sentinel, wrap, err_payload_too_large, err_delay_too_far}
use taskmq.Lifecycle.Config.{Config, normalize}

-- The counters by name; `unknown` is any other name.
pub data Counter : Type 0 where
  enqueue_rejected delayed_rejected payload_rejected safe_trim_deleted : Counter
  dlq_evicted cancelled_delayed_purged idle_consumers_removed soft_limit_hits : Counter
  unknown : Bytes → Counter

-- int64 counters
pub record Metrics : Type 0 where
  pub enqueue_rejected_total : ℤ
  pub delayed_rejected_total : ℤ
  pub payload_rejected_total : ℤ
  pub safe_trim_deleted_total : ℤ
  pub dlq_evicted_total : ℤ
  pub cancelled_delayed_purged_total : ℤ
  pub idle_consumers_removed_total : ℤ
  pub soft_limit_hits_total : ℤ

abbrev pub zero_metrics : Metrics
zero_metrics = record {
  enqueue_rejected_total = pos 0;
  delayed_rejected_total = pos 0;
  payload_rejected_total = pos 0;
  safe_trim_deleted_total = pos 0;
  dlq_evicted_total = pos 0;
  cancelled_delayed_purged_total = pos 0;
  idle_consumers_removed_total = pos 0;
  soft_limit_hits_total = pos 0;
}

-- `sink` is `none` without a sink, and else the calls of its `Inc` so far.
pub record Lifecycle : Type 0 where
  pub cfg : Config
  pub metrics : Metrics
  pub sink : Option (List (Counter × ℤ))

unfoldable pub new_lifecycle : Config → Lifecycle
new_lifecycle c = record { cfg = normalize c; metrics = zero_metrics; sink = none }

-- `counter.Add(delta)`; an unknown name has no counter.
unfoldable pub bump : Counter → ℤ → Metrics → Metrics
bump enqueue_rejected d m = record m { enqueue_rejected_total = add64 m.enqueue_rejected_total d }
bump delayed_rejected d m = record m { delayed_rejected_total = add64 m.delayed_rejected_total d }
bump payload_rejected d m = record m { payload_rejected_total = add64 m.payload_rejected_total d }
bump safe_trim_deleted d m = record m {
  safe_trim_deleted_total = add64 m.safe_trim_deleted_total d;
}
bump dlq_evicted d m = record m { dlq_evicted_total = add64 m.dlq_evicted_total d }
bump cancelled_delayed_purged d m = record m {
  cancelled_delayed_purged_total = add64 m.cancelled_delayed_purged_total d;
}
bump idle_consumers_removed d m = record m {
  idle_consumers_removed_total = add64 m.idle_consumers_removed_total d;
}
bump soft_limit_hits d m = record m { soft_limit_hits_total = add64 m.soft_limit_hits_total d }
bump (unknown _) d m = m

-- `Snapshot`, as a lookup by name.
unfoldable pub snapshot : Metrics → Counter → ℤ
snapshot m enqueue_rejected = m.enqueue_rejected_total
snapshot m delayed_rejected = m.delayed_rejected_total
snapshot m payload_rejected = m.payload_rejected_total
snapshot m safe_trim_deleted = m.safe_trim_deleted_total
snapshot m dlq_evicted = m.dlq_evicted_total
snapshot m cancelled_delayed_purged = m.cancelled_delayed_purged_total
snapshot m idle_consumers_removed = m.idle_consumers_removed_total
snapshot m soft_limit_hits = m.soft_limit_hits_total
snapshot m (unknown _) = pos 0

abbrev push {ℓ} : {A : Type ℓ} → A → Option (List A) → Option (List A)
push a none = none
push a (some xs) = some (xs ++ (a ∷ []))

unfoldable pub observe : Counter → ℤ → Lifecycle → Lifecycle
unfolding bump
observe name d l = record l { metrics = bump name d l.metrics; sink = push (name, d) l.sink }

-- `IncMetric` of a lifecycle that may be nil; a delta of 0 is not reported.
unfoldable pub inc_metric : Counter → ℤ → Option Lifecycle → Option Lifecycle
unfolding observe
inc_metric name d none = none
inc_metric name (pos zero) (some l) = some l
inc_metric name d (some l) = some (observe name d l)

-- The text of a failed check beyond its sentinel is left out of the model.
unfoldable pub check_payload_size : Bytes → Option Lifecycle → Option Error × Option Lifecycle
unfolding observe
check_payload_size payload none = (none, none)
check_payload_size payload (some l) =
    if leb_ℤ l.cfg.max_payload_bytes (pos 0)
      || not (ltb_ℤ l.cfg.max_payload_bytes (pos (length payload)))
    then (none, some l)
    else (
      some (wrap [] (sentinel err_payload_too_large) []),
      some (observe payload_rejected (pos 1) l),
    )

-- Times are in nanoseconds; `now` is the clock's reading.
unfoldable pub check_delayed_max_delay : ℤ → ℤ → Option Lifecycle → Option Error × Option Lifecycle
unfolding observe
check_delayed_max_delay now run_at none = (none, none)
check_delayed_max_delay now run_at (some l) =
    if leb_ℤ l.cfg.delayed_max_delay (pos 0) || not (ltb_ℤ (now +ℤ l.cfg.delayed_max_delay) run_at)
    then (none, some l)
    else (some (wrap [] (sentinel err_delay_too_far) []), some (observe delayed_rejected (pos 1) l))
