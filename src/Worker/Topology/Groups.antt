-- ===== src/Worker/Topology/Groups.antt =====
-- The consumer group of each worker of internal/taskmq/worker/topology.go.
use taskmq.Prelude.{
  ◌≡◌, refl, ◌∙◌, ap, Bytes, codes, true, false, ◌&&◌, ◌=b◌, List, [], ◌∷◌, ◌++◌, map, if-split,
  some, All, arith,
}
use taskmq.Prelude.Int.{ℤ, pos, negsuc, ltb_ℤ, leb_ℤ}
use taskmq.Worker.Options.{
  WorkerConfig, SharedOption, WorkerPoolOptions, default_worker_config, default_worker_pool_options,
  apply_worker_pool, apply_all, chosen, with_config, with_group, with_consumer, with_concurrency,
  if_positive, with_rate_limit, with_disable_scheduler, with_disable_janitor,
  with_disable_retention, with_disable_cron,
}
use taskmq.Worker.Topology.{
  QueueConfig, TaskMqConfig, Worker, worker_pool, priority_worker, build_common_options,
  common_choices, queue_choices, queue_group, queue_consumer, queue_concurrency,
  queue_worker_options, pool_worker, pool_of_priorities, or_name, priority_concurrency,
  total_concurrency, made_pool, made_priority_worker, known_strategy, queue_priority,
}
use taskmq.Worker.Options.Keeping.{Keeps, apply_all-sets, chosen-Keeps}

-- The group of a configuration
abbrev group_of : WorkerConfig → Bytes
group_of o = o.group

abbrev pool_group_of : WorkerPoolOptions → Bytes
pool_group_of o = o.config.group

not_leb : (n : ℤ) → ltb_ℤ (pos 0) n ≡ true → leb_ℤ n (pos 0) ≡ false
not_leb (pos n) h = ground arith
not_leb (negsuc n) h = ground arith

lt_of_not_leb : (n : ℤ) → leb_ℤ n (pos 0) ≡ false → ltb_ℤ (pos 0) n ≡ true
lt_of_not_leb (pos n) h = ground arith
lt_of_not_leb (negsuc n) h = absurd (ground arith)

positive-Keeps :
    (n : ℤ) (set : WorkerConfig → WorkerConfig)
    → ((o : WorkerConfig) → group_of (set o) ≡ group_of o)
    → ltb_ℤ (pos 0) n ≡ true
    → Keeps group_of (λ o. if_positive n (set o))
positive-Keeps n set same positive o = (set o, rw (not_leb n positive) refl, same o)

build_common_options-Keeps : (cfg : TaskMqConfig) → All (Keeps group_of) (build_common_options cfg)
unfolding build_common_options
build_common_options-Keeps cfg = chosen-Keeps group_of (common_choices cfg) (
  λ _ o. (
    record o {
      scheduler_disabled = true;
      janitor_disabled = true;
      cron_disabled = true;
      disable_retention = true;
    },
    refl,
    refl,
  ),
  (
    positive-Keeps cfg.cron_healing_interval
        (λ o. record o { healing_interval = cfg.cron_healing_interval }) (λ o. refl),
    (
      positive-Keeps cfg.cron_healing_lock_ttl
          (λ o. record o { lock_ttl = cfg.cron_healing_lock_ttl }) (λ o. refl),
      (
        positive-Keeps cfg.cron_healing_scan_batch_size
            (λ o. record o { scan_batch_size = cfg.cron_healing_scan_batch_size }) (λ o. refl),
        (
          positive-Keeps cfg.cron_healing_scan_max_count
              (λ o. record o { scan_max_count = cfg.cron_healing_scan_max_count }) (λ o. refl),
          (
            positive-Keeps cfg.scheduler_poll_interval
                (λ o. record o { poll_interval = cfg.scheduler_poll_interval }) (λ o. refl),
            (
              positive-Keeps cfg.janitor_interval
                  (λ o. record o { janitor_interval = cfg.janitor_interval }) (λ o. refl),
              (
                positive-Keeps cfg.janitor_min_idle_time
                    (λ o. record o { min_idle_time = cfg.janitor_min_idle_time }) (λ o. refl),
                (
                  positive-Keeps cfg.shutdown_timeout
                      (λ o. record o { shutdown_timeout = cfg.shutdown_timeout }) (λ o. refl),
                  tt,
                ),
              ),
            ),
          ),
        ),
      ),
    ),
  ),
)

lifted-Keeps : (f : SharedOption) → Keeps group_of f → Keeps pool_group_of (apply_worker_pool f)
lifted-Keeps f keep o =
    let (config, e, same) = keep o.config in
    (record o { config = config }, ap (with_config o) e, same)

map-Keeps :
    (fs : List SharedOption)
    → All (Keeps group_of) fs
    → All (Keeps pool_group_of) (map apply_worker_pool fs)
map-Keeps [] keep = tt
map-Keeps (f ∷ fs) keep = (lifted-Keeps f keep.0, map-Keeps fs keep.1)

named-Keeps : (name : Bytes) → (name =b []) ≡ false → Keeps group_of (with_consumer name)
named-Keeps name named o = (record o { consumer = name }, rw named refl, refl)

-- A name with a default that is not empty is not empty.
or_name_named :
    (name default : Bytes) → (default =b []) ≡ false → (or_name name default =b []) ≡ false
or_name_named name default named =
    if-split (λ (n : Bytes). (n =b []) ≡ false) (name =b []) (λ _. named) (λ given. given)

queue_group_named : (q : QueueConfig) → (queue_group q =b []) ≡ false
queue_group_named q = or_name_named q.group (codes "taskmq-group-" ++ q.name) (unfold ◌=b◌ in refl)

queue_consumer_named : (q : QueueConfig) → (queue_consumer q =b []) ≡ false
queue_consumer_named q =
    or_name_named q.consumer (codes "taskmq-consumer-" ++ (q.name ++ codes "-1"))
      (unfold ◌=b◌ in refl)

queue_concurrency_positive : (q : QueueConfig) → ltb_ℤ (pos 0) (queue_concurrency q) ≡ true
queue_concurrency_positive q =
    if-split (λ n. ltb_ℤ (pos 0) n ≡ true) (ltb_ℤ (pos 0) q.concurrency) (λ given. given)
      (λ _. refl)

rate_limit-Keeps :
    (max duration : ℤ)
    → (ltb_ℤ (pos 0) max && ltb_ℤ (pos 0) duration) ≡ true
    → Keeps pool_group_of (with_rate_limit max duration)
rate_limit-Keeps max duration positive o = (
  record o { rate_limit_max = max; rate_limit_duration = duration },
  rw (not_leb max (ground arith), not_leb duration (ground arith)) refl,
  refl,
)

queue_choices-Keeps :
    (q : QueueConfig) → All (λ c. c.0 ≡ true → Keeps pool_group_of c.1) (queue_choices q)
queue_choices-Keeps q = (
  rate_limit-Keeps q.rate_limit_max q.rate_limit_duration,
  (
    λ _ o. (record o { rate_limit_key_field = q.rate_limit_key_field }, refl, refl),
    (
      λ _.
          lifted-Keeps with_disable_scheduler
            (λ o. (record o { scheduler_disabled = true }, refl, refl)),
      (
        λ _.
            lifted-Keeps with_disable_janitor
              (λ o. (record o { janitor_disabled = true }, refl, refl)),
        (
          λ _.
              lifted-Keeps with_disable_retention
                (λ o. (record o { disable_retention = true }, refl, refl)),
          (
            λ _.
                lifted-Keeps with_disable_cron
                  (λ o. (record o { cron_disabled = true }, refl, refl)),
            tt,
          ),
        ),
      ),
    ),
  ),
)

-- A worker's group: NewPriorityWorker gets one for all its queues.
abbrev pub group : Worker → Bytes
group (worker_pool queue o) = o.config.group
group (priority_worker queues strategy o) = o.group

priority_concurrency_positive :
    (qs : List QueueConfig) → ltb_ℤ (pos 0) (priority_concurrency qs) ≡ true
priority_concurrency_positive qs =
    if-split (λ n. ltb_ℤ (pos 0) n ≡ true) (leb_ℤ (total_concurrency qs (pos 0)) (pos 0))
      (λ _. refl) (λ given. lt_of_not_leb (total_concurrency qs (pos 0)) given)

-- The pool of a queue is always made, and consumes in the queue's group.
pub pool_worker-group :
    (cfg : TaskMqConfig) (q : QueueConfig)
    → (o : WorkerPoolOptions) × (pool_worker cfg q ≡ some (worker_pool q.name o))
      × (o.config.group ≡ queue_group q)
unfolding queue_worker_options apply_all
pool_worker-group cfg q =
    let (o, e, same) =
      apply_all-sets pool_group_of (map apply_worker_pool (build_common_options cfg))
        (apply_worker_pool (with_group (queue_group q)))
        (apply_worker_pool (with_consumer (queue_consumer q))
          ∷ apply_worker_pool (with_concurrency (queue_concurrency q))
          ∷ chosen (queue_choices q))
        (queue_group q) (map-Keeps (build_common_options cfg) (build_common_options-Keeps cfg))
        (λ o. (
          record o { config = record o.config { group = queue_group q } },
          rw (queue_group_named q) refl,
          refl,
        ))
        (
          lifted-Keeps (with_consumer (queue_consumer q))
              (named-Keeps (queue_consumer q) (queue_consumer_named q)),
          (
            lifted-Keeps (with_concurrency (queue_concurrency q)) (
                positive-Keeps (queue_concurrency q)
                  (λ o. record o { concurrency = queue_concurrency q }) (λ o. refl)
                  (queue_concurrency_positive q)),
            chosen-Keeps pool_group_of (queue_choices q) (queue_choices-Keeps q),
          ),
        )
        default_worker_pool_options in
    (o, ap (made_pool q.name) e, same)

-- So is the priority worker where the strategy is known and there are queues.
pub pool_of_priorities-group :
    (cfg : TaskMqConfig) (q : QueueConfig) (qs : List QueueConfig)
    → known_strategy cfg.priority_strategy ≡ true
    → (o : WorkerConfig) × (pool_of_priorities cfg (q ∷ qs)
        ≡ some (
            priority_worker
              (map queue_priority (q ∷ qs))
              (or_name cfg.priority_strategy (codes "weighted"))
              o))
      × (o.group ≡ codes "taskmq-priority-group")
pool_of_priorities-group cfg q qs known =
    let n = priority_concurrency (q ∷ qs) in
    let (o, e, same) =
      apply_all-sets group_of (build_common_options cfg)
        (with_group (codes "taskmq-priority-group"))
        (with_consumer (codes "taskmq-priority-consumer-1") ∷ with_concurrency n ∷ [])
        (codes "taskmq-priority-group") (build_common_options-Keeps cfg)
        (λ o. (record o { group = codes "taskmq-priority-group" }, (unfold ◌=b◌ in refl), refl))
        (
          named-Keeps (codes "taskmq-priority-consumer-1") (unfold ◌=b◌ in refl),
          (
            positive-Keeps n (λ o. record o { concurrency = n }) (λ o. refl)
                (priority_concurrency_positive (q ∷ qs)),
            tt,
          ),
        )
        default_worker_config in
    (
      o,
      ap (made_priority_worker (map queue_priority (q ∷ qs)) cfg.priority_strategy) e
          ∙ rw known refl,
      same,
    )
