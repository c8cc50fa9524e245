-- ===== src/Worker/Topology.antt =====
-- internal/taskmq/worker/topology.go, with `NewWorkerPool` and `NewPriorityWorker`: which workers and
-- which background runners a configuration gives.
pub mod Groups
pub mod Building
pub mod Serving
pub mod Roles
use taskmq.Prelude.{
  ℕ, ◌+◌, ◌-◌, Bytes, codes, Bool, true, false, not, ◌&&◌, ◌||◌, ◌=b◌, ◌==◌, List, [], ◌∷◌, ◌++◌,
  map, length, leb, if◌then◌else◌, Option, none, some,
}
use taskmq.Prelude.Int.{ℤ, pos, ltb_ℤ, leb_ℤ, ◌+ℤ◌, add64}
use taskmq.Lifecycle.Config.{Config, stream_limits}
use taskmq.Worker.Queues.{QueuePriority}
use taskmq.Worker.Options
use taskmq.Worker.Options.{
  WorkerConfig, SharedOption, WorkerPoolOptions, PoolOption, default_worker_config,
  default_worker_pool_options, apply_worker_pool, apply_all, chosen, with_pure_consumer, with_group,
  with_consumer, with_concurrency, with_rate_limit, with_rate_limit_key_field,
  with_disable_scheduler, with_disable_janitor, with_disable_retention, with_disable_cron,
  with_cron_healing_interval, with_cron_healing_lock_ttl, with_cron_healing_scan_batch_size,
  with_cron_healing_scan_max_count, with_scheduler_poll_interval, with_janitor_interval,
  with_janitor_min_idle_time, with_shutdown_timeout,
}
use taskmq.Runner.Daemons.{
  QueueDaemonConfig, DaemonSet, Daemon, PelJanitor, cron_manager, delayed_scheduler, pel_janitor,
  retention_janitor, is_nil, build_queue_daemons,
}

-- `QueueConfig` and the used part of `TaskMQConfig` of internal/config/config.go
pub record QueueConfig : Type 0 where
  pub name : Bytes
  pub concurrency : ℤ
  pub group : Bytes
  pub consumer : Bytes
  pub priority : ℤ
  pub rate_limit_max : ℤ
  pub rate_limit_duration : ℤ
  pub rate_limit_key_field : Bytes
  pub disable_scheduler : Bool
  pub disable_janitor : Bool
  pub disable_retention : Bool
  pub disable_cron : Bool

pub record TaskMqConfig : Type 0 where
  pub role : Bytes
  pub cron_healing_interval : ℤ
  pub cron_healing_lock_ttl : ℤ
  pub cron_healing_scan_batch_size : ℤ
  pub cron_healing_scan_max_count : ℤ
  pub scheduler_poll_interval : ℤ
  pub janitor_interval : ℤ
  pub janitor_min_idle_time : ℤ
  pub shutdown_timeout : ℤ
  pub priority_queues_enabled : Bool
  pub priority_strategy : Bytes
  pub queues : List QueueConfig

abbrev pub default_queue : QueueConfig
default_queue = record {
  name = codes "default";
  concurrency = pos 5;
  group = [];
  consumer = [];
  priority = pos 0;
  rate_limit_max = pos 0;
  rate_limit_duration = pos 0;
  rate_limit_key_field = [];
  disable_scheduler = false;
  disable_janitor = false;
  disable_retention = false;
  disable_cron = false;
}

-- `if len(queues) == 0 { queues = ... }`
abbrev pub configured : List QueueConfig → List QueueConfig
configured [] = default_queue ∷ []
configured (q ∷ qs) = q ∷ qs

-- `strings.ToLower(strings.TrimSpace(role))`, of ASCII
abbrev pub lower : ℕ → ℕ
lower c = if leb b'A' c && leb c b'Z' then c + 32 else c

abbrev pub is_space : ℕ → Bool
is_space c = (c == 32) || (leb 9 c && leb c 13)

unfoldable pub trim_left : Bytes → Bytes
trim_left [] = []
trim_left (c ∷ s) = let rest = trim_left s in if is_space c then rest else c ∷ s

unfoldable pub trim_right : Bytes → Bytes
trim_right [] = []
trim_right (c ∷ s) = let rest = trim_right s in if is_space c && (rest =b []) then [] else c ∷ rest

unfoldable pub normal_role : Bytes → Bytes
normal_role role = map lower (trim_left (trim_right role))

abbrev pub common_choices : TaskMqConfig → List (Bool × SharedOption)
common_choices cfg =
    (normal_role cfg.role =b codes "worker", with_pure_consumer)
    ∷ (
      ltb_ℤ (pos 0) cfg.cron_healing_interval,
      with_cron_healing_interval cfg.cron_healing_interval,
    )
    ∷ (
      ltb_ℤ (pos 0) cfg.cron_healing_lock_ttl,
      with_cron_healing_lock_ttl cfg.cron_healing_lock_ttl,
    )
    ∷ (
      ltb_ℤ (pos 0) cfg.cron_healing_scan_batch_size,
      with_cron_healing_scan_batch_size cfg.cron_healing_scan_batch_size,
    )
    ∷ (
      ltb_ℤ (pos 0) cfg.cron_healing_scan_max_count,
      with_cron_healing_scan_max_count cfg.cron_healing_scan_max_count,
    )
    ∷ (
      ltb_ℤ (pos 0) cfg.scheduler_poll_interval,
      with_scheduler_poll_interval cfg.scheduler_poll_interval,
    )
    ∷ (ltb_ℤ (pos 0) cfg.janitor_interval, with_janitor_interval cfg.janitor_interval)
    ∷ (
      ltb_ℤ (pos 0) cfg.janitor_min_idle_time,
      with_janitor_min_idle_time cfg.janitor_min_idle_time,
    )
    ∷ (ltb_ℤ (pos 0) cfg.shutdown_timeout, with_shutdown_timeout cfg.shutdown_timeout)
    ∷ []

-- The codec, the lifecycle and the context, which are not nil, are parts of no option here.
unfoldable pub build_common_options : TaskMqConfig → List SharedOption
build_common_options cfg = chosen (common_choices cfg)

abbrev pub or_name : Bytes → Bytes → Bytes
or_name name default = if name =b [] then default else name

abbrev pub queue_choices : QueueConfig → List (Bool × PoolOption)
queue_choices q =
    (
      ltb_ℤ (pos 0) q.rate_limit_max && ltb_ℤ (pos 0) q.rate_limit_duration,
      with_rate_limit q.rate_limit_max q.rate_limit_duration,
    )
    ∷ (not (q.rate_limit_key_field =b []), with_rate_limit_key_field q.rate_limit_key_field)
    ∷ (q.disable_scheduler, apply_worker_pool with_disable_scheduler)
    ∷ (q.disable_janitor, apply_worker_pool with_disable_janitor)
    ∷ (q.disable_retention, apply_worker_pool with_disable_retention)
    ∷ (q.disable_cron, apply_worker_pool with_disable_cron)
    ∷ []

abbrev pub queue_group : QueueConfig → Bytes
queue_group q = or_name q.group (codes "taskmq-group-" ++ q.name)

abbrev pub queue_consumer : QueueConfig → Bytes
queue_consumer q = or_name q.consumer (codes "taskmq-consumer-" ++ (q.name ++ codes "-1"))

abbrev pub queue_concurrency : QueueConfig → ℤ
queue_concurrency q = if ltb_ℤ (pos 0) q.concurrency then q.concurrency else pos 5

unfoldable pub queue_worker_options : QueueConfig → List PoolOption
queue_worker_options q =
    apply_worker_pool (with_group (queue_group q))
    ∷ apply_worker_pool (with_consumer (queue_consumer q))
    ∷ apply_worker_pool (with_concurrency (queue_concurrency q))
    ∷ chosen (queue_choices q)

-- A worker: a pool of one queue, or a priority worker of several with its strategy.
pub data Worker : Type 0 where
  worker_pool : Bytes → WorkerPoolOptions → Worker
  priority_worker : List QueuePriority → Bytes → WorkerConfig → Worker

-- `NewWorkerPool`; an error of an option is a panic, which is `none`.
abbrev pub made_pool : Bytes → Option WorkerPoolOptions → Option Worker
made_pool queue none = none
made_pool queue (some o) = some (worker_pool queue o)

abbrev pub new_worker_pool : Bytes → List PoolOption → Option Worker
new_worker_pool queue options =
    made_pool queue (apply_all options (some default_worker_pool_options))

abbrev pub pool_worker : TaskMqConfig → QueueConfig → Option Worker
pool_worker cfg q =
    new_worker_pool q.name
      (map apply_worker_pool (build_common_options cfg) ++ queue_worker_options q)

abbrev pub known_strategy : Bytes → Bool
known_strategy s = (s =b codes "strict") || ((s =b codes "weighted") || (s =b []))

-- `NewPriorityWorker` with the strategy's check and default, and no queue an error
abbrev pub is_empty {ℓ} : {A : Type ℓ} → List A → Bool
is_empty [] = true
is_empty (_ ∷ _) = false

abbrev pub made_priority_worker : List QueuePriority → Bytes → Option WorkerConfig → Option Worker
made_priority_worker queues strategy none = none
made_priority_worker queues strategy (some o) =
    if not (known_strategy strategy) || is_empty queues
    then none
    else some (priority_worker queues (or_name strategy (codes "weighted")) o)

abbrev pub new_priority_worker : List QueuePriority → Bytes → List SharedOption → Option Worker
new_priority_worker queues strategy options =
    made_priority_worker queues strategy (apply_all options (some default_worker_config))

abbrev pub is_prioritized : TaskMqConfig → QueueConfig → Bool
is_prioritized cfg q = cfg.priority_queues_enabled && ltb_ℤ (pos 0) q.priority

unfoldable pub priority_queues : TaskMqConfig → List QueueConfig → List QueueConfig
priority_queues cfg [] = []
priority_queues cfg (q ∷ qs) =
    let rest = priority_queues cfg qs in if is_prioritized cfg q then q ∷ rest else rest

unfoldable pub normal_queues : TaskMqConfig → List QueueConfig → List QueueConfig
normal_queues cfg [] = []
normal_queues cfg (q ∷ qs) =
    let rest = normal_queues cfg qs in if is_prioritized cfg q then rest else q ∷ rest

abbrev pub queue_priority : QueueConfig → QueuePriority
queue_priority q = record {
  name = q.name;
  weight = q.priority;
  rate_limit_max = q.rate_limit_max;
  rate_limit_duration = q.rate_limit_duration;
  rate_limit_key_field = q.rate_limit_key_field;
}

-- `priorityConcurrency`, an int sum
unfoldable pub total_concurrency : List QueueConfig → ℤ → ℤ
total_concurrency [] n = n
total_concurrency (q ∷ qs) n = total_concurrency qs (add64 n q.concurrency)

abbrev pub priority_concurrency : List QueueConfig → ℤ
priority_concurrency qs =
    let n = total_concurrency qs (pos 0) in if leb_ℤ n (pos 0) then pos 5 else n

abbrev pub pool_of_priorities : TaskMqConfig → List QueueConfig → Option Worker
pool_of_priorities cfg qs = new_priority_worker (map queue_priority qs) cfg.priority_strategy (
    build_common_options cfg
    ++ (with_group (codes "taskmq-priority-group")
        ∷ with_consumer (codes "taskmq-priority-consumer-1")
        ∷ with_concurrency (priority_concurrency qs)
        ∷ []))

-- The map of the workers by queue name, the last set first
abbrev pub Workers : Type 0
Workers = List (Bytes × Worker)

unfoldable pub worker_of : Bytes → Workers → Option Worker
worker_of name [] = none
worker_of name ((n, w) ∷ rest) =
    let later = worker_of name rest in if n =b name then some w else later

unfoldable pub register : List QueueConfig → Worker → Workers → Workers
register [] w ws = ws
register (q ∷ qs) w ws = register qs w ((q.name, w) ∷ ws)

abbrev pub registered : List QueueConfig → Option Worker → Option Workers
registered qs none = none
registered qs (some w) = some (register qs w [])

-- Without queues with a priority there is no priority worker.
abbrev pub prioritized : TaskMqConfig → List QueueConfig → Option Workers
prioritized cfg [] = some []
prioritized cfg (q ∷ qs) = registered (q ∷ qs) (pool_of_priorities cfg (q ∷ qs))

abbrev pub with_worker : Bytes → Option Worker → Workers → Option Workers
with_worker name none ws = none
with_worker name (some w) ws = some ((name, w) ∷ ws)

unfoldable pub with_pools : TaskMqConfig → List QueueConfig → Option Workers → Option Workers
with_pools cfg qs none = none
with_pools cfg [] (some ws) = some ws
with_pools cfg (q ∷ qs) (some ws) = with_pools cfg qs (with_worker q.name (pool_worker cfg q) ws)

unfoldable pub build_worker_topology : TaskMqConfig → Option Workers
build_worker_topology cfg =
    let queues = configured cfg.queues in
    with_pools cfg (normal_queues cfg queues) (prioritized cfg (priority_queues cfg queues))

abbrev pub daemon_config : TaskMqConfig → QueueConfig → QueueDaemonConfig
daemon_config cfg q = record {
  queue = q.name;
  group = q.group;
  consumer = q.consumer;
  concurrency = q.concurrency;
  scheduler_interval = cfg.scheduler_poll_interval;
  janitor_interval = cfg.janitor_interval;
  janitor_min_idle = cfg.janitor_min_idle_time;
  cron_interval = cfg.cron_healing_interval;
  cron_lock_ttl = cfg.cron_healing_lock_ttl;
  disable_scheduler = q.disable_scheduler;
  disable_janitor = q.disable_janitor;
  disable_retention = q.disable_retention;
  disable_cron = q.disable_cron;
}

unfoldable pub queue_daemons :
    TaskMqConfig → Option Config → List QueueConfig → DaemonSet → DaemonSet
queue_daemons cfg lc [] ds = ds
queue_daemons cfg lc (q ∷ qs) ds =
    queue_daemons cfg lc qs (build_queue_daemons lc (daemon_config cfg q) ds)

unfoldable pub build_daemon_topology : TaskMqConfig → Config → DaemonSet
build_daemon_topology cfg lc = queue_daemons cfg (some lc) (configured cfg.queues) []
