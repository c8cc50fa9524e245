-- ===== src/Worker/Options.antt =====
-- The options of a worker: internal/taskmq/worker/options_base.go, options_worker.go, options_cron.go,
-- options_scheduler.go, options_janitor.go and options_rate_limit.go, but for the components that an
-- application passes in itself. An option that returns an error is `none`.
pub mod Keeping
use taskmq.Prelude.{
  ℕ, ◌*◌, Bytes, codes, Bool, true, false, ◌||◌, ◌=b◌, List, [], ◌∷◌, if◌then◌else◌, Option, none,
  some,
}
use taskmq.Prelude.Int.{ℤ, pos, leb_ℤ}
use taskmq.Lifecycle.Config.{second}

abbrev pub seconds : ℕ → ℤ
seconds n = pos (n * second)

-- Durations are in nanoseconds.
pub record WorkerConfig : Type 0 where
  pub group : Bytes
  pub consumer : Bytes
  pub concurrency : ℤ
  pub sync_execution : Bool
  pub execution_pool_size : ℤ
  pub shutdown_timeout : ℤ
  pub healing_interval : ℤ
  pub lock_ttl : ℤ
  pub scan_batch_size : ℤ
  pub scan_max_count : ℤ
  pub poll_interval : ℤ
  pub janitor_interval : ℤ
  pub min_idle_time : ℤ
  pub cron_disabled : Bool
  pub scheduler_disabled : Bool
  pub janitor_disabled : Bool
  pub disable_retention : Bool

abbrev pub default_worker_config : WorkerConfig
default_worker_config = record {
  group = codes "taskmq-group";
  consumer = codes "taskmq-consumer-1";
  concurrency = pos 5;
  sync_execution = false;
  execution_pool_size = pos 0;
  shutdown_timeout = seconds 30;
  healing_interval = seconds 60;
  lock_ttl = seconds 50;
  scan_batch_size = pos 100;
  scan_max_count = pos 1000;
  poll_interval = pos (500 * 1000000);
  janitor_interval = seconds 3;
  min_idle_time = seconds 5;
  cron_disabled = false;
  scheduler_disabled = false;
  janitor_disabled = false;
  disable_retention = false;
}

abbrev pub SharedOption : Type 0
SharedOption = WorkerConfig → Option WorkerConfig

-- The check of a number or of a name, and the field that is set
abbrev pub if_positive : ℤ → WorkerConfig → Option WorkerConfig
if_positive n o = if leb_ℤ n (pos 0) then none else some o

abbrev pub if_named : Bytes → WorkerConfig → Option WorkerConfig
if_named name o = if name =b [] then none else some o

abbrev pub with_disable_retention : SharedOption
with_disable_retention o = some (record o { disable_retention = true })

abbrev pub with_disable_cron : SharedOption
with_disable_cron o = some (record o { cron_disabled = true })

abbrev pub with_disable_scheduler : SharedOption
with_disable_scheduler o = some (record o { scheduler_disabled = true })

abbrev pub with_disable_janitor : SharedOption
with_disable_janitor o = some (record o { janitor_disabled = true })

abbrev pub with_pure_consumer : SharedOption
with_pure_consumer o = some (record o {
  scheduler_disabled = true;
  janitor_disabled = true;
  cron_disabled = true;
  disable_retention = true;
})

abbrev pub with_shutdown_timeout : ℤ → SharedOption
with_shutdown_timeout d o = if_positive d (record o { shutdown_timeout = d })

abbrev pub with_group : Bytes → SharedOption
with_group group o = if_named group (record o { group = group })

abbrev pub with_consumer : Bytes → SharedOption
with_consumer consumer o = if_named consumer (record o { consumer = consumer })

abbrev pub with_concurrency : ℤ → SharedOption
with_concurrency n o = if_positive n (record o { concurrency = n })

abbrev pub with_cron_healing_interval : ℤ → SharedOption
with_cron_healing_interval d o = if_positive d (record o { healing_interval = d })

abbrev pub with_cron_healing_lock_ttl : ℤ → SharedOption
with_cron_healing_lock_ttl d o = if_positive d (record o { lock_ttl = d })

abbrev pub with_cron_healing_scan_batch_size : ℤ → SharedOption
with_cron_healing_scan_batch_size n o = if_positive n (record o { scan_batch_size = n })

abbrev pub with_cron_healing_scan_max_count : ℤ → SharedOption
with_cron_healing_scan_max_count n o = if_positive n (record o { scan_max_count = n })

abbrev pub with_scheduler_poll_interval : ℤ → SharedOption
with_scheduler_poll_interval d o = if_positive d (record o { poll_interval = d })

abbrev pub with_janitor_interval : ℤ → SharedOption
with_janitor_interval d o = if_positive d (record o { janitor_interval = d })

abbrev pub with_janitor_min_idle_time : ℤ → SharedOption
with_janitor_min_idle_time d o = if_positive d (record o { min_idle_time = d })

pub record WorkerPoolOptions : Type 0 where
  pub config : WorkerConfig
  pub rate_limit_max : ℤ
  pub rate_limit_duration : ℤ
  pub rate_limit_key_field : Bytes

abbrev pub default_worker_pool_options : WorkerPoolOptions
default_worker_pool_options = record {
  config = default_worker_config;
  rate_limit_max = pos 0;
  rate_limit_duration = pos 0;
  rate_limit_key_field = [];
}

abbrev pub PoolOption : Type 0
PoolOption = WorkerPoolOptions → Option WorkerPoolOptions

abbrev pub with_config : WorkerPoolOptions → Option WorkerConfig → Option WorkerPoolOptions
with_config o none = none
with_config o (some config) = some (record o { config = config })

-- `ApplyWorkerPool` of a shared option
abbrev pub apply_worker_pool : SharedOption → PoolOption
apply_worker_pool option o = with_config o (option o.config)

abbrev pub with_rate_limit : ℤ → ℤ → PoolOption
with_rate_limit max duration o =
    if leb_ℤ max (pos 0) || leb_ℤ duration (pos 0)
    then none
    else some (record o { rate_limit_max = max; rate_limit_duration = duration })

abbrev pub with_rate_limit_key_field : Bytes → PoolOption
with_rate_limit_key_field field o = some (record o { rate_limit_key_field = field })

-- The options in turn, up to the first error
abbrev pub applied {ℓ} : {A : Type ℓ} → (A → Option A) → Option A → Option A
applied f none = none
applied f (some a) = f a

unfoldable pub apply_all {ℓ} : {A : Type ℓ} → List (A → Option A) → Option A → Option A
apply_all [] o = o
apply_all (option ∷ rest) o = apply_all rest (applied option o)

-- `if condition { opts = append(opts, option) }`, of several
unfoldable pub chosen {ℓ} : {A : Type ℓ} → List (Bool × A) → List A
chosen [] = []
chosen ((b, option) ∷ rest) = let others = chosen rest in if b then option ∷ others else others
