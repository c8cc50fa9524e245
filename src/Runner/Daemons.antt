-- ===== src/Runner/Daemons.antt =====
-- Which background runners there are: `BuildQueueDaemons` of internal/taskmq/runner/daemon_set.go, with
-- the constructors of internal/taskmq/runner/factories.go.
use taskmq.Prelude.{
  ◌*◌, Bytes, codes, Bool, true, false, not, ◌||◌, ◌=b◌, List, [], ◌∷◌, ◌++◌, if◌then◌else◌, Option,
  none, some,
}
use taskmq.Prelude.Int.{ℤ, pos, leb_ℤ}
use taskmq.Lifecycle.Config.{Config, stream_limits, second}

-- What a PEL janitor is made with, and whether a processor is registered.
pub record PelJanitor : Type 0 where
  pub queue : Bytes
  pub group : Bytes
  pub consumer : Bytes
  pub concurrency : ℤ
  pub check_interval : ℤ
  pub min_idle_time : ℤ
  pub has_processor : Bool

pub data Daemon : Type 0 where
  -- queue, interval, lock TTL, batch and count of the scan
  cron_manager : Bytes → ℤ → ℤ → ℤ → ℤ → Daemon
  -- queue, whether it has a cron manager, interval, hard limit and MAXLEN
  delayed_scheduler : Bytes → Bool → ℤ → ℤ → ℤ → Daemon
  pel_janitor : PelJanitor → Daemon
  -- queue and group
  retention_janitor : Bytes → Bytes → Daemon

pub record QueueDaemonConfig : Type 0 where
  pub queue : Bytes
  pub group : Bytes
  pub consumer : Bytes
  pub concurrency : ℤ
  pub scheduler_interval : ℤ
  pub janitor_interval : ℤ
  pub janitor_min_idle : ℤ
  pub cron_interval : ℤ
  pub cron_lock_ttl : ℤ
  pub disable_scheduler : Bool
  pub disable_janitor : Bool
  pub disable_retention : Bool
  pub disable_cron : Bool

abbrev pub or_name : Bytes → Bytes → Bytes
or_name name default = if name =b [] then default else name

abbrev pub or_positive : ℤ → ℤ → ℤ
or_positive n default = if leb_ℤ n (pos 0) then default else n

abbrev pub with_defaults : QueueDaemonConfig → QueueDaemonConfig
with_defaults cfg = record cfg {
  group = or_name cfg.group (codes "taskmq-daemon-group");
  consumer = or_name cfg.consumer (codes "taskmq-daemon-consumer");
  concurrency = or_positive cfg.concurrency (pos 5);
  scheduler_interval = or_positive cfg.scheduler_interval (pos (500 * 1000000));
  janitor_interval = or_positive cfg.janitor_interval (pos (3 * second));
  janitor_min_idle = or_positive cfg.janitor_min_idle (pos (5 * second));
  cron_interval = or_positive cfg.cron_interval (pos (60 * second));
  cron_lock_ttl = or_positive cfg.cron_lock_ttl (pos (50 * second));
}

-- The runners by name, the last added first
abbrev pub DaemonSet : Type 0
DaemonSet = List (Bytes × Daemon)

-- `if !disabled { ds.Add(name, daemon) }`, of several
unfoldable pub add_enabled : List (Bool × (Bytes × Daemon)) → DaemonSet → DaemonSet
add_enabled [] ds = ds
add_enabled ((disabled, named) ∷ rest) ds = add_enabled rest (if disabled then ds else named ∷ ds)

-- `NewPELRecoveryJanitorWithCodec` sets no processor, and none is registered later.
abbrev pub queue_janitor : QueueDaemonConfig → PelJanitor
queue_janitor cfg = record {
  queue = cfg.queue;
  group = cfg.group;
  consumer = cfg.consumer;
  concurrency = cfg.concurrency;
  check_interval = cfg.janitor_interval;
  min_idle_time = cfg.janitor_min_idle;
  has_processor = false;
}

-- `none` is a nil lifecycle.
abbrev pub is_nil : Option Config → Bool
is_nil none = true
is_nil (some _) = false

abbrev pub runners : Option Config → QueueDaemonConfig → List (Bool × (Bytes × Daemon))
runners lc cfg =
    let (hard_limit, max_len) = stream_limits lc in
    (
      cfg.disable_cron,
      (
        cfg.queue ++ codes ":cron",
        cron_manager cfg.queue cfg.cron_interval cfg.cron_lock_ttl (pos 100) (pos 1000),
      ),
    )
    ∷ (
      cfg.disable_scheduler,
      (
        cfg.queue ++ codes ":scheduler",
        delayed_scheduler cfg.queue (not cfg.disable_cron) cfg.scheduler_interval hard_limit
            max_len,
      ),
    )
    ∷ (cfg.disable_janitor, (cfg.queue ++ codes ":janitor", pel_janitor (queue_janitor cfg)))
    ∷ (
      cfg.disable_retention || is_nil lc,
      (cfg.queue ++ codes ":retention", retention_janitor cfg.queue cfg.group),
    )
    ∷ []

unfoldable pub build_queue_daemons : Option Config → QueueDaemonConfig → DaemonSet → DaemonSet
build_queue_daemons lc cfg ds = add_enabled (runners lc (with_defaults cfg)) ds

-- The consumer group that a runner works on, where it has one
abbrev pub daemon_group : Daemon → Option Bytes
daemon_group (cron_manager _ _ _ _ _) = none
daemon_group (delayed_scheduler _ _ _ _ _) = none
daemon_group (pel_janitor j) = some j.group
daemon_group (retention_janitor queue group) = some group

-- Whether a runner hands what it reclaims to a processor; those that reclaim nothing have none.
abbrev pub processes : Daemon → Bool
processes (pel_janitor j) = j.has_processor
processes _ = false
