-- ===== src/Worker/Topology/Roles.antt =====
-- Workers and background runners in different processes: `BuildWorkerTopologyWithLifecycle` in the role
-- worker, and `BuildDaemonTopologyWithLifecycle` in the role daemon.
use taskmq.Prelude.{
  ◌≡◌, ◌≢◌, refl, ◌∙◌, ap, Bytes, codes, Bool, true, false, ◌=b◌, =b_refl, =b_iff, ◌⊎◌, inl, inr,
  List, [], ◌∷◌, if◌then◌else◌, if-both, Option, none, some, All, arith,
}
use taskmq.Worker.Options.{WorkerConfig}
use taskmq.Worker.Topology.{
  QueueConfig, TaskMqConfig, Worker, Workers, build_worker_topology, queue_group, known_strategy,
  configured,
}
use taskmq.Worker.Topology.Building.{build_worker_topology-All}
use taskmq.Runner.Daemons.{
  DaemonSet, Daemon, QueueDaemonConfig, daemon_group, build_queue_daemons, runners, with_defaults,
  add_enabled, processes,
}
use taskmq.Lifecycle.Config.{Config}
use taskmq.Worker.Topology.{daemon_config, queue_daemons, build_daemon_topology}
use taskmq.Worker.Topology.Groups.{group}

-- What the runners of separate daemons have: the daemons' default group, if any, and no processor.
abbrev IsDetached : Daemon → Type 0
IsDetached d =
    ((daemon_group d ≡ none) ⊎ (daemon_group d ≡ some (codes "taskmq-daemon-group")))
    × (processes d ≡ false)

add_enabled-All :
    (P : Daemon → Type 0) (choices : List (Bool × (Bytes × Daemon))) (ds : DaemonSet)
    → All (λ c. P c.1.1) choices
    → All (λ e. P e.1) ds
    → All (λ e. P e.1) (add_enabled choices ds)
unfolding add_enabled
add_enabled-All P [] ds new all = all
add_enabled-All P ((disabled, named) ∷ rest) ds new all =
    add_enabled-All P rest (if disabled then ds else named ∷ ds) new.1
      (if-both (λ (ds : DaemonSet). All (λ e. P e.1) ds) disabled all (new.0, all))

build_queue_daemons-IsDetached :
    (lc : Option Config) (cfg : QueueDaemonConfig) (ds : DaemonSet)
    → cfg.group ≡ []
    → All (λ e. IsDetached e.1) ds
    → All (λ e. IsDetached e.1) (build_queue_daemons lc cfg ds)
unfolding build_queue_daemons
build_queue_daemons-IsDetached lc cfg ds unnamed all =
    let default : (with_defaults cfg).group ≡ codes "taskmq-daemon-group" =
      ap (λ (g : Bytes). if g =b [] then codes "taskmq-daemon-group" else g) unnamed
      ∙ rw (=b_refl []) refl in
    add_enabled-All IsDetached (runners lc (with_defaults cfg)) ds
      (
        (inl refl, refl),
        ((inl refl, refl), ((inr (ap some default), refl), ((inr (ap some default), refl), tt))),
      )
      all

queue_daemons-IsDetached :
    (cfg : TaskMqConfig) (lc : Option Config) (qs : List QueueConfig) (ds : DaemonSet)
    → All (λ q. q.group ≡ []) qs
    → All (λ e. IsDetached e.1) ds
    → All (λ e. IsDetached e.1) (queue_daemons cfg lc qs ds)
unfolding queue_daemons
queue_daemons-IsDetached cfg lc [] ds unnamed all = all
queue_daemons-IsDetached cfg lc (q ∷ qs) ds unnamed all =
    queue_daemons-IsDetached cfg lc qs (build_queue_daemons lc (daemon_config cfg q) ds) unnamed.1
      (build_queue_daemons-IsDetached lc (daemon_config cfg q) ds unnamed.0 all)

-- A worker outside the daemons' default group
abbrev IsApart : Worker → Type 0
IsApart w = (group w =b codes "taskmq-daemon-group") ≡ false

queue_group-apart :
    (q : QueueConfig) → q.group ≡ [] → (queue_group q =b codes "taskmq-daemon-group") ≡ false
unfolding ◌=b◌
queue_group-apart q unnamed = rw unnamed refl

each-apart :
    (w : Worker) (ds : DaemonSet)
    → IsApart w
    → All (λ e. IsDetached e.1) ds
    → All (λ e. (daemon_group e.1 ≢ some (group w)) × (processes e.1 ≡ false)) ds
each-apart w [] apart all = tt
each-apart w ((name, d) ∷ ds) apart all = ((other all.0.0, all.0.1), each-apart w ds apart all.1)
  where
    other :
        (daemon_group d ≡ none) ⊎ (daemon_group d ≡ some (codes "taskmq-daemon-group"))
        → daemon_group d ≢ some (group w)
    other (inl without) same = cc
    other (inr default) same = ground (arith, =b_iff (group w) (codes "taskmq-daemon-group"))

all-apart :
    (ws : Workers) (ds : DaemonSet)
    → All (λ e. IsApart e.1) ws
    → All (λ e. IsDetached e.1) ds
    → All (λ v. All (λ e. (daemon_group e.1 ≢ some (group v.1)) × (processes e.1 ≡ false)) ds) ws
all-apart [] ds apart all = tt
all-apart ((name, w) ∷ ws) ds apart all = (each-apart w ds apart.0 all, all-apart ws ds apart.1 all)

-- With a known strategy and without a group in the configuration of any queue, no runner of the daemon
-- topology works on the group of any worker of the worker topology, and none of its janitors has a
-- processor for what it reclaims.
pub build_daemon_topology-apart :
    (cfg : TaskMqConfig) (lc : Config)
    → known_strategy cfg.priority_strategy ≡ true
    → All (λ q. q.group ≡ []) (configured cfg.queues)
    → (ws : Workers) × (build_worker_topology cfg ≡ some ws)
      × All
          (λ v.
            All
              (λ e. (daemon_group e.1 ≢ some (group v.1)) × (processes e.1 ≡ false))
              (build_daemon_topology cfg lc))
          ws
unfolding build_daemon_topology
build_daemon_topology-apart cfg lc known unnamed =
    let (ws, e, apart, _) =
      build_worker_topology-All cfg (λ q. q.group ≡ []) (λ n w. IsApart w)
        (λ q o without same. rw same (queue_group-apart q without))
        (λ qs o same. each qs o (rw same (unfold ◌=b◌ in refl))) known unnamed in
    (
      ws,
      e,
      all-apart ws (queue_daemons cfg (some lc) (configured cfg.queues) []) apart
          (queue_daemons-IsDetached cfg (some lc) (configured cfg.queues) [] unnamed tt),
    )
  where
    each :
        (qs : List QueueConfig) (o : WorkerConfig)
        → (o.group =b codes "taskmq-daemon-group") ≡ false
        → All (λ q. (o.group =b codes "taskmq-daemon-group") ≡ false) qs
    each [] o apart = tt
    each (q ∷ qs) o apart = (apart, each qs o apart)
