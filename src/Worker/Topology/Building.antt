-- ===== src/Worker/Topology/Building.antt =====
-- What all workers of a topology have, from what each constructor gives.
use taskmq.Prelude.{
  ◌≡◌, refl, ◌∙◌, ap, Bytes, codes, Bool, true, not, ◌=b◌, =b_refl, inl, inr, List, [], ◌∷◌, map,
  if-both, Option, some, All, is_some, Bool-cases,
}
use taskmq.Worker.Options.{WorkerConfig, WorkerPoolOptions}
use taskmq.Worker.Topology.{
  QueueConfig, TaskMqConfig, Worker, Workers, worker_pool, priority_worker, build_worker_topology,
  queue_group, or_name, registered, known_strategy, configured, priority_queues, normal_queues,
  is_prioritized, prioritized, register, with_pools, with_worker, worker_of, queue_priority,
}
use taskmq.Worker.Topology.Groups.{pool_worker-group, pool_of_priorities-group}

abbrev pub has_worker : Bytes → Workers → Bool
has_worker name ws = is_some (worker_of name ws)

module _ (cfg : TaskMqConfig) (P : QueueConfig → Type 0) (Q : Bytes → Worker → Type 0)
    (of_pool : (q : QueueConfig) (o : WorkerPoolOptions)
      → P q
      → o.config.group ≡ queue_group q
      → Q q.name (worker_pool q.name o))
    (of_priority : (qs : List QueueConfig) (o : WorkerConfig)
      → o.group ≡ codes "taskmq-priority-group"
      → All
          (λ q. Q q.name (
            priority_worker
              (map queue_priority qs)
              (or_name cfg.priority_strategy (codes "weighted"))
              o))
          qs) where
  abbrev AllWorkers : Workers → Type 0
  AllWorkers ws = All (λ e. Q e.0 e.1) ws

  -- What is registered stays, and each queue has a worker.
  abbrev Grown : List QueueConfig → Workers → Workers → Type 0
  Grown qs ws ws' =
      AllWorkers ws'
      × ((n : Bytes) → has_worker n ws ≡ true → has_worker n ws' ≡ true)
      × All (λ q. has_worker q.name ws' ≡ true) qs

  has_more :
      (n m : Bytes) (w : Worker) (ws : Workers)
      → has_worker n ws ≡ true
      → has_worker n ((m, w) ∷ ws) ≡ true
  unfolding worker_of
  has_more n m w ws h = if-both (λ (o : Option Worker). is_some o ≡ true) (m =b n) refl h

  has_own : (n : Bytes) (w : Worker) (ws : Workers) → has_worker n ((n, w) ∷ ws) ≡ true
  unfolding worker_of
  has_own n w ws = rw (=b_refl n) refl

  register-Grown :
      (qs : List QueueConfig) (w : Worker) (ws : Workers)
      → All (λ q. Q q.name w) qs
      → AllWorkers ws
      → Grown qs ws (register qs w ws)
  unfolding register
  register-Grown [] w ws new all = (all, (λ n h. h), tt)
  register-Grown (q ∷ qs) w ws new all =
      let (all', more, each) = register-Grown qs w ((q.name, w) ∷ ws) new.1 (new.0, all) in
      (all', (λ n h. more n (has_more n q.name w ws h)), (more q.name (has_own q.name w ws), each))

  with_pools-Grown :
      (qs : List QueueConfig) (ws : Workers)
      → All P qs
      → AllWorkers ws
      → (ws' : Workers) × (with_pools cfg qs (some ws) ≡ some ws') × Grown qs ws ws'
  unfolding with_pools
  with_pools-Grown [] ws ps all = (ws, refl, (all, (λ n h. h), tt))
  with_pools-Grown (q ∷ qs) ws ps all =
      let (o, e, same) = pool_worker-group cfg q in
      let w : Worker = worker_pool q.name o in
      let (ws', e', (all', more, each)) =
        with_pools-Grown qs ((q.name, w) ∷ ws) ps.1 (of_pool q o ps.0 same, all) in
      (
        ws',
        ap (λ o. with_pools cfg qs (with_worker q.name o ws)) e ∙ e',
        (
          all',
          (λ n h. more n (has_more n q.name w ws h)),
          (more q.name (has_own q.name w ws), each),
        ),
      )

  prioritized-Grown :
      (qs : List QueueConfig)
      → known_strategy cfg.priority_strategy ≡ true
      → (ws : Workers) × (prioritized cfg qs ≡ some ws) × Grown qs [] ws
  prioritized-Grown [] known = ([], refl, (tt, (λ n h. h), tt))
  prioritized-Grown (q ∷ qs) known =
      let (o, e, same) = pool_of_priorities-group cfg q qs known in
      let w =
        priority_worker (map queue_priority (q ∷ qs))
          (or_name cfg.priority_strategy (codes "weighted")) o in
      (
        register (q ∷ qs) w [],
        ap (registered (q ∷ qs)) e,
        register-Grown (q ∷ qs) w [] (of_priority (q ∷ qs) o same) tt,
      )

  -- What both parts of the queues have, all have.
  All-parts :
      (R : QueueConfig → Type 0) (qs : List QueueConfig)
      → All R (priority_queues cfg qs)
      → All R (normal_queues cfg qs)
      → All R qs
  unfolding priority_queues normal_queues
  All-parts R [] high low = tt
  All-parts R (q ∷ qs) high low = elim (Bool-cases (is_prioritized cfg q)) [
    | inl is ↦
        let high' = rw is at high in
        let low' = rw is at low in (high'.0, All-parts R qs high'.1 low')
    | inr not ↦
        let high' = rw not at high in
        let low' = rw not at low in (low'.0, All-parts R qs high' low'.1)
  ]

  All-normal : (qs : List QueueConfig) → All P qs → All P (normal_queues cfg qs)
  unfolding normal_queues
  All-normal [] all = tt
  All-normal (q ∷ qs) all =
      if-both (λ (qs : List QueueConfig). All P qs) (is_prioritized cfg q) (All-normal qs all.1)
        (all.0, All-normal qs all.1)

  All-map :
      {R S : QueueConfig → Type 0} (qs : List QueueConfig)
      → ((q : QueueConfig) → R q → S q)
      → All R qs
      → All S qs
  All-map [] f all = tt
  All-map (q ∷ qs) f all = (f q all.0, All-map qs f all.1)

  -- With a known strategy the topology is built, all its workers have Q, and every queue has one.
  pub build_worker_topology-All :
      known_strategy cfg.priority_strategy ≡ true
      → All P (configured cfg.queues)
      → (ws : Workers) × (build_worker_topology cfg ≡ some ws)
        × AllWorkers ws
        × All (λ q. has_worker q.name ws ≡ true) (configured cfg.queues)
  unfolding build_worker_topology
  build_worker_topology-All known ps =
      let queues = configured cfg.queues in
      let (ws, e, (all, _, each)) = prioritized-Grown (priority_queues cfg queues) known in
      let (ws', e', (all', more, each')) =
        with_pools-Grown (normal_queues cfg queues) ws (All-normal queues ps) all in
      (
        ws',
        ap (with_pools cfg (normal_queues cfg queues)) e ∙ e',
        all',
        All-parts (λ q. has_worker q.name ws' ≡ true) queues
            (All-map (priority_queues cfg queues) (λ q. more q.name) each) each',
      )
