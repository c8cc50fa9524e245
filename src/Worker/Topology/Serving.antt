-- ===== src/Worker/Topology/Serving.antt =====
-- Every configured queue has a worker that consumes it.
use taskmq.Prelude.{
  ◌≡◌, refl, Bytes, codes, Bool, true, false, ◌||◌, ◌=b◌, =b_refl, =b_iff, inl, inr, List, [], ◌∷◌,
  map, some, subst, All, arith, Bool-cases,
}
use taskmq.Worker.Options.{WorkerConfig}
use taskmq.Worker.Topology.{
  QueueConfig, TaskMqConfig, Worker, Workers, worker_pool, priority_worker, build_worker_topology,
  or_name, known_strategy, configured, worker_of, queue_priority,
}
use taskmq.Worker.Topology.Building.{has_worker, build_worker_topology-All}

-- Whether a worker consumes a queue
unfoldable pub serves : Bytes → Worker → Bool
serves name (worker_pool queue o) = queue =b name
serves name (priority_worker [] strategy o) = false
serves name (priority_worker (q ∷ qs) strategy o) =
    (q.name =b name) || serves name (priority_worker qs strategy o)

serves_any :
    (qs : List QueueConfig) (strategy : Bytes) (o : WorkerConfig)
    → All (λ q. serves q.name (priority_worker (map queue_priority qs) strategy o) ≡ true) qs
unfolding serves
serves_any [] strategy o = tt
serves_any (q ∷ qs) strategy o =
    (rw (=b_refl q.name) refl, later q qs strategy o qs (serves_any qs strategy o))
  where
    later :
        (q : QueueConfig) (qs : List QueueConfig) (strategy : Bytes) (o : WorkerConfig)
        (rs : List QueueConfig)
        → All (λ r. serves r.name (priority_worker (map queue_priority qs) strategy o) ≡ true) rs
        → All
            (λ r. serves r.name (priority_worker (map queue_priority (q ∷ qs)) strategy o) ≡ true)
            rs
    later q qs strategy o [] all = tt
    later q qs strategy o (r ∷ rs) all = (ground (arith, all.0), later q qs strategy o rs all.1)

-- In a map whose workers serve their names, a name that has a worker has one that serves it.
found-serves :
    (name : Bytes) (ws : Workers)
    → All (λ e. serves e.0 e.1 ≡ true) ws
    → has_worker name ws ≡ true
    → (w : Worker) × (worker_of name ws ≡ some w) × (serves name w ≡ true)
unfolding worker_of
found-serves name [] all h = absurd (cc h)
found-serves name ((n, w) ∷ ws) all h = elim (Bool-cases (n =b name)) [
  | inl same ↦
      (w, rw same refl, subst (λ (m : Bytes). serves m w ≡ true) ((=b_iff n name).0 same) all.0)
  | inr other ↦
      let (w', e, served) = found-serves name ws all.1 (rw other at h) in (w', rw other e, served)
]

each-served :
    (qs : List QueueConfig) (ws : Workers)
    → All (λ e. serves e.0 e.1 ≡ true) ws
    → All (λ q. has_worker q.name ws ≡ true) qs
    → All (λ q. (w : Worker) × (worker_of q.name ws ≡ some w) × (serves q.name w ≡ true)) qs
each-served [] ws all each = tt
each-served (q ∷ qs) ws all each = (found-serves q.name ws all each.0, each-served qs ws all each.1)

-- With a known priority strategy, whatever else is configured, no option is refused, and under the
-- name of each configured queue, or of the default queue where none is configured, there is a worker
-- that consumes this queue.
pub build_worker_topology-serves :
    (cfg : TaskMqConfig)
    → known_strategy cfg.priority_strategy ≡ true
    → (ws : Workers) × (build_worker_topology cfg ≡ some ws)
      × All
          (λ q. (w : Worker) × (worker_of q.name ws ≡ some w) × (serves q.name w ≡ true))
          (configured cfg.queues)
build_worker_topology-serves cfg known =
    let (ws, e, all, each) =
      build_worker_topology-All cfg (λ q. Unit {0}) (λ n w. serves n w ≡ true)
        (λ q o _ _. unfold serves in =b_refl q.name)
        (λ qs o _. serves_any qs (or_name cfg.priority_strategy (codes "weighted")) o) known
        (trivial (configured cfg.queues)) in
    (ws, e, each-served (configured cfg.queues) ws all each)
  where
    trivial : (qs : List QueueConfig) → All (λ q. Unit {0}) qs
    trivial [] = tt
    trivial (q ∷ qs) = (tt, trivial qs)
