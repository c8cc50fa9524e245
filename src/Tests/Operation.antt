-- ===== src/Tests/Operation.antt =====
-- Runs of topologies, polls, janitors, controls and counters.
use taskmq.Prelude.{
  ◌*◌, ◌≡◌, ◌≢◌, ◌<◌, refl, arith, Bytes, codes, true, false, Bool, ◌=b◌, List, [], ◌∷◌, none, some,
  All,
}
use taskmq.Prelude.Int.{pos}
use taskmq.Keys.{stream}
use taskmq.Redis.Memory.{memory}
use taskmq.Redis.Memory.Lawful.{memory-Laws}
use taskmq.Lifecycle.Config.{default_config}
use taskmq.Lifecycle.Scripts.{ok_reply}
use taskmq.World.{World, processed, Field}
use taskmq.Worker.Pause.{new_pause_controller}
use taskmq.Worker.Topology.{
  TaskMqConfig, Worker, Workers, default_queue, build_worker_topology, build_daemon_topology,
  configured, known_strategy, worker_of,
}
use taskmq.Worker.Topology.Groups.{group}
use taskmq.Worker.Topology.Serving.{serves, build_worker_topology-serves}
use taskmq.Worker.Topology.Roles.{build_daemon_topology-apart}
use taskmq.Runner.Daemons.{daemon_group, processes}
use taskmq.Worker.Fetch.{poll, start_groups}
use taskmq.Worker.Fetch.Polling.{IsDominated, poll-IsDominated}
use taskmq.Worker.Fetch.Skipping.{StreamOp, append, read, deliveries, start_groups-skips}
use taskmq.Runner.Pel.{PelRecoveryJanitor}
use taskmq.Client.Control.{pause, resume}
use taskmq.Client.Control.Listening.{IsKnown, pause-resume-IsKnown}
use taskmq.QueueMetrics.{field_name, snapshot_script, processed_value}
use taskmq.QueueMetrics.Doubling.{count_effects, completions, processed_value_doubles}
use taskmq.Tests.Data.{sample, quiet, start, steady, flaky, short_codec}

-- Two queues with a priority and one without
abbrev three_queues : TaskMqConfig
three_queues = record {
  role = codes " Worker ";
  cron_healing_interval = pos 0;
  cron_healing_lock_ttl = pos 0;
  cron_healing_scan_batch_size = pos 0;
  cron_healing_scan_max_count = pos 50;
  scheduler_poll_interval = pos 1000;
  janitor_interval = pos 0;
  janitor_min_idle_time = pos 0;
  shutdown_timeout = pos 0;
  priority_queues_enabled = true;
  priority_strategy = codes "strict";
  queues =
      record default_queue { name = codes "mail"; priority = pos 2 }
      ∷ (record default_queue { name = codes "sms"; priority = pos 1; disable_cron = true }
          ∷ (record default_queue { name = codes "logs"; rate_limit_max = pos 3 } ∷ []));
}

strict_known : known_strategy (codes "strict") ≡ true
unfolding ◌=b◌
strict_known = refl

build_worker_topology-serves_example :
    (ws : Workers) × (build_worker_topology three_queues ≡ some ws)
    × All
        (λ q. (w : Worker) × (worker_of q.name ws ≡ some w) × (serves q.name w ≡ true))
        (configured three_queues.queues)
build_worker_topology-serves_example = build_worker_topology-serves three_queues strict_known

build_daemon_topology-apart_example :
    (ws : Workers) × (build_worker_topology three_queues ≡ some ws)
    × All
        (λ v.
          All
            (λ e. (daemon_group e.1 ≢ some (group v.1)) × (processes e.1 ≡ false))
            (build_daemon_topology three_queues default_config))
        ws
build_daemon_topology-apart_example =
    build_daemon_topology-apart three_queues default_config strict_known (refl, (refl, (refl, tt)))

-- Nothing in the stream of "mail" that its group has not read, and something new for the other group.
abbrev mail_paused : Bytes → Bool
mail_paused q = q =b codes "mail"

poll-IsDominated_example :
    IsDominated
      (codes "g")
      mail_paused
      (codes "mail" ∷ (codes "sms" ∷ []))
      start.db
      (poll steady (codes "g") mail_paused (codes "mail" ∷ (codes "sms" ∷ [])) start)
poll-IsDominated_example =
    poll-IsDominated steady memory-Laws (λ n. refl) (codes "g") mail_paused
      (codes "mail" ∷ (codes "sms" ∷ [])) start

-- A message waits in the stream, and no group has been created.
abbrev without_groups : World
without_groups = record start {
  db = record quiet {
    streams = λ k. record {
      entries = record { id = 7; task = codes "x" } ∷ [];
      pending = λ g i. false;
      last_delivered = λ g. 0;
      groups = λ g. false;
    };
  };
}

abbrev later_ops : List StreamOp
later_ops = read (codes "g") ∷ (append (codes "y") ∷ (read (codes "g") ∷ []))

start_groups-skips_example :
    let r = start_groups steady (codes "g") (codes "mail" ∷ []) without_groups in
    (r.0 ≡ none)
    × All
        (λ d. All (λ o. o.id < d.id) (without_groups.db.streams (stream (codes "mail"))).entries)
        (deliveries memory (codes "g") later_ops (r.1.db.streams (stream (codes "mail"))))
start_groups-skips_example =
    start_groups-skips steady memory-Laws (codes "g") (codes "mail") without_groups refl refl
      later_ops

-- The janitor of a daemon
abbrev detached : PelRecoveryJanitor
detached = record {
  env = flaky;
  queue = codes "mail";
  group = codes "taskmq-daemon-group";
  consumer = codes "taskmq-daemon-consumer";
  concurrency = pos 5;
  codec = short_codec;
  print_id = λ n. codes "0-1";
  process_fn = none;
}

pause-resume-IsKnown_example :
    IsKnown steady
      (λ n. refl)
      (codes "mail")
      new_pause_controller
      true
      (pause steady (codes "mail") start)
      start
    × IsKnown steady
        (λ n. refl)
        (codes "mail")
        new_pause_controller
        false
        (resume steady (codes "mail") start)
        start
pause-resume-IsKnown_example =
    pause-resume-IsKnown steady (λ n. refl) (codes "mail") new_pause_controller start
      (unfold ◌=b◌ in refl)

processed_value_doubles_example :
    let snap =
      (snapshot_script
        (codes "mail")
        (count_effects steady (completions sample ok_reply 3 start).effects start).db).1 in
    (snap (field_name processed) ≡ pos 3)
    × (snap (field_name Field.completed) ≡ pos 3)
    × (processed_value snap ≡ pos (3 * 2))
processed_value_doubles_example =
    processed_value_doubles steady memory-Laws (λ n. refl) (codes "mail") (unfold ◌=b◌ in refl)
      sample ok_reply 3 start start refl (omega arith) refl refl refl
