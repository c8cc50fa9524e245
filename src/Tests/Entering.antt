-- ===== src/Tests/Entering.antt =====
-- Runs of the client over a network that fails.
use taskmq.Prelude.{◌≡◌, inr, codes, [], ◌∷◌}
use taskmq.Prelude.Int.{pos}
use taskmq.Task.{Task}
use taskmq.Redis.Memory.Lawful.{memory-Laws}
use taskmq.Broker.Outcomes.{Outcome}
use taskmq.Client.{Client, TaskOption, apply_task_options, enqueue, identified}
use taskmq.Client.Entering.{IsEntered, enqueue-Outcome}
use taskmq.Tests.Data.{sample, flaky, start, short_codec, quiet}

abbrev client : Client
client = record {
  env = flaky;
  codec = short_codec;
  default_unique_ttl = pos 0;
  fresh_id = codes "f";
}

abbrev renamed : TaskOption
renamed t = inr (record t { name = codes "later" })

enqueue-Outcome_example : Outcome (enqueue client sample (renamed ∷ []) start) start (
    (t' : Task) × (apply_task_options (renamed ∷ []) sample ≡ inr t')
    × IsEntered client memory-Laws
        (identified client t')
        quiet
        (enqueue client sample (renamed ∷ []) start).1.db)
enqueue-Outcome_example = enqueue-Outcome client memory-Laws sample (renamed ∷ []) start
