-- ===== src/Tests/Pipeline.antt =====
-- Runs of the worker's pipeline over a network that fails.
use taskmq.Prelude.{◌≡◌, inr, Bytes, codes, true, [], Option, none, some}
use taskmq.Prelude.Int.{pos}
use taskmq.Errors.{message, text}
use taskmq.Keys.{stream}
use taskmq.Redis.Memory.Lawful.{memory-Laws}
use taskmq.Lifecycle.Scripts.{number}
use taskmq.Broker.Transitions.{lifecycle_config, move_to_dlq, schedule_retry}
use taskmq.Broker.Outcomes.{Outcome, Requeued, Dead, schedule_retry-Outcome, move_to_dlq-Outcome}
use taskmq.Worker.{Worker, Handler, returned}
use taskmq.Worker.Delivery.{Message, string, other}
use taskmq.Tests.Data.{sample, quiet, flaky, start, short_codec}

abbrev failing : Handler
failing time t = (returned (some (message (codes "boom"))), t)

abbrev worker : Worker
worker = record {
  env = flaky;
  codec = short_codec;
  retry_policy = record { should_retry = λ t e. true; next_backoff = λ t. pos 100 };
  dead_letter_policy = record {
    dlq_queue_name = λ t. t.queue;
    before_dead_letter = λ t e. record t { last_error = text e };
  };
  handlers = λ name. some failing;
  rate_limit = λ queue. (pos 0, pos 0, []);
  group_key_extractor = none;
  inspect = λ payload field. none;
  gcra = λ limit duration n v. (v, number (pos 0));
  ticks = λ n. 1;
  attempts = λ n. 3;
  group = codes "g";
}

abbrev handler_or : Option Handler → Handler
handler_or none = failing
handler_or (some h) = h

abbrev message_seven : Message
message_seven = record { id = 7; task = string (codes "x"); payload = other; delivery_count = none }

schedule_retry-Outcome_example :
    let r =
      schedule_retry flaky short_codec sample (stream (codes "mail")) 7 (codes "g") (pos 5) start in
    Outcome r start (Requeued short_codec sample (stream (codes "mail")) (codes "g") 7 quiet r.1.db)
schedule_retry-Outcome_example =
    schedule_retry-Outcome flaky memory-Laws short_codec sample (stream (codes "mail")) (codes "g")
      7 (pos 5) start

move_to_dlq-Outcome_example :
    let r =
      move_to_dlq flaky short_codec sample
        (stream (codes "mail"))
        7
        (codes "g")
        (codes "mail")
        start in
    Outcome r start (
      (serialized : Bytes) × (short_codec.marshal sample ≡ inr serialized)
      × Dead sample
          (stream (codes "mail"))
          (codes "g")
          7
          (codes "mail")
          serialized
          (lifecycle_config start).dlq_max_count
          quiet
          r.1.db)
move_to_dlq-Outcome_example =
    move_to_dlq-Outcome flaky memory-Laws short_codec sample (stream (codes "mail")) (codes "g") 7
      (codes "mail") start
