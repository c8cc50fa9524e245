-- ===== src/QueueMetrics.antt =====
-- internal/taskmq/metricsq/metrics.go: the counters of a queue on the server, and their text for Prometheus.
-- A reply of `HGETALL` is a function from fields; `quote` is the verb %q.
pub mod Doubling
use taskmq.Prelude.{
  ℕ, Bytes, codes, Bool, false, ◌||◌, ◌⊎◌, inl, inr, List, [], ◌∷◌, ◌++◌, ◌=b◌, ◌==◌, if◌then◌else◌,
  is_some, Option, none, some,
}
use taskmq.Prelude.Int.{ℤ, pos, negsuc, leb_ℤ, add64}
use taskmq.Prelude.Decimal.{decimal}
use taskmq.Prelude.Decimal.Parse.{parse_int64}
use taskmq.Errors.{Error}
use taskmq.Task.{unix_milli}
use taskmq.Keys.{stream, delayed, dlq, completed, paused, metrics}
use taskmq.Redis.{Db, Hash, Commands, set_hash}
use taskmq.World.{Env, World, call, now, Field, processed, failed, retried, deferred}

-- `Field...`
abbrev pub field_name : Field → Bytes
field_name processed = codes "processed_total"
field_name failed = codes "failed_total"
field_name retried = codes "retried_total"
field_name Field.dlq = codes "dlq_total"
field_name Field.completed = codes "completed_total"
field_name deferred = codes "deferred_total"

abbrev hash_or : Hash → Option Hash → Hash
hash_or h none = h
hash_or h (some h') = h'

abbrev pub inc_script : Commands → Bytes → Bytes → ℤ → Db → Db × Unit {0}
inc_script c key field delta db =
    (set_hash key (hash_or (db.hashes key) (c.hincrby field delta (db.hashes key))) db, tt)

abbrev is_zero : ℤ → Bool
is_zero (pos n) = n == 0
is_zero (negsuc n) = false

-- Errors are ignored.
unfoldable pub inc : Env → Bytes → Bytes → ℤ → World → World
inc env queue field delta w =
    if (queue =b []) || ((field =b []) || is_zero delta)
    then w
    else (call env (inc_script env.commands (metrics queue) field delta) w).1

-- A missing key of the map is 0, as is one that does not parse.
abbrev pub parsed : Option Bytes → ℤ
parsed none = pos 0
parsed (some v) = parse_int64 v

abbrev pub Snapshot : Type 0
Snapshot = Bytes → ℤ

abbrev pub snapshot_script : Bytes → Db → Db × Snapshot
snapshot_script queue db = (db, λ f. parsed (db.hashes (metrics queue) f))

unfoldable pub snapshot : Env → Bytes → World → (Error ⊎ Snapshot) × World
snapshot env queue w = call env (snapshot_script queue) w

pub record QueueDepths : Type 0 where
  pub queue : Bytes
  pub stream_len : ℕ
  pub delayed : ℕ
  pub dlq : ℕ
  pub completed : ℕ
  pub paused : Bool

abbrev or_zero : Error ⊎ ℕ → ℕ
or_zero (inl e) = 0
or_zero (inr n) = n

abbrev or_false : Error ⊎ Bool → Bool
or_false (inl e) = false
or_false (inr b) = b

module _ (env : Env) (queue : Bytes) where
  abbrev zcard_of : Bytes → Db → Db × ℕ
  zcard_of key db = (db, env.commands.zcard (db.zsets key))

  -- The last two calls, whose errors are ignored
  abbrev with_state : ℕ → ℕ → ℕ → World → (Error ⊎ QueueDepths) × World
  with_state len waiting dead w =
      let (done, w) = call env (zcard_of (completed queue)) w in
      let (stopped, w) = call env (λ (db : Db). (db, is_some (db.strings (paused queue)))) w in
      (
        inr (record {
          queue = queue;
          stream_len = len;
          delayed = waiting;
          dlq = dead;
          completed = or_zero done;
          paused = or_false stopped;
        }),
        w,
      )

  abbrev with_dlq : ℕ → ℕ → (Error ⊎ ℕ) × World → (Error ⊎ QueueDepths) × World
  with_dlq len waiting (inl e, w) = (inl e, w)
  with_dlq len waiting (inr dead, w) = with_state len waiting dead w

  abbrev with_delayed : ℕ → (Error ⊎ ℕ) × World → (Error ⊎ QueueDepths) × World
  with_delayed len (inl e, w) = (inl e, w)
  with_delayed len (inr waiting, w) = with_dlq len waiting (call env (zcard_of (dlq queue)) w)

  abbrev with_stream : (Error ⊎ ℕ) × World → (Error ⊎ QueueDepths) × World
  with_stream (inl e, w) = (inl e, w)
  with_stream (inr len, w) = with_delayed len (call env (zcard_of (delayed queue)) w)

  unfoldable pub depths : World → (Error ⊎ QueueDepths) × World
  depths w = with_stream (call env (λ db. (db, env.commands.xlen (db.streams (stream queue)))) w)

-- One line of a metric
abbrev pub metric_line : Bytes → Bytes → ℤ → Bytes
metric_line name label value =
    name ++ (codes "{queue=" ++ (label ++ (codes "} " ++ (decimal value ++ codes "\n"))))

abbrev pub processed_value : Snapshot → ℤ
processed_value snap = add64 (snap (field_name processed)) (snap (field_name Field.completed))

abbrev pub failed_value : Snapshot → ℤ
failed_value snap = add64 (snap (field_name failed)) (snap (field_name Field.dlq))

-- The lines of a queue
abbrev pub queue_lines : (Bytes → Bytes) → Bytes → Snapshot → QueueDepths → Bytes
queue_lines quote q snap d =
    metric_line (codes "taskmq_queue_processed_total") (quote q) (processed_value snap)
    ++ (metric_line (codes "taskmq_queue_failed_total") (quote q) (failed_value snap)
        ++ (metric_line (codes "taskmq_queue_retried_total") (quote q) (snap (field_name retried))
            ++ (metric_line (codes "taskmq_queue_stream_length") (quote q) (pos d.stream_len)
                ++ (metric_line (codes "taskmq_queue_delayed_length") (quote q) (pos d.delayed)
                    ++ metric_line (codes "taskmq_queue_dlq_length") (quote q) (pos d.dlq)))))

-- `strings.ReplaceAll` of a byte, of the backslash (92) and of the quotation mark (34)
unfoldable pub replace_all : ℕ → Bytes → Bytes → Bytes
replace_all old new [] = []
replace_all old new (c ∷ s) =
    let rest = replace_all old new s in if c == old then new ++ rest else c ∷ rest

abbrev pub prom_label : Bytes → Bytes
prom_label q = replace_all 34 (92 ∷ 34 ∷ []) (replace_all 92 (92 ∷ 92 ∷ []) q)

module _ (env : Env) (quote : Bytes → Bytes) where
  abbrev with_depths :
      Bytes → Bytes → Snapshot → (Error ⊎ QueueDepths) × World → (Error ⊎ Bytes) × World
  with_depths text q snap (inl e, w) = (inl e, w)
  with_depths text q snap (inr d, w) = (inr (text ++ queue_lines quote (prom_label q) snap d), w)

  abbrev with_snapshot : Bytes → Bytes → (Error ⊎ Snapshot) × World → (Error ⊎ Bytes) × World
  with_snapshot text q (inl e, w) = (inl e, w)
  with_snapshot text q (inr snap, w) = with_depths text q snap (depths env q w)

  abbrev and_then :
      (Bytes → World → (Error ⊎ Bytes) × World) → (Error ⊎ Bytes) × World → (Error ⊎ Bytes) × World
  and_then next (inl e, w) = (inl e, w)
  and_then next (inr text, w) = next text w

  abbrev stamped : (Error ⊎ Bytes) × World → (Error ⊎ Bytes) × World
  stamped (inl e, w) = (inl e, w)
  stamped (inr text, w) =
      let (at, w) = now env w in
      (inr (text ++ (codes "# scraped_at_unix_ms " ++ (decimal (unix_milli at) ++ codes "\n"))), w)

  unfoldable pub queue_texts : List Bytes → Bytes → World → (Error ⊎ Bytes) × World
  queue_texts [] text w = (inr text, w)
  queue_texts (q ∷ qs) text w = and_then (queue_texts qs) (with_snapshot text q (snapshot env q w))

  -- `help` is the twelve fixed lines at the head of the text.
  unfoldable pub prometheus_text : Bytes → List Bytes → World → (Error ⊎ Bytes) × World
  prometheus_text help queues w = stamped (queue_texts queues help w)
