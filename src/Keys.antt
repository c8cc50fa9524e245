-- ===== src/Keys.antt =====
-- internal/taskmq/keys/keys.go: the names of the Redis keys of a queue.
pub mod Kinds
pub mod Slots
pub mod Parse
use taskmq.Prelude.{
  ℕ, zero, suc, ◌-◌, Bytes, codes, Bool, true, false, ◌&&◌, ◌||◌, not, List, [], ◌∷◌, ◌++◌, ◌==◌,
  ◌=b◌, length, take, drop, ltb, if◌then◌else◌,
}

-- `fmt.Sprintf("taskmq:{%s}:rest", queue)`
abbrev pub key : Bytes → Bytes → Bytes
key queue rest = codes "taskmq:{" ++ (queue ++ (codes "}:" ++ rest))

module _ (queue : Bytes) where
  abbrev pub stream : Bytes
  stream = key queue (codes "queue")

  abbrev pub delayed : Bytes
  delayed = key queue (codes "delayed")

  abbrev pub dlq : Bytes
  dlq = key queue (codes "dlq")

  abbrev pub dlq_index : Bytes
  dlq_index = key queue (codes "dlq_index")

  abbrev pub unique : Bytes → Bytes
  unique unique_key = key queue (codes "unique:" ++ unique_key)

  abbrev pub cron_configs : Bytes
  cron_configs = key queue (codes "cron_configs")

  abbrev pub cron_self_healing_lock : Bytes
  cron_self_healing_lock = key queue (codes "cron_self_healing_lock")

  abbrev pub paused : Bytes
  paused = key queue (codes "paused")

  abbrev pub control : Bytes
  control = key queue (codes "control")

  abbrev pub cancelled : Bytes → Bytes
  cancelled task_id = key queue (codes "cancelled:" ++ task_id)

  abbrev pub cancel_channel : Bytes
  cancel_channel = key queue (codes "cancel")

  abbrev pub delayed_wakeup_channel : Bytes
  delayed_wakeup_channel = key queue (codes "delayed_wakeup")

  abbrev pub rate_limit : Bytes → Bytes
  rate_limit group_key =
      if group_key =b []
      then key queue (codes "rate_limit")
      else key queue (codes "rate_limit:" ++ group_key)

  abbrev pub meta : Bytes → Bytes
  meta task_id = key queue (codes "meta:" ++ task_id)

  abbrev pub completed : Bytes
  completed = key queue (codes "completed")

  abbrev pub metrics : Bytes
  metrics = key queue (codes "metrics")

  abbrev pub heartbeat : Bytes → Bytes
  heartbeat consumer = key queue (codes "heartbeat:" ++ consumer)

  abbrev pub events : Bytes
  events = key queue (codes "events")

-- `strings.HasPrefix` and `strings.HasSuffix`
unfoldable pub has_prefix : Bytes → Bytes → Bool
has_prefix xs [] = true
has_prefix [] (p ∷ ps) = false
has_prefix (x ∷ xs) (p ∷ ps) = (x == p) && has_prefix xs ps

unfoldable pub has_suffix : Bytes → Bytes → Bool
has_suffix xs suffix =
    if ltb (length xs) (length suffix) then false else drop (length xs - length suffix) xs =b suffix

-- The two results of `ParseQueueFromStreamKey`, and the panic of a slice out of range.
pub data Parsed : Type 0 where
  queue_name : Bytes → Parsed
  not_ok : Parsed
  panic : Parsed

-- `s[low:high]`
abbrev pub slice : Bytes → ℕ → ℕ → Bytes
slice xs low high = drop low (take high xs)

unfoldable pub parse_queue_from_stream_key : Bytes → Parsed
parse_queue_from_stream_key redis_key =
    let prefix = codes "taskmq:{" in
    let suffix = codes "}:queue" in
    let high = length redis_key - length suffix in
    let name = slice redis_key (length prefix) high in
    if not (has_prefix redis_key prefix) || not (has_suffix redis_key suffix)
    then not_ok
    else if ltb high (length prefix)
    then panic
    else if name =b []
    then not_ok
    else queue_name name
