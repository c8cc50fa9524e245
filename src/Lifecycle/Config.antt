-- ===== src/Lifecycle/Config.antt =====
-- The configuration of internal/taskmq/lifecycle/lifecycle.go and its normalisation.
use taskmq.Prelude.{◌≡◌, ℕ, ◌*◌, Bool, true, false, if◌then◌else◌, arith, Option, none, some}
use taskmq.Prelude.Int.{ℤ, pos, ltb_ℤ, leb_ℤ, ◌<ℤ◌, ◌≤ℤ◌}

-- `DelayedOverflowPolicy` is a string: empty, one of the two constants, or any other.
pub data Overflow : Type 0 where
  unset reject drop_farthest : Overflow
  other : ℕ → Overflow

-- Durations are in nanoseconds.
pub record Config : Type 0 where
  pub stream_max_len : ℤ
  pub enqueue_soft_limit : ℤ
  pub enqueue_hard_limit : ℤ
  pub delayed_max_count : ℤ
  pub delayed_max_delay : ℤ
  pub delayed_overflow : Overflow
  pub dlq_max_count : ℤ
  pub dlq_max_age : ℤ
  pub cancelled_ttl : ℤ
  pub max_payload_bytes : ℤ
  pub safe_trim_enabled : Bool
  pub safe_trim_interval : ℤ
  pub safe_trim_batch_limit : ℤ
  pub idle_consumer_timeout : ℤ
  pub purge_cancelled_delayed : Bool
  pub completed_retention : ℤ
  pub completed_max_count : ℤ

abbrev pub second : ℕ
second = 1000000000

abbrev pub day : ℤ
day = pos (24 * 3600 * second)

abbrev pub default_config : Config
default_config = record {
  stream_max_len = pos 0;
  enqueue_soft_limit = pos 0;
  enqueue_hard_limit = pos 0;
  delayed_max_count = pos 0;
  delayed_max_delay = pos 0;
  delayed_overflow = reject;
  dlq_max_count = pos 1000;
  dlq_max_age = pos 0;
  cancelled_ttl = day;
  max_payload_bytes = pos 0;
  safe_trim_enabled = true;
  safe_trim_interval = pos (30 * second);
  safe_trim_batch_limit = pos 1000;
  idle_consumer_timeout = pos 0;
  purge_cancelled_delayed = true;
  completed_retention = pos 0;
  completed_max_count = pos 0;
}

abbrev or_reject : Overflow → Overflow
or_reject unset = reject
or_reject o = o

unfoldable pub normalize : Config → Config
normalize c = record c {
  dlq_max_count = if ltb_ℤ c.dlq_max_count (pos 0) then pos 0 else c.dlq_max_count;
  cancelled_ttl = if leb_ℤ c.cancelled_ttl (pos 0) then day else c.cancelled_ttl;
  delayed_overflow = or_reject c.delayed_overflow;
  safe_trim_interval =
      if leb_ℤ c.safe_trim_interval (pos 0) then pos (30 * second) else c.safe_trim_interval;
  safe_trim_batch_limit =
      if leb_ℤ c.safe_trim_batch_limit (pos 0) then pos 1000 else c.safe_trim_batch_limit;
}

-- `lc.cfg` of a lifecycle that may be nil, as `Config()` returns it.
unfoldable pub config : Option Config → Config
config none = normalize default_config
config (some c) = c

abbrev is_drop_farthest : Overflow → Bool
is_drop_farthest drop_farthest = true
is_drop_farthest _ = false

-- The Lua flag: 1 drops the farthest members, 0 rejects.
unfoldable pub overflow_arg : Option Config → ℤ
overflow_arg none = pos 0
overflow_arg (some c) = if is_drop_farthest c.delayed_overflow then pos 1 else pos 0

unfoldable pub delayed_limits : Option Config → ℤ × ℤ
delayed_limits none = (pos 0, pos 0)
delayed_limits (some c) = (c.delayed_max_count, overflow_arg (some c))

unfoldable pub stream_limits : Option Config → ℤ × ℤ
stream_limits none = (pos 0, pos 0)
stream_limits (some c) = (c.enqueue_hard_limit, c.stream_max_len)

-- What a normalised configuration satisfies.
pub record IsNormal (c : Config) : Type 0 where
  pub dlq : pos 0 ≤ℤ c.dlq_max_count
  pub ttl : pos 0 <ℤ c.cancelled_ttl
  pub overflow : (c.delayed_overflow ≡ unset) → ⊥
  pub interval : pos 0 <ℤ c.safe_trim_interval
  pub batch : pos 0 <ℤ c.safe_trim_batch_limit

-- Normalising makes every configuration normal and is idempotent, and the defaults that stand in for
-- a nil lifecycle are normal already.
pub normalize_lem :
    (c : Config)
    → IsNormal (normalize c)
      × (normalize (normalize c) ≡ normalize c)
      × (config none ≡ default_config)
unfolding normalize config
normalize_lem c = (ground arith, ground arith, ground arith)
