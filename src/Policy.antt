-- ===== src/Policy.antt =====
-- internal/taskmq/policy: when a failed task is tried again, after what delay, and where it goes when
-- it is not.
pub mod Backoff
pub mod Decision
use taskmq.Prelude.{
  ℕ, zero, suc, ◌^◌, Bytes, Bool, true, false, ◌&&◌, not, ltb, List, [], ◌∷◌, ◌=b◌, if◌then◌else◌,
  Option, none, some,
}
use taskmq.Prelude.Int.{ℤ, pos, negsuc, ltb_ℤ, scale, wrap64}
use taskmq.Errors.{Error, Sentinel, is, is_skip_retry, text}
use taskmq.Task.{Task}
use taskmq.Lifecycle.Scripts.{negate}

-- Delays are int64 nanoseconds.
pub record ExponentialBackoff : Type 0 where
  pub base_delay : ℤ
  pub max_delay : ℤ
  pub jitter : Bool

-- The interface.
pub record RetryPolicy : Type 0 where
  pub should_retry : Task → Error → Bool
  pub next_backoff : Task → ℤ

abbrev pub times : ℤ → ℤ → ℤ
times a (pos zero) = pos 0
times a (pos (suc k)) = scale a (suc k)
times a (negsuc k) = scale (negate a) (suc k)

unfoldable pub exponential_should_retry : Task → Error → Bool
exponential_should_retry t err = if is_skip_retry err then false else ltb_ℤ t.retry t.max_retry

-- `out_of_range` is the compiler's conversion to int64 of a float64 of 2 ^ 63 at least, which the
-- language leaves open; `random` is `rand.Int63n`.
module _ (out_of_range : ℕ → ℤ) (random : ℤ → ℤ) where
  -- `time.Duration(math.Pow(2, float64(retry)))`: exact below 2 ^ 63, and 0 for a fraction.
  unfoldable pub two_power : ℤ → ℤ
  two_power (pos n) = if ltb n 63 then pos (2 ^ n) else out_of_range n
  two_power (negsuc n) = pos 0

  unfoldable pub capped_backoff : ExponentialBackoff → ℤ → ℤ
  capped_backoff e retry =
      let backoff = wrap64 (times e.base_delay (two_power retry)) in
      if ltb_ℤ e.max_delay backoff then e.max_delay else backoff

  unfoldable pub exponential_next_backoff : ExponentialBackoff → Task → ℤ
  exponential_next_backoff e t =
      let backoff = capped_backoff e t.retry in
      if e.jitter && ltb_ℤ (pos 0) backoff then random backoff else backoff

  unfoldable pub exponential_backoff : ExponentialBackoff → RetryPolicy
  exponential_backoff e = record {
    should_retry = exponential_should_retry;
    next_backoff = exponential_next_backoff e;
  }

unfoldable pub matches_any : Error → List Sentinel → Bool
matches_any err [] = false
matches_any err (s ∷ ss) = if is err s then true else matches_any err ss

-- The non-retryable errors are values that `errors.Is` compares by identity.
unfoldable pub error_filter : RetryPolicy → List Sentinel → RetryPolicy
error_filter base non_retryable = record {
  should_retry = λ t err.
      if is_skip_retry err
      then false
      else if not (base.should_retry t err)
      then false
      else not (matches_any err non_retryable);
  next_backoff = base.next_backoff;
}

-- The hook is the application's, and may change the task; the policy is also an interface.
pub record DeadLetterPolicy : Type 0 where
  pub dlq_queue_name : Task → Bytes
  pub before_dead_letter : Task → Error → Task

unfoldable pub standard_dead_letter : Bytes → Option (Task → Error → Task) → DeadLetterPolicy
standard_dead_letter custom hook = record {
  dlq_queue_name = λ t. if custom =b [] then t.queue else custom;
  before_dead_letter = λ t err.
      let failed = record t { last_error = text err } in
      elim hook [ none ↦ failed | some h ↦ (if t.id =b [] then failed else h failed err) ];
}
