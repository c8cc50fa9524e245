-- ===== src/Policy/Backoff.antt =====
-- The delays of internal/taskmq/policy/retry.go.
use taskmq.Prelude.{
  ℕ, zero, suc, ◌*◌, ◌^◌, ◌%◌, ◌≡◌, ◌<◌, inl, inr, refl, Bool, ◌&&◌, lt→ltb, if◌then◌else◌, arith,
  min, Bool-cases,
}
use taskmq.Prelude.Int.{ℤ, pos, ltb_ℤ, wrap64, from_word64-to_word64, ◌≤ℤ◌, ◌<ℤ◌}
use taskmq.Task.{Task}
use taskmq.Policy.{ExponentialBackoff, times, two_power, capped_backoff, exponential_next_backoff}

module _ (out_of_range : ℕ → ℤ) (random : ℤ → ℤ) where
  times_pos : (a b : ℕ) → times (pos a) (pos b) ≡ pos (a * b)
  times_pos a zero = ground arith
  times_pos a (suc b) = refl

  wrap64_small : (n : ℕ) → n < 2 ^ 63 → wrap64 (pos n) ≡ pos n
  wrap64_small n h = from_word64-to_word64 (pos n) (h, omega arith)

  cap_pos :
      (m limit : ℕ) → (if ltb_ℤ (pos limit) (pos m) then pos limit else pos m) ≡ pos (min m limit)
  cap_pos m limit = ground arith

  cap_le : (x limit : ℤ) → (if ltb_ℤ limit x then limit else x) ≤ℤ limit
  cap_le x limit = elim (Bool-cases (ltb_ℤ limit x)) [
    | inl above ↦ rw above (omega arith)
    | inr below ↦ rw below (ground arith)
  ]

  jitter_le :
      (jitter : Bool) (x limit : ℤ)
      → ((n : ℤ) → pos 0 <ℤ n → random n <ℤ n)
      → x ≤ℤ limit
      → (if jitter && ltb_ℤ (pos 0) x then random x else x) ≤ℤ limit
  jitter_le jitter x limit below h = elim (Bool-cases (jitter && ltb_ℤ (pos 0) x)) [
    | inl draws ↦ rw draws (omega (arith, below x (ground arith), h))
    | inr keeps ↦ rw keeps h
  ]

  -- While base * 2^retry fits an int64, the delay before jitter is the lesser of it and the cap.
  pub capped_backoff_exact :
      (jitter : Bool) (base limit retry : ℕ)
      → retry < 63
      → base * 2 ^ retry < 2 ^ 63
      → capped_backoff out_of_range random
          (record { base_delay = pos base; max_delay = pos limit; jitter = jitter })
          (pos retry)
        ≡ pos (min (base * 2 ^ retry) limit)
  unfolding capped_backoff two_power
  capped_backoff_exact jitter base limit retry small fits =
      simp (lt→ltb retry 63 small, times_pos base (2 ^ retry), wrap64_small (base * 2 ^ retry) fits)
        (cap_pos (base * 2 ^ retry) limit)

  -- Whatever the configuration and the task, the delay is not above the cap: under a jitter that
  -- draws below its bound.
  pub next_backoff_capped :
      (e : ExponentialBackoff) (t : Task)
      → ((n : ℤ) → pos 0 <ℤ n → random n <ℤ n)
      → exponential_next_backoff out_of_range random e t ≤ℤ e.max_delay
  unfolding exponential_next_backoff
  next_backoff_capped e t below =
      jitter_le e.jitter (capped_backoff out_of_range random e t.retry) e.max_delay below
        (unfold capped_backoff in cap_le _ e.max_delay)

  -- A base delay of whole seconds gives no delay at all at the 55th retry, under every cap.
  pub capped_backoff_wraps :
      (jitter : Bool) (seconds limit : ℕ)
      → capped_backoff out_of_range random
          (record {
            base_delay = pos (seconds * 1000000000);
            max_delay = pos limit;
            jitter = jitter;
          })
          (pos 55)
        ≡ pos 0
  unfolding capped_backoff two_power
  capped_backoff_wraps jitter seconds limit = simp whole (ground arith)
    where
      whole : seconds * 1000000000 * 2 ^ 55 % 2 ^ 64 ≡ 0
      whole = omega arith
