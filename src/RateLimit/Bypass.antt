-- ===== src/RateLimit/Bypass.antt =====
-- A limit with a short interval, in internal/taskmq/ratelimit/limiter.go: Lua's `tostring` keeps 14 digits,
-- so that a time of today is stored to a tenth of a millisecond.
use taskmq.Prelude.{
  ℕ, zero, suc, Bytes, ◌≡◌, ◌⊎◌, inr, refl, ap, true, false, ◌||◌, List, [], ◌∷◌, All, Option, none,
  some, if-both, =b_refl,
}
use taskmq.Prelude.Int.{ℤ, pos, leb_ℤ, ltb_ℤ, scale}
use taskmq.Errors.{Error}
use taskmq.Redis.{StringValue}
use taskmq.Redis.Laws.{Laws}
use taskmq.Lifecycle.Scripts.{number}
use taskmq.World.{Env, World, delivered, deliver, run}
use taskmq.RateLimit.{
  Arithmetic, Gcra, burst_of, emission_interval, arrival, allow_at, script_on, wait_time,
  try_consume, consumed, gcra_try_consume_script,
}

-- The answers of n calls of TryConsume, one after the other
unfoldable pub try_consume_times : Env → Gcra → Bytes → ℤ → ℤ → ℕ → World → List (Error ⊎ ℤ)
try_consume_times env g key max duration zero w = []
try_consume_times env g key max duration (suc n) w =
    let r = try_consume env g key max duration w in
    r.0 ∷ try_consume_times env g key max duration n r.1

-- One interval after now is stored as a time that is not later than now.
pub record IsLostInterval (a : Arithmetic) (max duration : ℤ) (now : a.Num) : Type 0 where
  pub stored : a.Num
  pub read : a.tonumber (a.tostring (a.add now (emission_interval a max duration))) ≡ some stored
  pub not_later : a.max stored now ≡ now
  pub same : a.max now now ≡ now
  pub burst : a.less now (allow_at a (burst_of max) (emission_interval a max duration) now) ≡ false
  pub expiry :
      ltb_ℤ (pos 0) (scale (a.ceil (a.sub (a.add now (emission_interval a max duration)) now)) 1000)
      ≡ true

module _ (env : Env) (laws : Laws env.commands) (reliable : (n : ℕ) → env.net n ≡ delivered)
    (a : Arithmetic) (now : a.Num) (key : Bytes) (max duration : ℤ)
    (rounded : IsLostInterval a max duration now) where
  abbrev script : Gcra
  script = gcra_try_consume_script a (λ n. now) env.commands

  -- The key, if it is set, reads as a time that is not later than now.
  abbrev IsStale : Option StringValue → Type 0
  IsStale old = (t : a.Num) × (arrival a now old ≡ some t) × (a.max t now ≡ now)

  abbrev Admits : (Error ⊎ ℤ) × World → Type 0
  Admits r = (r.0 ≡ inr (pos 0)) × IsStale (r.1.db.strings key)

  script-IsStale :
      (n : ℕ) (old : Option StringValue)
      → IsStale old
      → (v : StringValue) × (script max duration n old ≡ (some v, number (pos 0)))
        × IsStale (some v)
  unfolding gcra_try_consume_script consumed
  script-IsStale n old (t, read, at_most) = (
    record {
      value = a.tostring (a.add now interval);
      ttl_ms = scale (a.ceil (a.sub (a.add now interval) now)) 1000;
    },
    rw (read, at_most, rounded.burst, laws.set_px_sets, rounded.expiry) refl,
    (rounded.stored, rounded.read, rounded.not_later),
  )
    where
      interval : a.Num
      interval = emission_interval a max duration

  try_consume-Admits :
      (w : World) → IsStale (w.db.strings key) → Admits (try_consume env script key max duration w)
  unfolding try_consume run
  try_consume-Admits w stale =
      if-both Admits (leb_ℤ max (pos 0) || leb_ℤ duration (pos 0)) (refl, stale)
        (rw (reliable w.calls) (stored (script-IsStale w.calls (w.db.strings key) stale)))
    where
      stored :
          (v : StringValue) × (script max duration w.calls (w.db.strings key)
              ≡ (some v, number (pos 0)))
            × IsStale (some v)
          → Admits (wait_time (deliver delivered (script_on script key max duration w.calls) w))
      stored (v, e, s) = rw (e, =b_refl key) (refl, s)

  times-All :
      (n : ℕ) (w : World)
      → IsStale (w.db.strings key)
      → All (λ r. r ≡ inr (pos 0)) (try_consume_times env script key max duration n w)
  unfolding try_consume_times
  times-All zero w stale = tt
  times-All (suc n) w stale =
      let admitted = try_consume-Admits w stale in
      (admitted.0, times-All n (try_consume env script key max duration w).1 admitted.1)

-- At a rate whose interval is lost when the time is stored, on a key that is not set, and with a network
-- that delivers its calls: any number of TryConsume calls at one time are all let through.
pub try_consume_times-AllAdmitted :
    (env : Env) (laws : Laws env.commands) (reliable : (n : ℕ) → env.net n ≡ delivered)
    (a : Arithmetic) (now : a.Num) (key : Bytes) (max duration : ℤ)
    (rounded : IsLostInterval a max duration now) (n : ℕ) (w : World)
    → w.db.strings key ≡ none
    → All
        (λ r. r ≡ inr (pos 0))
        (try_consume_times env
          (gcra_try_consume_script a (λ n. now) env.commands)
          key
          max
          duration
          n
          w)
try_consume_times-AllAdmitted env laws reliable a now key max duration rounded n w unset =
    times-All env laws reliable a now key max duration rounded n w
      (now, ap (arrival a now) unset, rounded.same)
