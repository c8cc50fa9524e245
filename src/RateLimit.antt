-- ===== src/RateLimit.antt =====
-- internal/taskmq/ratelimit/limiter.go: the scripts of the limiter, and the methods that run them.
pub mod Foretold
pub mod Bypass
use taskmq.Prelude.{ℕ, Bytes, codes, Bool, ◌||◌, ◌⊎◌, inl, inr, if◌then◌else◌, Option, none, some}
use taskmq.Prelude.Int.{ℤ, pos, ltb_ℤ, leb_ℤ, ◌-ℤ◌, scale, wrap64}
use taskmq.Errors.{Error, message}
use taskmq.Redis.{Db, StringValue, Commands, set_string}
use taskmq.Lifecycle.Scripts.{Reply, number, script_error}
use taskmq.World.{Env, World, Answer, reply, failed, run}

-- Go's float64 and the numbers of Lua, which are the same, with `tonumber` and `tostring` of Lua. A
-- number that go-redis sends as an argument is read back as it was.
pub record Arithmetic : Type 1 where
  pub Num : Type 0
  pub of_int : ℤ → Num
  -- `duration.Seconds()`
  pub seconds : ℤ → Num
  pub add : Num → Num → Num
  pub sub : Num → Num → Num
  pub mul : Num → Num → Num
  pub div : Num → Num → Num
  pub max : Num → Num → Num
  pub less : Num → Num → Bool
  pub ceil : Num → ℤ
  pub tonumber : Bytes → Option Num
  pub tostring : Num → Bytes

-- What a script sets the key to, if it does, and its reply, by max and duration of the call, its number
-- among the calls, and the value of the key.
abbrev pub Gcra : Type 0
Gcra = ℤ → ℤ → ℕ → Option StringValue → Option StringValue × Reply

-- `burst := max - 1`, which is 0 at least
abbrev pub burst_of : ℤ → ℤ
burst_of max = if ltb_ℤ (max -ℤ pos 1) (pos 0) then pos 0 else max -ℤ pos 1

-- `SET key value EX seconds`, which fails at 0 seconds
abbrev pub set_reply : Option StringValue → Option StringValue × Reply
set_reply none = (none, script_error)
set_reply (some v) = (some v, number (pos 0))

module _ (a : Arithmetic) where
  open a use {Num, of_int, seconds, add, sub, mul, div, less, ceil, tonumber, tostring}

  abbrev pub emission_interval : ℤ → ℤ → Num
  emission_interval max duration = div (seconds duration) (of_int max)

  -- `tonumber(redis.call("GET", key) or now_sec)`; `none` is nil, with which the script fails.
  abbrev pub arrival : Num → Option StringValue → Option Num
  arrival now none = some now
  arrival now (some v) = tonumber v.value

  -- `allow_at`, by `tat`, burst and interval
  abbrev pub allow_at : ℤ → Num → Num → Num
  allow_at burst interval tat = sub tat (mul interval (of_int burst))

  abbrev pub wait_ms : Num → Num → ℤ
  wait_ms now at = ceil (mul (sub at now) (of_int (pos 1000)))

  unfoldable pub checked : ℤ → Num → Num → Num → ℤ
  checked burst interval now tat =
      let at = allow_at burst interval tat in if less now at then wait_ms now at else pos 0

  unfoldable pub consumed : Commands → ℤ → Num → Num → Num → Option StringValue × Reply
  consumed c burst interval now tat =
      let at = allow_at burst interval tat in
      let new_tat = add tat interval in
      if less now at
      then (none, number (wait_ms now at))
      else set_reply (c.set_px (tostring new_tat) (scale (ceil (sub new_tat now)) 1000))

  abbrev pub check_value : ℤ → Num → Num → Option Num → Option StringValue × Reply
  check_value burst interval now none = (none, script_error)
  check_value burst interval now (some t) =
      (none, number (checked burst interval now (a.max t now)))

  abbrev pub consume_value : Commands → ℤ → Num → Num → Option Num → Option StringValue × Reply
  consume_value c burst interval now none = (none, script_error)
  consume_value c burst interval now (some t) = consumed c burst interval now (a.max t now)

  -- The scripts; `time` is the server's `now_sec` at each call.
  module _ (time : ℕ → Num) where
    unfoldable pub gcra_check_script : Gcra
    gcra_check_script max duration n old =
        check_value (burst_of max) (emission_interval max duration) (time n) (arrival (time n) old)

    unfoldable pub gcra_try_consume_script : Commands → Gcra
    gcra_try_consume_script c max duration n old =
        consume_value c (burst_of max) (emission_interval max duration) (time n)
          (arrival (time n) old)

abbrev pub on_key : Bytes → Option StringValue × Reply → Db → Db × Reply
on_key key (none, r) db = (db, r)
on_key key (some v, r) db = (set_string key (some v) db, r)

abbrev pub script_on : Gcra → Bytes → ℤ → ℤ → ℕ → Db → Db × Reply
script_on g key max duration n db = on_key key (g max duration n (db.strings key)) db

-- The wait in nanoseconds
abbrev pub wait_time : Answer × World → (Error ⊎ ℤ) × World
wait_time (failed e, w) = (inl e, w)
wait_time (reply (number n), w) =
    (inr (if ltb_ℤ (pos 0) n then wrap64 (scale n 1000000) else pos 0), w)
wait_time (reply _, w) = (inl (message (codes "unexpected script result type")), w)

-- What `Check` and `TryConsume` share: they differ in the script only.
abbrev pub eval_script : Env → Gcra → Bytes → ℤ → ℤ → World → (Error ⊎ ℤ) × World
eval_script env g key max duration w =
    if leb_ℤ max (pos 0) || leb_ℤ duration (pos 0)
    then (inr (pos 0), w)
    else wait_time (run env (script_on g key max duration w.calls) w)

unfoldable pub check :
    Env → (a : Arithmetic) → (ℕ → a.Num) → Bytes → ℤ → ℤ → World → (Error ⊎ ℤ) × World
check env a time = eval_script env (gcra_check_script a time)

-- A worker gives the script with its numbers as one argument.
unfoldable pub try_consume : Env → Gcra → Bytes → ℤ → ℤ → World → (Error ⊎ ℤ) × World
try_consume env g = eval_script env g
