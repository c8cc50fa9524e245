-- ===== src/RateLimit/Foretold.antt =====
-- `Check` of internal/taskmq/ratelimit/limiter.go foretells `TryConsume`.
use taskmq.Prelude.{
  ℕ, Bytes, ◌≡◌, ◌⊎◌, inl, inr, refl, ap, ◌∙◌, true, false, Bool, Bool-cases, if◌then◌else◌, Option,
  none, some, ◌||◌,
}
use taskmq.Prelude.Int.{ℤ, pos, leb_ℤ, scale}
use taskmq.Errors.{Error}
use taskmq.Redis.{StringValue, Commands, set_string}
use taskmq.Lifecycle.Scripts.{Reply, number, entry_id, script_error}
use taskmq.World.{
  Env, World, Fault, Answer, reply, failed, delivered, refused, lost, deliver, redis_error, run,
}
use taskmq.RateLimit.{
  Arithmetic, burst_of, emission_interval, arrival, allow_at, set_reply, on_key, script_on,
  wait_time, check, try_consume, checked, consumed, consume_value, check_value, gcra_check_script,
  gcra_try_consume_script,
}

-- What the script of Check does, and that of TryConsume: the same, without a write, for a reason; where
-- the first replies 0, the second sets the key, or fails as the server refuses to set it.
data Agree (Held : Type 0) (Token : StringValue → Type 0) (Unset : Type 0)
    : Option StringValue × Reply → Option StringValue × Reply → Type 0 where
  same : Held → (r : Reply) → Agree Held Token Unset (none, r) (none, r)
  taken :
      (v : StringValue)
      → Token v
      → Agree Held Token Unset (none, number (pos 0)) (some v, number (pos 0))
  unset : Unset → Agree Held Token Unset (none, number (pos 0)) (none, script_error)

module _ (a : Arithmetic) (c : Commands) where
  module _ (max duration : ℤ) (now : a.Num) (old : Option StringValue) where
    abbrev burst : ℤ
    burst = burst_of max

    abbrev interval : a.Num
    interval = emission_interval a max duration

    -- Whether the call has come before the time at which the limit lets it through
    abbrev is_early : a.Num → Bool
    is_early t = a.less now (allow_at a burst interval (a.max t now))

    abbrev token : a.Num → Option StringValue
    token t =
        let new_tat = a.add (a.max t now) interval in
        c.set_px (a.tostring new_tat) (scale (a.ceil (a.sub new_tat now)) 1000)

    -- The value of the key is no number, or the call is early.
    abbrev pub IsHeld : Type 0
    IsHeld =
        (arrival a now old ≡ none)
        ⊎ ((t : a.Num) × (arrival a now old ≡ some t) × (is_early t ≡ true))

    -- The call is not early, and this is the arrival time after a token, as the server stores it.
    abbrev pub IsToken : StringValue → Type 0
    IsToken v =
        (t : a.Num) × (arrival a now old ≡ some t) × (is_early t ≡ false) × (token t ≡ some v)

    -- The call is not early, and the server refuses to store that time.
    abbrev pub IsUnset : Type 0
    IsUnset = (t : a.Num) × (arrival a now old ≡ some t) × (is_early t ≡ false) × (token t ≡ none)

    abbrev Agreed : Option StringValue × Reply → Option StringValue × Reply → Type 0
    Agreed = Agree IsHeld IsToken IsUnset

    free-Agreed :
        (t : a.Num) (o : Option StringValue)
        → arrival a now old ≡ some t
        → is_early t ≡ false
        → token t ≡ o
        → Agreed (none, number (pos 0)) (set_reply o)
    free-Agreed t none read free set = unset (t, read, free, set)
    free-Agreed t (some v) read free set = taken v (t, read, free, set)

    value-Agreed :
        (o : Option a.Num)
        → arrival a now old ≡ o
        → Agreed (check_value a burst interval now o) (consume_value a c burst interval now o)
    unfolding checked consumed
    value-Agreed none read = same (inl read) script_error
    value-Agreed (some t) read = elim (Bool-cases (is_early t)) [
      | inl early ↦ rw early (same (inr (t, read, early)) _)
      | inr free ↦ rw free (free-Agreed t (token t) read free refl)
    ]

  scripts-Agree :
      (time : ℕ → a.Num) (max duration : ℤ) (n : ℕ) (old : Option StringValue)
      → Agree
          (IsHeld max duration (time n) old)
          (IsToken max duration (time n) old)
          (IsUnset max duration (time n) old)
          (gcra_check_script a time max duration n old)
          (gcra_try_consume_script a time c max duration n old)
  unfolding gcra_check_script gcra_try_consume_script
  scripts-Agree time max duration n old = value-Agreed max duration (time n) old _ refl

-- What a call of TryConsume does, by the one of Check in its place: the same, for the reason `Same`; or,
-- where Check lets the task through or its answer is lost, it stores a token and answers the same, or it
-- stores nothing and fails.
abbrev pub Foretold :
    Type 0
    → (StringValue → Type 0)
    → Type 0
    → Bytes
    → World
    → (Error ⊎ ℤ) × World
    → (Error ⊎ ℤ) × World
    → Type 0
Foretold Same Token Unset key w r s =
    (r.1.db ≡ w.db)
    × ((Same × (s ≡ r))
        ⊎ (((v : StringValue) × Token v
              × (s.0 ≡ r.0)
              × ((r.0 ≡ inr (pos 0)) ⊎ (r.0 ≡ inl redis_error))
              × (s.1 ≡ record (r.1) { db = set_string key (some v) w.db }))
            ⊎ (Unset
                × ((r.0 ≡ inr (pos 0)) ⊎ (r.0 ≡ inl redis_error))
                × (s.0 ≡ inl redis_error)
                × (s.1 ≡ r.1))))

-- Why TryConsume does what Check does: no limit is set, the script does not let the task through, or
-- the call was refused.
abbrev pub IsSame : ℤ → ℤ → Type 0 → Fault → Type 0
IsSame max duration Held f =
    ((leb_ℤ max (pos 0) || leb_ℤ duration (pos 0)) ≡ true) ⊎ (Held ⊎ (f ≡ refused))

pub wait_time-world : (a : Answer × World) → (wait_time a).1 ≡ a.1
wait_time-world (failed e, w) = refl
wait_time-world (reply (number n), w) = refl
wait_time-world (reply (entry_id n), w) = refl
wait_time-world (reply script_error, w) = refl

silent_db : (f : Fault) (r : Reply) (w : World) → (deliver f (λ db. (db, r)) w).1.db ≡ w.db
silent_db delivered r w = refl
silent_db refused r w = refl
silent_db lost r w = refl

module _ (max duration : ℤ) (Held : Type 0) (Token : StringValue → Type 0) (Unset : Type 0)
    (key : Bytes) (w : World) where
  abbrev ran : Fault → Option StringValue × Reply → (Error ⊎ ℤ) × World
  ran f g = wait_time (deliver f (on_key key g) w)

  silent : (f : Fault) (r : Reply) → (ran f (none, r)).1.db ≡ w.db
  silent f r =
      ap (λ (w : World). w.db) (wait_time-world (deliver f (on_key key (none, r)) w))
      ∙ silent_db f r w

  ran-Foretold :
      (f : Fault) {g h : Option StringValue × Reply}
      → Agree Held Token Unset g h
      → Foretold (IsSame max duration Held f) Token Unset key w (ran f g) (ran f h)
  ran-Foretold f (same held r) = (silent f r, inl (inr (inl held), refl))
  ran-Foretold delivered (taken v t) = (refl, inr (inl (v, t, refl, inl refl, refl)))
  ran-Foretold refused (taken v t) = (refl, inl (inr (inr refl), refl))
  ran-Foretold lost (taken v t) = (refl, inr (inl (v, t, refl, inr refl, refl)))
  ran-Foretold delivered (unset u) = (refl, inr (inr (u, inl refl, refl, refl)))
  ran-Foretold refused (unset u) = (refl, inl (inr (inr refl), refl))
  ran-Foretold lost (unset u) = (refl, inr (inr (u, inr refl, refl, refl)))

  if-Foretold :
      (Same : Type 0) (b : Bool) (x r s : (Error ⊎ ℤ) × World)
      → (b ≡ true → Foretold Same Token Unset key w x x)
      → Foretold Same Token Unset key w r s
      → Foretold Same Token Unset key w (if b then x else r) (if b then x else s)
  if-Foretold Same true x r s off on = off refl
  if-Foretold Same false x r s off on = on

-- Whatever the network does, and whatever the numbers: `Check` writes nothing, and `TryConsume` at the
-- same time does the same where no limit is set, the call is refused, the key holds no number, or the
-- call has come before the time at which the limit lets it through. Else, where `Check` lets the task
-- through or its answer is lost, it answers the same and stores the arrival time of the next task, or
-- fails where the server does not store it.
pub check-Foretold :
    (env : Env) (a : Arithmetic) (time : ℕ → a.Num) (key : Bytes) (max duration : ℤ) (w : World)
    → let now = time w.calls in
      let old = w.db.strings key in
      Foretold
        (IsSame max duration (IsHeld a env.commands max duration now old) (env.net w.calls))
        (IsToken a env.commands max duration now old)
        (IsUnset a env.commands max duration now old)
        key
        w
        (check env a time key max duration w)
        (try_consume env (gcra_try_consume_script a time env.commands) key max duration w)
unfolding check try_consume run
check-Foretold env a time key max duration w =
    if-Foretold max duration Held Token Unset key w (IsSame max duration Held (env.net w.calls))
      (leb_ℤ max (pos 0) || leb_ℤ duration (pos 0)) (inr (pos 0), w) _ _
      (λ off. (refl, inl (inl off, refl)))
      (elim (env.net w.calls)
        as (λ f.
          Foretold (IsSame max duration Held f) Token Unset key w
            (wait_time
              (deliver f (script_on (gcra_check_script a time) key max duration w.calls) w))
            (wait_time (
              deliver f
                (script_on (gcra_try_consume_script a time env.commands) key max duration w.calls)
                w))) [
                  | delivered ↦ ran-Foretold max duration Held Token Unset key w delivered agree
                  | refused ↦ ran-Foretold max duration Held Token Unset key w refused agree
                  | lost ↦ ran-Foretold max duration Held Token Unset key w lost agree
                ])
  where
    Held : Type 0
    Held = IsHeld a env.commands max duration (time w.calls) (w.db.strings key)

    Token : StringValue → Type 0
    Token = IsToken a env.commands max duration (time w.calls) (w.db.strings key)

    Unset : Type 0
    Unset = IsUnset a env.commands max duration (time w.calls) (w.db.strings key)

    agree :
        Agree Held Token Unset
          (gcra_check_script a time max duration w.calls (w.db.strings key))
          (gcra_try_consume_script a time env.commands max duration w.calls (w.db.strings key))
    agree = scripts-Agree a env.commands time max duration w.calls (w.db.strings key)
