-- ===== src/Client/Control.antt =====
-- internal/taskmq/client/control.go: pausing queues and cancelling tasks, for the workers that listen.
pub mod Listening
use taskmq.Prelude.{
  ℕ, ◌*◌, Bytes, codes, Bool, ◌⊎◌, inl, inr, if◌then◌else◌, is_some, [], Option, none, some,
}
use taskmq.Prelude.Int.{ℤ, pos, ltb_ℤ}
use taskmq.Errors.{Error, wrap}
use taskmq.Task.{milliseconds}
use taskmq.Keys.{paused, control, cancelled, cancel_channel}
use taskmq.Redis.{Db, Commands, set_string}
use taskmq.Lifecycle.Config.{Config, day}
use taskmq.World.{Env, World, call, perform, notify, Fault, delivered, refused, lost}

-- `SET key "1"`, which does not expire, and `DEL key`
abbrev pub set_marker : Bytes → Db → Db × Unit {0}
set_marker key db = (set_string key (some (record { value = codes "1"; ttl_ms = pos 0 })) db, tt)

abbrev pub del_marker : Bytes → Db → Db × Unit {0}
del_marker key db = (set_string key none db, tt)

-- `PUBLISH`: a message goes out unless the call is refused.
abbrev pub published : Fault → Bytes → Bytes → World → World
published delivered channel payload w = perform (notify channel payload) w
published refused channel payload w = w
published lost channel payload w = perform (notify channel payload) w

module _ (env : Env) where
  abbrev err : (Error ⊎ Unit {0}) × World → Option Error × World
  err (inl e, w) = (some e, w)
  err (inr _, w) = (none, w)

  unfoldable pub publish_to : Bytes → Bytes → World → Option Error × World
  publish_to channel payload w =
      err (call env (λ db. (db, tt)) (published (env.net w.calls) channel payload w))

  abbrev and_publish : Bytes → Bytes → Bytes → (Error ⊎ Unit {0}) × World → Option Error × World
  and_publish failure channel payload (inl e, w) = (some (wrap failure e []), w)
  and_publish failure channel payload (inr _, w) = publish_to channel payload w

  unfoldable pub pause : Bytes → World → Option Error × World
  pause queue w =
      and_publish (codes "taskmq: failed to set pause marker: ") (control queue) (codes "pause")
        (call env (set_marker (paused queue)) w)

  unfoldable pub resume : Bytes → World → Option Error × World
  resume queue w =
      and_publish (codes "taskmq: failed to delete pause marker: ") (control queue) (codes "resume")
        (call env (del_marker (paused queue)) w)

  unfoldable pub is_paused : Bytes → World → (Error ⊎ Bool) × World
  is_paused queue w = call env (λ (db : Db). (db, is_some (db.strings (paused queue)))) w

  -- A day, or the lifecycle's positive `CancelledTTL`
  abbrev pub cancel_ttl : Option Config → ℤ
  cancel_ttl none = day
  cancel_ttl (some c) = if ltb_ℤ (pos 0) c.cancelled_ttl then c.cancelled_ttl else day

  -- `SET key "1" PX ttl`, of whole milliseconds
  abbrev pub set_cancelled : Bytes → ℤ → Db → Db × Unit {0}
  set_cancelled key ttl db =
      (set_string key (env.commands.set_px (codes "1") (milliseconds ttl)) db, tt)

  unfoldable pub cancel_task : Option Config → Bytes → Bytes → World → Option Error × World
  cancel_task lc queue task_id w =
      and_publish (codes "taskmq: failed to set cancel marker: ") (cancel_channel queue) task_id
        (call env (set_cancelled (cancelled queue task_id) (cancel_ttl lc)) w)
