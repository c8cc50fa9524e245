-- ===== src/Lifecycle/Admission.antt =====
-- The Go functions around the admission scripts: internal/taskmq/lifecycle/admission.go and the end of
-- internal/taskmq/lifecycle/lifecycle.go.
use taskmq.Prelude.{zero, suc, Bytes, codes, Bool, ◌&&◌, if◌then◌else◌, Option, none, some}
use taskmq.Prelude.Int.{ℤ, pos, negsuc, ltb_ℤ, leb_ℤ}
use taskmq.Errors.{
  Error, sentinel, message, err_duplicate_task, err_queue_full, err_delayed_full, err_member_gone,
}
use taskmq.Keys.{stream}
use taskmq.Lifecycle.Config.{stream_limits, delayed_limits, Config}
use taskmq.Lifecycle.Metrics.{
  Lifecycle, Counter, enqueue_rejected, delayed_rejected, soft_limit_hits, observe,
}
use taskmq.Lifecycle.Scripts.{
  Reply, number, entry_id, script_error, enqueue_stream, enqueue_delayed_with_limit,
  force_promote_member,
}
use taskmq.World.{Env, World, Answer, reply, failed, run}

abbrev pub count : Counter → Option Lifecycle → Option Lifecycle
count name none = none
count name (some l) = some (observe name (pos 1) l)

abbrev pub limits_of : Option Lifecycle → Option Config
limits_of none = none
limits_of (some l) = some l.cfg

-- `MapEnqueueScriptResult`; its argument `delayed` is not used. An error reply never gets here.
unfoldable pub map_enqueue_script_result :
    Reply → Option Lifecycle → Option Error × Option Lifecycle
map_enqueue_script_result (entry_id n) l = (none, l)
map_enqueue_script_result script_error l =
    (some (message (codes "taskmq: unexpected enqueue script result type")), l)
map_enqueue_script_result (number (pos n)) l = (none, l)
map_enqueue_script_result (number (negsuc zero)) l = (some (sentinel err_duplicate_task), l)
map_enqueue_script_result (number (negsuc (suc zero))) l =
    (some (sentinel err_queue_full), count enqueue_rejected l)
map_enqueue_script_result (number (negsuc (suc (suc zero)))) l =
    (some (sentinel err_delayed_full), count delayed_rejected l)
map_enqueue_script_result (number (negsuc (suc (suc (suc n))))) l =
    (some (message (codes "taskmq: enqueue script returned")), l)

-- A script's result through `MapEnqueueScriptResult`.
unfoldable pub mapped : Answer × World → Option Error × World
mapped (failed e, w) = (some e, w)
mapped (reply r, w) =
    let m = map_enqueue_script_result r w.lifecycle in (m.0, record w { lifecycle = m.1 })

module _ (env : Env) where
  unfoldable pub x_add_task : Bytes → Bytes → World → Option Error × World
  x_add_task stream_key payload w =
      let (hard, maxlen) = stream_limits (limits_of w.lifecycle) in
      mapped (run env (enqueue_stream env.commands stream_key hard maxlen payload) w)

  -- `zAddDelayed`: a system requeue drops the farthest, whatever the policy, under a limit.
  unfoldable pub z_add_delayed : Bytes → ℤ → Bytes → Bool → World → Option Error × World
  z_add_delayed delayed_key score payload system w =
      let (limit, flag) = delayed_limits (limits_of w.lifecycle) in
      let overflow = if system && ltb_ℤ (pos 0) limit then pos 1 else flag in
      mapped (
        run env (enqueue_delayed_with_limit env.commands delayed_key score payload limit overflow)
          w)

  -- The replies of force_promote_member.lua.
  abbrev pub promoted : Answer × World → Option Error × World
  promoted (failed e, w) = (some e, w)
  promoted (reply (number (pos zero)), w) = (some (sentinel err_member_gone), w)
  promoted (reply (number (pos (suc zero))), w) = (none, w)
  promoted (reply (number (negsuc (suc zero))), w) =
      (some (sentinel err_queue_full), record w { lifecycle = count enqueue_rejected w.lifecycle })
  promoted (reply _, w) = (some (message (codes "taskmq: force-promote returned")), w)

  unfoldable pub force_promote : Bytes → Bytes → Bytes → World → Option Error × World
  force_promote delayed_key stream_key member w =
      let (hard, maxlen) = stream_limits (limits_of w.lifecycle) in
      promoted
        (run env (force_promote_member env.commands delayed_key stream_key member hard maxlen) w)

  abbrev pub soft_limit_seen : ℤ → Answer × World → World
  soft_limit_seen soft (reply (number n), w) =
      if leb_ℤ soft n then record w { lifecycle = count soft_limit_hits w.lifecycle } else w
  soft_limit_seen soft (_, w) = w

  -- `NoteSoftLimitIfNeeded`
  unfoldable pub note_soft_limit_if_needed : Bytes → World → World
  note_soft_limit_if_needed queue w = elim w.lifecycle [
    | none ↦ w
    | some l ↦
        (if leb_ℤ l.cfg.enqueue_soft_limit (pos 0)
          then w
          else soft_limit_seen l.cfg.enqueue_soft_limit (
              run env (λ db. (db, number (pos (env.commands.xlen (db.streams (stream queue)))))) w))
  ]
