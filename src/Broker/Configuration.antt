-- ===== src/Broker/Configuration.antt =====
-- No method of `redisBroker` changes the configuration it reads.
use taskmq.Prelude.{
  ℕ, ◌≡◌, ◌⊎◌, inl, inr, refl, ◌∙◌, Bytes, Bool-cases, Option, none, some, zero, suc,
}
use taskmq.Prelude.Int.{ℤ, pos, negsuc, ltb_ℤ}
use taskmq.Errors.{Error}
use taskmq.Task.{Task}
use taskmq.Redis.{Db}
use taskmq.Codec.Interface.{Codec}
use taskmq.Lifecycle.Metrics.{Lifecycle, observe, inc_metric, dlq_evicted}
use taskmq.Lifecycle.Scripts.{Reply, number, entry_id, script_error}
use taskmq.World.{
  Env, World, Answer, reply, failed, Fault, delivered, refused, lost, deliver, run, now,
}
use taskmq.Broker.Transitions.{
  settled, encoded, lifecycle_config, report_dead, move_to_dlq, schedule_retry,
  defer_rate_limited_task, complete_task,
}

abbrev pub SameConfig : World → World → Type 0
SameConfig w w' = lifecycle_config w' ≡ lifecycle_config w

deliver-SameConfig :
    (f : Fault) (script : Db → Db × Reply) (w : World) → SameConfig w (deliver f script w).1
deliver-SameConfig delivered script w = refl
deliver-SameConfig refused script w = refl
deliver-SameConfig lost script w = refl

pub run-SameConfig :
    (env : Env) (script : Db → Db × Reply) (w : World) → SameConfig w (run env script w).1
unfolding run
run-SameConfig env script w = deliver-SameConfig (env.net w.calls) script w

settled-SameConfig :
    (next : Reply → World → World) (a : Answer × World)
    → ((r : Reply) (w : World) → SameConfig w (next r w))
    → SameConfig a.1 (settled next a).1
settled-SameConfig next (failed e, w) h = refl
settled-SameConfig next (reply r, w) h = h r w

inc_metric-cfg :
    (n : ℤ) (l : Option Lifecycle) (w : World)
    → SameConfig (record w { lifecycle = l }) (record w { lifecycle = inc_metric dlq_evicted n l })
unfolding inc_metric observe
inc_metric-cfg n none w = refl
inc_metric-cfg (pos zero) (some l) w = refl
inc_metric-cfg (pos (suc n)) (some l) w = refl
inc_metric-cfg (negsuc n) (some l) w = refl

report_dead-SameConfig : (t : Task) (r : Reply) (w : World) → SameConfig w (report_dead t r w)
report_dead-SameConfig t (number n) w = elim (Bool-cases (ltb_ℤ (pos 0) n)) [
  | inl some_evicted ↦ rw some_evicted (inc_metric-cfg n w.lifecycle w)
  | inr none_evicted ↦ rw none_evicted refl
]
report_dead-SameConfig t (entry_id n) w = refl
report_dead-SameConfig t script_error w = refl

encoded-SameConfig :
    (e : Error ⊎ Bytes) (step : Bytes → World → Option Error × World) (w : World)
    → ((s : Bytes) → SameConfig w (step s w).1)
    → SameConfig w (encoded e step w).1
encoded-SameConfig (inl e) step w h = refl
encoded-SameConfig (inr s) step w h = h s

module _ (env : Env) (codec : Codec) (t : Task) (msg_id : ℕ) (group : Bytes) (w : World) where
  pub complete_task-SameConfig :
      (stream_key : Bytes) → SameConfig w (complete_task env t stream_key msg_id group w).1
  unfolding complete_task
  complete_task-SameConfig stream_key =
      settled-SameConfig _ (run env _ w) (λ r w. refl) ∙ run-SameConfig env _ w

  pub schedule_retry-SameConfig :
      (stream_key : Bytes) (run_at : ℤ)
      → SameConfig w (schedule_retry env codec t stream_key msg_id group run_at w).1
  unfolding schedule_retry
  schedule_retry-SameConfig stream_key run_at =
      encoded-SameConfig (codec.marshal t) _ w
        (λ s. settled-SameConfig _ (run env _ w) (λ r w. refl) ∙ run-SameConfig env _ w)

  pub defer_rate_limited_task-SameConfig :
      (run_at : ℤ) → SameConfig w (defer_rate_limited_task env codec msg_id t group run_at w).1
  unfolding defer_rate_limited_task
  defer_rate_limited_task-SameConfig run_at =
      encoded-SameConfig (codec.marshal t) _ w
        (λ s. settled-SameConfig _ (run env _ w) (λ r w. refl) ∙ run-SameConfig env _ w)

  pub move_to_dlq-SameConfig :
      (stream_key dlq_name : Bytes)
      → SameConfig w (move_to_dlq env codec t stream_key msg_id group dlq_name w).1
  unfolding move_to_dlq
  move_to_dlq-SameConfig stream_key dlq_name = encoded-SameConfig (codec.marshal t) _ w (λ s.
      settled-SameConfig (report_dead t) (run env _ (now env w).1) (report_dead-SameConfig t)
      ∙ run-SameConfig env _ (now env w).1)
