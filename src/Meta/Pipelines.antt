-- ===== src/Meta/Pipelines.antt =====
-- `PutPipelined` of internal/taskmq/meta/meta.go: a pipeline of puts, against Put of each task.
use taskmq.Prelude.{
  ℕ, suc, ◌≡◌, refl, ◌∙◌, ap, ◌=b◌, List, [], ◌∷◌, ◌++◌, if◌then◌else◌, Bool-cases, inl, inr,
}
use taskmq.Task.{Task, unix_milli}
use taskmq.Keys.{meta}
use taskmq.Redis.{Db}
use taskmq.World.{Env, World, call, now, delivered}
use taskmq.Prelude.{codes, Bytes}
use taskmq.Prelude.Int.{ℤ}
use taskmq.Prelude.Decimal.{decimal}
use taskmq.Meta.{Fields, is_zero_time, put_fields, created_ms, hset_script, put}

-- The commands that a pipeline has queued, and their run
abbrev pub Pipeline : Type 0
Pipeline = List (Db → Db)

unfoldable pub exec_all : Pipeline → Db → Db
exec_all [] db = db
exec_all (command ∷ rest) db = exec_all rest (command db)

-- The fields that PutPipelined writes, of its own
abbrev pub pipelined_fields : Task → Bytes → ℤ → Fields
pipelined_fields t state now_ms =
    (codes "id", t.id)
    ∷ (codes "queue", t.queue)
    ∷ (codes "name", t.name)
    ∷ (codes "state", state)
    ∷ (codes "retry", decimal t.retry)
    ∷ (codes "max_retry", decimal t.max_retry)
    ∷ (codes "timeout_ms", decimal t.timeout_ms)
    ∷ (codes "deadline_ms", decimal t.deadline_ms)
    ∷ (codes "unique_key", t.unique_key)
    ∷ (codes "group_key", t.group_key)
    ∷ (codes "last_error", t.last_error)
    ∷ (codes "updated_at", decimal now_ms)
    ∷ (
      codes "created_at",
      decimal (if is_zero_time t.created_at then now_ms else unix_milli t.created_at),
    )
    ∷ []

module _ (env : Env) where
  abbrev pub put_command : Task → Bytes → World → Db → Db
  put_command t state w db =
      (hset_script env.commands (meta t.queue t.id)
        (pipelined_fields t state (unix_milli (now env w).0)) db).0

  unfoldable pub put_pipelined : Pipeline → Task → Bytes → World → Pipeline × World
  put_pipelined pipe t state w =
      if t.id =b [] then (pipe, w) else (pipe ++ (put_command t state w ∷ []), (now env w).1)

  -- One put for each task, as by EnqueueBulk
  unfoldable pub pipeline_all : Pipeline → List Task → Bytes → World → Pipeline × World
  pipeline_all pipe [] state w = (pipe, w)
  pipeline_all pipe (t ∷ ts) state w =
      let (pipe, w) = put_pipelined pipe t state w in pipeline_all pipe ts state w

  unfoldable pub put_all : List Task → Bytes → World → World
  put_all [] state w = w
  put_all (t ∷ ts) state w = put_all ts state (put env t state w).1

exec_all-append : (p q : Pipeline) (db : Db) → exec_all (p ++ q) db ≡ exec_all q (exec_all p db)
unfolding exec_all
exec_all-append [] q db = refl
exec_all-append (c ∷ p) q db = exec_all-append p q (c db)

module _ (env : Env) (reliable : (n : ℕ) → env.net n ≡ delivered) (state : Bytes) where
  -- Both write the same fields.
  fields_agree : (t : Task) (at : ℤ) → pipelined_fields t state at ≡ put_fields t state at
  unfolding created_ms
  fields_agree t at = refl

  -- What a put has written, the pipeline will write, and both have read the clock as often.
  put-agrees :
      (t : Task) (pipe : Pipeline) (db : Db) (w v : World)
      → w.reads ≡ v.reads
      → exec_all pipe db ≡ v.db
      → (exec_all (put_pipelined env pipe t state w).0 db ≡ (put env t state v).1.db)
        × ((put_pipelined env pipe t state w).1.reads ≡ (put env t state v).1.reads)
  unfolding put_pipelined put call created_ms
  put-agrees t pipe db w v clock same = elim (Bool-cases (t.id =b [])) [
    | inl unnamed ↦ rw unnamed (same, clock)
    | inr named ↦
        rw (named, reliable v.calls)
          (
            exec_all-append pipe (put_command env t state w ∷ []) db
                ∙ (unfold exec_all in
                    ap (put_command env t state w) same
                    ∙ ap
                        (λ (n : ℕ).
                          (hset_script env.commands (meta t.queue t.id)
                            (pipelined_fields t state (unix_milli (env.clock n))) v.db).0)
                        clock),
            ap (λ (n : ℕ). suc n) clock,
          )
  ]

  pipeline_all-agrees :
      (ts : List Task) (pipe : Pipeline) (db : Db) (w v : World)
      → w.reads ≡ v.reads
      → exec_all pipe db ≡ v.db
      → exec_all (pipeline_all env pipe ts state w).0 db ≡ (put_all env ts state v).db
  unfolding pipeline_all put_all
  pipeline_all-agrees [] pipe db w v clock same = same
  pipeline_all-agrees (t ∷ ts) pipe db w v clock same =
      let (same', clock') = put-agrees t pipe db w v clock same in
      pipeline_all-agrees ts (put_pipelined env pipe t state w).0 db
        (put_pipelined env pipe t state w).1 (put env t state v).1 clock' same'

  -- With a reliable network, the pipeline that PutPipelined has filled for some tasks does to the
  -- server what Put of each task in turn does, from the same world.
  pub pipeline_all-put_all :
      (ts : List Task) (w : World)
      → exec_all (pipeline_all env [] ts state w).0 w.db ≡ (put_all env ts state w).db
  pipeline_all-put_all ts w = pipeline_all-agrees ts [] w.db w w refl (unfold exec_all in refl)
