-- ===== src/Client/Bulk.antt =====
-- `EnqueueBulk` of internal/taskmq/client/enqueue.go: tasks are grouped by queue, and each group enters
-- its stream by pipelines of at most a thousand scripts.
pub mod Accounts
pub mod Chunks
pub mod Filing
use taskmq.Prelude.{
  ℕ, zero, suc, Bytes, codes, Bool, true, false, ◌⊎◌, inl, inr, List, [], ◌∷◌, ◌++◌, ◌==◌, ◌=b◌,
  length, take, drop, if◌then◌else◌, Option, none, some,
}
use taskmq.Prelude.Int.{ℤ, pos}
use taskmq.Prelude.Decimal.{decimal}
use taskmq.Errors.{Error, message}
use taskmq.Task.{Task}
use taskmq.Redis.{Db}
use taskmq.Lifecycle.Metrics.{Lifecycle, check_payload_size}
use taskmq.Lifecycle.Admission.{map_enqueue_script_result, note_soft_limit_if_needed}
use taskmq.World.{World, Answer, reply, failed, run, call}
use taskmq.Client.{Client, stream_script, report_enqueued}

pub record BulkItem : Type 0 where
  pub idx : ℕ
  pub task : Task

pub record BulkResult : Type 0 where
  pub succeeded : List Bytes
  pub errors : ℕ → Option Error
  pub failed_indexes : List ℕ

abbrev pub Group : Type 0
Group = Bytes × List BulkItem

pub record Prepared : Type 0 where
  pub item : BulkItem
  pub serialized : Bytes

-- The results so far: the first error, the tasks that entered the stream, the result and the world.
pub record Chunk : Type 0 where
  pub first : Option Error
  pub enqueued : List Task
  pub out : BulkResult
  pub world : World

abbrev pub empty_result : BulkResult
empty_result = record { succeeded = []; errors = λ i. none; failed_indexes = [] }

abbrev pub failed_at : ℕ → Error → BulkResult → BulkResult
failed_at i e out = record out {
  errors = λ j. if i == j then some e else out.errors j;
  failed_indexes = out.failed_indexes ++ (i ∷ []);
}

abbrev pub succeeded_as : Bytes → BulkResult → BulkResult
succeeded_as id out = record out { succeeded = out.succeeded ++ (id ∷ []) }

-- `byQueue[t.Queue] = append(...)`
unfoldable pub add_item : BulkItem → List Group → List Group
add_item it [] = (it.task.queue, it ∷ []) ∷ []
add_item it ((q, its) ∷ gs) =
    let rest = add_item it gs in
    if q =b it.task.queue then (q, its ++ (it ∷ [])) ∷ gs else (q, its) ∷ rest

abbrev pub nil_task : ℕ → Error
nil_task i = message (codes "taskmq: bulk task[" ++ (decimal (pos i) ++ codes "] is nil"))

-- `none` is a nil task; the n-th task without an id gets the n-th of the ids. With fail-fast an error
-- ends the call: `inl`.
unfoldable pub collect :
    Bool
    → (ℕ → Bytes)
    → ℕ
    → List (Option Task)
    → List Group
    → BulkResult
    → (Error × BulkResult) ⊎ (List Group × BulkResult)
collect fail_fast ids i [] gs out = inr (gs, out)
collect fail_fast ids i (none ∷ ts) gs out =
    let rest = collect fail_fast ids (suc i) ts gs (failed_at i (nil_task i) out) in
    if fail_fast then inl (nil_task i, failed_at i (nil_task i) out) else rest
collect fail_fast ids i (some t ∷ ts) gs out =
    collect fail_fast ids (suc i) ts
      (add_item (record { idx = i; task = record t { id = if t.id =b [] then ids i else t.id } })
        gs)
      out

-- The scripts are loaded one after the other until a call fails; the error is ignored.
abbrev pub loaded : (World → World) → (Error ⊎ Unit {0}) × World → World
loaded rest (inl e, w) = w
loaded rest (inr _, w) = rest w

module _ (c : Client) (fail_fast : Bool) where
  unfoldable pub load_scripts : ℕ → World → World
  load_scripts zero w = w
  load_scripts (suc n) w = loaded (load_scripts n) (call c.env (λ db. (db, tt)) w)

  -- What the loop of preparation gives: an error that ends the group, or the prepared items.
  abbrev pub Preparation : Type 0
  Preparation = (Error × BulkResult × World) ⊎ (List Prepared × BulkResult × World)

  abbrev pub with_prepared : Prepared → Preparation → Preparation
  with_prepared p (inl stop) = inl stop
  with_prepared p (inr (ps, out, w)) = inr (p ∷ ps, out, w)

  abbrev pub prepare_failed :
      ℕ → Error → (BulkResult → World → Preparation) → BulkResult → World → Preparation
  prepare_failed i e rest out w =
      if fail_fast then inl (e, failed_at i e out, w) else rest (failed_at i e out) w

  abbrev pub prepare_encoded :
      BulkItem
      → Error ⊎ Bytes
      → (BulkResult → World → Preparation)
      → BulkResult
      → World
      → Preparation
  prepare_encoded it (inl e) rest out w = prepare_failed it.idx e rest out w
  prepare_encoded it (inr s) rest out w =
      with_prepared (record { item = it; serialized = s }) (rest out w)

  abbrev pub prepare_sized :
      BulkItem
      → Option Error × Option Lifecycle
      → (BulkResult → World → Preparation)
      → BulkResult
      → World
      → Preparation
  prepare_sized it (some e, l) rest out w =
      prepare_failed it.idx e rest out (record w { lifecycle = l })
  prepare_sized it (none, l) rest out w =
      prepare_encoded it (c.codec.marshal it.task) rest out (record w { lifecycle = l })

  unfoldable pub prepare : List BulkItem → BulkResult → World → Preparation
  prepare [] out w = inr ([], out, w)
  prepare (it ∷ its) out w =
      prepare_sized it (check_payload_size it.task.payload w.lifecycle) (prepare its) out w

  -- The commands of a pipeline: any of them may fail.
  unfoldable pub exec : List Prepared → World → List (Prepared × Answer) × World
  exec [] w = ([], w)
  exec (p ∷ ps) w =
      let (a, w') = run c.env (stream_script c p.item.task p.serialized w) w in
      let (answers, w'') = exec ps w' in ((p, a) ∷ answers, w'')

  abbrev pub first_of : Option Error → Error → Option Error
  first_of (some e') e = some e'
  first_of none e = if fail_fast then some e else none

  abbrev pub item_failed : Prepared → Error → Chunk → Chunk
  item_failed p e ch = record ch {
    first = first_of ch.first e;
    out = failed_at p.item.idx e ch.out;
  }

  abbrev pub item_mapped : Prepared → Option Error × Option Lifecycle → Chunk → Chunk
  item_mapped p (some e, l) ch =
      item_failed p e (record ch { world = record ch.world { lifecycle = l } })
  item_mapped p (none, l) ch = record ch {
    enqueued = ch.enqueued ++ (p.item.task ∷ []);
    out = succeeded_as p.item.task.id ch.out;
    world = record ch.world { lifecycle = l };
  }

  abbrev pub item_result : Prepared → Answer → Chunk → Chunk
  item_result p (failed e) ch = item_failed p e ch
  item_result p (reply r) ch = item_mapped p (map_enqueue_script_result r ch.world.lifecycle) ch

  unfoldable pub results : List (Prepared × Answer) → Chunk → Chunk
  results [] ch = ch
  results ((p, a) ∷ rest) ch = results rest (item_result p a ch)

  abbrev pub report_all : List Task → World → World
  report_all [] w = w
  report_all (t ∷ ts) w = report_all ts (report_enqueued c t w)

  abbrev pub chunk_done : Chunk → Chunk
  chunk_done ch = record ch { world = report_all ch.enqueued ch.world }

  unfoldable pub run_chunk : List Prepared → BulkResult → World → Chunk
  run_chunk ps out w =
      let (answers, w') = exec ps w in
      chunk_done (results answers (record { first = none; enqueued = []; out = out; world = w' }))

  abbrev pub max_bulk_chunk_size : ℕ
  max_bulk_chunk_size = 1000

  abbrev pub then_chunks :
      (BulkResult → World → Option Error × BulkResult × World)
      → Chunk
      → Option Error × BulkResult × World
  then_chunks rest ch = elim ch.first [
    | some e ↦ (some e, ch.out, ch.world)
    | none ↦ rest ch.out ch.world
  ]

  -- The chunks of the prepared items; the fuel is their number.
  unfoldable pub run_chunks :
      ℕ → List Prepared → BulkResult → World → Option Error × BulkResult × World
  run_chunks zero ps out w = (none, out, w)
  run_chunks (suc fuel) [] out w = (none, out, w)
  run_chunks (suc fuel) (p ∷ ps) out w =
      then_chunks (run_chunks fuel (drop max_bulk_chunk_size (p ∷ ps)))
        (run_chunk (take max_bulk_chunk_size (p ∷ ps)) out w)

  abbrev pub prepared : Preparation → Option Error × BulkResult × World
  prepared (inl (e, out, w)) = (some e, out, w)
  prepared (inr ([], out, w)) = (none, out, w)
  prepared (inr (p ∷ ps, out, w)) = run_chunks (length (p ∷ ps)) (p ∷ ps) out (load_scripts 5 w)

  -- `pipelineImmediate`
  unfoldable pub pipeline_immediate : Group → BulkResult → World → Option Error × BulkResult × World
  pipeline_immediate (queue, []) out w = (none, out, w)
  pipeline_immediate (queue, it ∷ its) out w =
      prepared (prepare (it ∷ its) out (note_soft_limit_if_needed c.env queue w))

  abbrev pub then_groups :
      (BulkResult → World → Option Error × BulkResult × World)
      → Option Error × BulkResult × World
      → Option Error × BulkResult × World
  then_groups rest (none, out, w) = rest out w
  then_groups rest (some e, out, w) = if fail_fast then (some e, out, w) else rest out w

  abbrev pub finished_with : BulkResult → World → Option Error × BulkResult × World
  finished_with out w = elim out.failed_indexes [
    | [] ↦ (none, out, w)
    | i ∷ more ↦ (
      some (
          message (
            codes "taskmq: bulk enqueue finished with "
            ++ (decimal (pos (length (i ∷ more))) ++ codes " failure(s)"))),
      out,
      w,
    )
  ]

  unfoldable pub enqueue_groups :
      List Group → BulkResult → World → Option Error × BulkResult × World
  enqueue_groups [] out w = finished_with out w
  enqueue_groups (g ∷ gs) out w = then_groups (enqueue_groups gs) (pipeline_immediate g out w)

  abbrev pub collected :
      (List Group → List Group)
      → (Error × BulkResult) ⊎ (List Group × BulkResult)
      → World
      → Option Error × BulkResult × World
  collected order (inl (e, out)) w = (some e, out, w)
  collected order (inr (gs, out)) w = enqueue_groups (order gs) out w

  -- `order` is the order in which the map of the groups is iterated.
  unfoldable pub enqueue_bulk :
      (List Group → List Group)
      → (ℕ → Bytes)
      → List (Option Task)
      → World
      → Option Error × BulkResult × World
  enqueue_bulk order ids [] w = (none, empty_result, w)
  enqueue_bulk order ids (t ∷ ts) w =
      collected order (collect fail_fast ids 0 (t ∷ ts) [] empty_result) w
