-- ===== src/Client/Bulk/Accounts.antt =====
-- Without fail-fast, `EnqueueBulk` of internal/taskmq/client/enqueue.go accounts for every task.
use mathlib.Core.List.Perm
use mathlib.Core.List.{Perm, foldr}
use native.Mathlib.Nat.{ℕ_set}
use taskmq.Prelude.{
  ℕ, zero, suc, ◌+◌, ◌≡◌, ◌≤◌, ◌<◌, ◌⊎◌, inl, inr, refl, ap, ◌∙◌, subst, Bytes, false, List, [],
  ◌∷◌, ◌=b◌, length, take, drop, length-append, length-take, length-drop, if◌then◌else◌, if-both,
  Option, none, some, arith,
}
use taskmq.Errors.{Error}
use taskmq.Task.{Task}
use taskmq.Lifecycle.Metrics.{Lifecycle, check_payload_size}
use taskmq.Lifecycle.Admission.{map_enqueue_script_result, note_soft_limit_if_needed}
use taskmq.World.{World, Answer, reply, failed, run}
use taskmq.Client.{Client, stream_script}
use taskmq.Client.Bulk.{
  BulkItem, BulkResult, Group, Prepared, failed_at, succeeded_as, add_item, nil_task, collect,
  load_scripts, Preparation, with_prepared, prepare_encoded, prepare_sized, prepare, exec, Chunk,
  item_mapped, item_result, results, run_chunk, then_chunks, run_chunks, prepared,
  pipeline_immediate, then_groups, finished_with, enqueue_groups, empty_result, collected,
  enqueue_bulk,
}

-- The tasks with an outcome.
abbrev pub settled : BulkResult → ℕ
settled out = length out.succeeded + length out.failed_indexes

failed_at-settled :
    (i : ℕ) (e : Error) (out : BulkResult) → settled (failed_at i e out) ≡ suc (settled out)
failed_at-settled i e out = omega (arith, length-append out.failed_indexes (i ∷ []))

succeeded_as-settled :
    (id : Bytes) (out : BulkResult) → settled (succeeded_as id out) ≡ suc (settled out)
succeeded_as-settled id out = omega (arith, length-append out.succeeded (id ∷ []))

abbrev total : List Group → ℕ
total = foldr (λ (g : Group) (n : ℕ). length g.1 + n) 0

add_item-total : (it : BulkItem) (gs : List Group) → total (add_item it gs) ≡ suc (total gs)
unfolding add_item
add_item-total it [] = refl
add_item-total it ((q, its) ∷ gs) =
    if-both (λ (r : List Group). total r ≡ suc (length its + total gs)) (q =b it.task.queue)
      (omega (arith, length-append its (it ∷ []))) (omega (arith, add_item-total it gs))

abbrev Collects : ℕ → (Error × BulkResult) ⊎ (List Group × BulkResult) → Type 0
Collects n (inl r) = ⊥
Collects n (inr (gs, out)) = total gs + settled out ≡ n

collect-Collects :
    (ids : ℕ → Bytes) (i : ℕ) (ts : List (Option Task)) (gs : List Group) (out : BulkResult) (n : ℕ)
    → n ≡ length ts + total gs + settled out
    → Collects n (collect false ids i ts gs out)
unfolding collect
collect-Collects ids i [] gs out n e = omega (arith, e)
collect-Collects ids i (none ∷ ts) gs out n e =
    collect-Collects ids (suc i) ts gs (failed_at i (nil_task i) out) n
      (omega (arith, e, failed_at-settled i (nil_task i) out))
collect-Collects ids i (some t ∷ ts) gs out n e =
    collect-Collects ids (suc i) ts (add_item it gs) out n (omega (arith, e, add_item-total it gs))
  where
    it : BulkItem
    it = record { idx = i; task = record t { id = if t.id =b [] then ids i else t.id } }

module _ (c : Client) where
  abbrev Prepares : ℕ → Preparation c false → Type 0
  Prepares n (inl r) = ⊥
  Prepares n (inr (ps, out, w)) = length ps + settled out ≡ n

  with_prepared-Prepares :
      (p : Prepared) (n : ℕ) (r : Preparation c false)
      → Prepares n r
      → Prepares (suc n) (with_prepared c false p r)
  with_prepared-Prepares p n (inl r) h = h
  with_prepared-Prepares p n (inr (ps, out, w)) h = omega (arith, h)

  module _ (it : BulkItem) (rest : BulkResult → World → Preparation c false) (n : ℕ)
      (goes : (out : BulkResult) (w : World) → Prepares (n + settled out) (rest out w)) where
    failed-Prepares :
        (e : Error) (out : BulkResult) (w : World)
        → Prepares (suc (n + settled out)) (rest (failed_at it.idx e out) w)
    failed-Prepares e out w =
        subst (λ k. Prepares k (rest (failed_at it.idx e out) w))
          (omega (arith, failed_at-settled it.idx e out)) (goes (failed_at it.idx e out) w)

    encoded-Prepares :
        (s : Error ⊎ Bytes) (out : BulkResult) (w : World)
        → Prepares (suc (n + settled out)) (prepare_encoded c false it s rest out w)
    encoded-Prepares (inl e) out w = failed-Prepares e out w
    encoded-Prepares (inr s) out w =
        with_prepared-Prepares (record { item = it; serialized = s }) (n + settled out) (rest out w)
          (goes out w)

    sized-Prepares :
        (r : Option Error × Option Lifecycle) (out : BulkResult) (w : World)
        → Prepares (suc (n + settled out)) (prepare_sized c false it r rest out w)
    sized-Prepares (some e, l) out w = failed-Prepares e out (record w { lifecycle = l })
    sized-Prepares (none, l) out w =
        encoded-Prepares (c.codec.marshal it.task) out (record w { lifecycle = l })

  prepare-Prepares :
      (its : List BulkItem) (out : BulkResult) (w : World)
      → Prepares (length its + settled out) (prepare c false its out w)
  unfolding prepare
  prepare-Prepares [] out w = refl
  prepare-Prepares (it ∷ its) out w =
      subst (λ k. Prepares k (prepare_sized c false it sized (prepare c false its) out w))
        (omega arith)
        (sized-Prepares it (prepare c false its) (length its) (prepare-Prepares its) sized out w)
    where
      sized : Option Error × Option Lifecycle
      sized = check_payload_size it.task.payload w.lifecycle

  length-exec : (ps : List Prepared) (w : World) → length (exec c false ps w).0 ≡ length ps
  unfolding exec
  length-exec [] w = refl
  length-exec (p ∷ ps) w =
      ap (λ (n : ℕ). suc n)
        (length-exec ps (run c.env (stream_script c p.item.task p.serialized w) w).1)

  -- n more tasks have an outcome, and no error ends the call.
  abbrev Continues : ℕ → Option Error → BulkResult → Type 0
  Continues n e out = (e ≡ none) × (settled out ≡ n)

  item_mapped-Continues :
      (p : Prepared) (r : Option Error × Option Lifecycle) (ch : Chunk) (n : ℕ)
      → Continues n ch.first ch.out
      → let ch' = item_mapped c false p r ch in Continues (suc n) ch'.first ch'.out
  item_mapped-Continues p (some e, l) ch n (no_error, h) =
      (rw no_error refl, failed_at-settled p.item.idx e ch.out ∙ ap (λ (k : ℕ). suc k) h)
  item_mapped-Continues p (none, l) ch n (no_error, h) =
      (no_error, succeeded_as-settled p.item.task.id ch.out ∙ ap (λ (k : ℕ). suc k) h)

  item_result-Continues :
      (p : Prepared) (a : Answer) (ch : Chunk) (n : ℕ)
      → Continues n ch.first ch.out
      → let ch' = item_result c false p a ch in Continues (suc n) ch'.first ch'.out
  item_result-Continues p (failed e) ch n (no_error, h) =
      (rw no_error refl, failed_at-settled p.item.idx e ch.out ∙ ap (λ (k : ℕ). suc k) h)
  item_result-Continues p (reply r) ch n h =
      item_mapped-Continues p (map_enqueue_script_result r ch.world.lifecycle) ch n h

  results-Continues :
      (answers : List (Prepared × Answer)) (ch : Chunk) (n : ℕ)
      → Continues n ch.first ch.out
      → let ch' = results c false answers ch in Continues (length answers + n) ch'.first ch'.out
  unfolding results
  results-Continues [] ch n h = (h.0, omega (arith, h.1))
  results-Continues ((p, a) ∷ answers) ch n h =
      subst
        (λ k.
          let ch' = results c false answers (item_result c false p a ch) in
          Continues k ch'.first ch'.out)
        (omega arith)
        (results-Continues answers (item_result c false p a ch) (suc n)
          (item_result-Continues p a ch n h))

  run_chunk-Continues :
      (ps : List Prepared) (out : BulkResult) (w : World)
      → let ch = run_chunk c false ps out w in Continues (length ps + settled out) ch.first ch.out
  unfolding run_chunk
  run_chunk-Continues ps out w =
      subst (λ (k : ℕ). Continues (k + settled out) ch.first ch.out) (length-exec ps w)
        (results-Continues (exec c false ps w).0 _ (settled out) (refl, refl))
    where
      ch : Chunk
      ch =
          results c false (exec c false ps w).0
            (record { first = none; enqueued = []; out = out; world = (exec c false ps w).1 })

  -- A group, or several, have an outcome for n tasks more, and no error ends the call.
  abbrev Passes : ℕ → Option Error × BulkResult × World → Type 0
  Passes n (e, out, w) = Continues n e out

  then_chunks-Passes :
      (n m : ℕ) (rest : BulkResult → World → Option Error × BulkResult × World) (ch : Chunk)
      → ((out : BulkResult) (w : World) → Passes (n + settled out) (rest out w))
      → Continues m ch.first ch.out
      → Passes (n + m) (then_chunks c false rest ch)
  then_chunks-Passes n m rest ch goes (no_error, h) =
      rw no_error (subst (λ k. Passes (n + k) (rest ch.out ch.world)) h (goes ch.out ch.world))

  run_chunks-Passes :
      (fuel : ℕ) (ps : List Prepared) (out : BulkResult) (w : World)
      → length ps ≤ fuel
      → Passes (length ps + settled out) (run_chunks c false fuel ps out w)
  unfolding run_chunks
  run_chunks-Passes zero [] out w h = (refl, omega arith)
  run_chunks-Passes zero (p ∷ ps) out w h = absurd (omega arith)
  run_chunks-Passes (suc fuel) [] out w h = (refl, omega arith)
  run_chunks-Passes (suc fuel) (p ∷ ps) out w h =
      subst (λ k. Passes k (then_chunks c false (run_chunks c false fuel later) chunk))
        (omega (arith, length-take 1000 (p ∷ ps), length-drop 1000 (p ∷ ps)))
        (then_chunks-Passes (length later) (length (take 1000 (p ∷ ps)) + settled out)
          (run_chunks c false fuel later) chunk
          (λ out w. run_chunks-Passes fuel later out w (omega (arith, length-drop 1000 (p ∷ ps))))
          (run_chunk-Continues (take 1000 (p ∷ ps)) out w))
    where
      later : List Prepared
      later = drop 1000 (p ∷ ps)

      chunk : Chunk
      chunk = run_chunk c false (take 1000 (p ∷ ps)) out w

  prepared-Passes : (n : ℕ) (r : Preparation c false) → Prepares n r → Passes n (prepared c false r)
  prepared-Passes n (inl r) h = elim h [ ]
  prepared-Passes n (inr ([], out, w)) h = (refl, omega (arith, h))
  prepared-Passes n (inr (p ∷ ps, out, w)) h =
      subst
        (λ k.
          Passes k (run_chunks c false (length (p ∷ ps)) (p ∷ ps) out (load_scripts c false 5 w)))
        h
        (run_chunks-Passes (length (p ∷ ps)) (p ∷ ps) out (load_scripts c false 5 w) (omega arith))

  pipeline_immediate-Passes :
      (g : Group) (out : BulkResult) (w : World)
      → Passes (length g.1 + settled out) (pipeline_immediate c false g out w)
  unfolding pipeline_immediate
  pipeline_immediate-Passes (queue, []) out w = (refl, omega arith)
  pipeline_immediate-Passes (queue, it ∷ its) out w =
      prepared-Passes (length (it ∷ its) + settled out) _
        (prepare-Prepares (it ∷ its) out (note_soft_limit_if_needed c.env queue w))

  -- No error is returned if and only if no task has failed.
  abbrev pub Reports : Option Error → List ℕ → Type 0
  Reports none is = is ≡ []
  Reports (some e) is = 0 < length is

  -- Of n tasks each has succeeded or failed, and an error tells that some have failed.
  abbrev pub IsAccounted : ℕ → Option Error × BulkResult × World → Type 0
  IsAccounted n (e, out, w) = (settled out ≡ n) × Reports e out.failed_indexes

  finished-Reports :
      (is : List ℕ) (out : BulkResult) (w : World)
      → out.failed_indexes ≡ is
      → IsAccounted (settled out) (finished_with c false out w)
  finished-Reports [] out w e = rw e (refl, refl)
  finished-Reports (i ∷ more) out w e = rw e (refl, omega arith)

  then_groups-IsAccounted :
      (n m : ℕ) (rest : BulkResult → World → Option Error × BulkResult × World)
      (r : Option Error × BulkResult × World)
      → ((out : BulkResult) (w : World) → IsAccounted (n + settled out) (rest out w))
      → Passes m r
      → IsAccounted (n + m) (then_groups c false rest r)
  then_groups-IsAccounted n m rest (none, out, w) goes (_, h) =
      subst (λ k. IsAccounted (n + k) (rest out w)) h (goes out w)
  then_groups-IsAccounted n m rest (some e, out, w) goes (_, h) =
      subst (λ k. IsAccounted (n + k) (rest out w)) h (goes out w)

  enqueue_groups-IsAccounted :
      (gs : List Group) (out : BulkResult) (w : World)
      → IsAccounted (total gs + settled out) (enqueue_groups c false gs out w)
  unfolding enqueue_groups
  enqueue_groups-IsAccounted [] out w =
      subst (λ k. IsAccounted k (finished_with c false out w)) (omega arith)
        (finished-Reports out.failed_indexes out w refl)
  enqueue_groups-IsAccounted (g ∷ gs) out w =
      subst
        (λ k.
          IsAccounted k
            (then_groups c false (enqueue_groups c false gs) (pipeline_immediate c false g out w)))
        (omega arith)
        (then_groups-IsAccounted (total gs) (length g.1 + settled out) (enqueue_groups c false gs)
          (pipeline_immediate c false g out w) (enqueue_groups-IsAccounted gs)
          (pipeline_immediate-Passes g out w))

  total-order :
      (order : List Group → List Group) (gs : List Group)
      → Perm (order gs) gs
      → total (order gs) ≡ total gs
  total-order order gs p =
      Perm.foldr-eq ℕ_set (λ (g : Group) (n : ℕ). length g.1 + n) (λ a b x. omega arith) p 0

  collected-IsAccounted :
      (order : List Group → List Group) (n : ℕ)
      (r : (Error × BulkResult) ⊎ (List Group × BulkResult)) (w : World)
      → ((gs : List Group) → Perm (order gs) gs)
      → Collects n r
      → IsAccounted n (collected c false order r w)
  collected-IsAccounted order n (inl r) w perm h = elim h [ ]
  collected-IsAccounted order n (inr (gs, out)) w perm h =
      subst (λ k. IsAccounted k (enqueue_groups c false (order gs) out w))
        (omega (arith, h, total-order order gs (perm gs)))
        (enqueue_groups-IsAccounted (order gs) out w)

  -- Whatever calls fail and whatever order the queues are taken in: without fail-fast, the tasks that
  -- have succeeded and those that have failed are as many as there are tasks, and `EnqueueBulk` returns
  -- an error if and only if some have failed.
  pub enqueue_bulk-IsAccounted :
      (order : List Group → List Group) (ids : ℕ → Bytes) (ts : List (Option Task)) (w : World)
      → ((gs : List Group) → Perm (order gs) gs)
      → IsAccounted (length ts) (enqueue_bulk c false order ids ts w)
  unfolding enqueue_bulk
  enqueue_bulk-IsAccounted order ids [] w perm = (refl, refl)
  enqueue_bulk-IsAccounted order ids (t ∷ ts) w perm =
      collected-IsAccounted order (length (t ∷ ts)) (collect false ids 0 (t ∷ ts) [] empty_result) w
        perm (collect-Collects ids 0 (t ∷ ts) [] empty_result (length (t ∷ ts)) (omega arith))
