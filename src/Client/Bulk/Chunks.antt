-- ===== src/Client/Bulk/Chunks.antt =====
-- Where a group of `EnqueueBulk` of internal/taskmq/client/enqueue.go files what has failed.
use mathlib.Core.List.{foldr}
use taskmq.Prelude.{
  ℕ, zero, suc, ◌+◌, ◌≡◌, ◌≢◌, ◌≤◌, ◌⊎◌, inl, inr, refl, ap, sym, Bytes, Bool, List, [], ◌∷◌, ◌++◌,
  ◌==◌, ◌=b◌, length, take, drop, ltb, if◌then◌else◌, if-both, Option, none, some, is_some, arith,
  All,
}
use taskmq.Errors.{Error}
use taskmq.Redis.{Db}
use taskmq.Lifecycle.Scripts.{Reply, number, entry_id, script_error}
use taskmq.Lifecycle.Metrics.{Lifecycle, check_payload_size}
use taskmq.Lifecycle.Admission.{map_enqueue_script_result}
use taskmq.World.{Env, World, Answer, reply, failed, run, delivered, refused, lost, deliver, answer}
use taskmq.Client.{Client, stream_script}
use taskmq.Client.Bulk.{
  BulkItem, BulkResult, Group, Prepared, failed_at, add_item, load_scripts, Preparation,
  with_prepared, prepare_failed, prepare_encoded, prepare_sized, prepare, exec, Chunk, item_mapped,
  item_result, results, run_chunk, then_chunks, run_chunks, prepared,
}

abbrev pub one_if : Bool → ℕ
one_if b = if b then 1 else 0

-- How often an index is listed
unfoldable pub occurrences : ℕ → List ℕ → ℕ
occurrences k [] = 0
occurrences k (i ∷ is) = one_if (i == k) + occurrences k is

occurrences-append :
    (k i : ℕ) (is : List ℕ) → occurrences k (is ++ (i ∷ [])) ≡ one_if (i == k) + occurrences k is
unfolding occurrences
occurrences-append k i [] = refl
occurrences-append k i (j ∷ is) = omega (arith, occurrences-append k i is)

-- No call is answered.
abbrev pub IsSilent : Env → Type 0
IsSilent env = (n : ℕ) → env.net n ≢ delivered

module _ (c : Client) (fail_fast : Bool) (k : ℕ) where
  -- How often the index is among what is still to be done
  abbrev pub open_items : List BulkItem → ℕ
  open_items = foldr (λ (it : BulkItem) (n : ℕ). one_if (it.idx == k) + n) 0

  abbrev pub open_groups : List Group → ℕ
  open_groups = foldr (λ (g : Group) (n : ℕ). open_items g.1 + n) 0

  abbrev open_prepared : List Prepared → ℕ
  open_prepared = foldr (λ (p : Prepared) (n : ℕ). one_if (p.item.idx == k) + n) 0

  abbrev open_answers : List (Prepared × Answer) → ℕ
  open_answers = foldr (λ (a : Prepared × Answer) (n : ℕ). one_if (a.0.item.idx == k) + n) 0

  -- The index is to be done or has failed b times at most.
  abbrev pub Filed : ℕ → ℕ → BulkResult → Type 0
  Filed b n out =
      (n + occurrences k out.failed_indexes ≤ b)
      × (is_some (out.errors k) ≡ ltb 0 (occurrences k out.failed_indexes))
      × (IsSilent c.env → out.succeeded ≡ [])

  pub Filed-less : (b n m : ℕ) (out : BulkResult) → m ≤ n → Filed b n out → Filed b m out
  Filed-less b n m out le (few, known, silent) = (omega arith, known, silent)

  pub failed_at-Filed :
      (b n i : ℕ) (e : Error) (out : BulkResult)
      → Filed b (one_if (i == k) + n) out
      → Filed b n (failed_at i e out)
  failed_at-Filed b n i e out (few, known, silent) = (
    omega (arith, occurrences-append k i out.failed_indexes),
    ground (arith, occurrences-append k i out.failed_indexes),
    silent,
  )

  pub add_item-open :
      (it : BulkItem) (gs : List Group)
      → open_groups (add_item it gs) ≡ one_if (it.idx == k) + open_groups gs
  unfolding add_item
  add_item-open it [] = omega arith
  add_item-open it ((q, its) ∷ gs) =
      if-both
        (λ (r : List Group).
          open_groups r ≡ one_if (it.idx == k) + (open_items its + open_groups gs))
        (q =b it.task.queue) (omega (arith, open_append its)) (omega (arith, add_item-open it gs))
    where
      open_append :
          (its : List BulkItem)
          → open_items (its ++ (it ∷ [])) ≡ one_if (it.idx == k) + open_items its
      open_append [] = refl
      open_append (x ∷ its) = omega (arith, open_append its)

  -- What a preparation leaves to be done, beside n
  abbrev Prepares : ℕ → ℕ → Preparation c fail_fast → Type 0
  Prepares b n (inl (e, out, w)) = Filed b n out
  Prepares b n (inr (ps, out, w)) = Filed b (open_prepared ps + n) out

  with_prepared-Prepares :
      (p : Prepared) (b n : ℕ) (r : Preparation c fail_fast)
      → Prepares b (one_if (p.item.idx == k) + n) r
      → Prepares b n (with_prepared c fail_fast p r)
  with_prepared-Prepares p b n (inl (e, out, w)) h = Filed-less b _ n out (omega arith) h
  with_prepared-Prepares p b n (inr (ps, out, w)) h = Filed-less b _ _ out (omega arith) h

  module _ (it : BulkItem) (rest : BulkResult → World → Preparation c fail_fast) (b m : ℕ)
      (goes : (n : ℕ) (out : BulkResult) (w : World)
        → Filed b (m + n) out
        → Prepares b n (rest out w)) where
    failed-Prepares :
        (n : ℕ) (e : Error) (out : BulkResult) (w : World)
        → Filed b (one_if (it.idx == k) + m + n) out
        → Prepares b n (prepare_failed c fail_fast it.idx e rest out w)
    failed-Prepares n e out w h =
        if-both (Prepares b n) fail_fast
          (Filed-less b (m + n) n (failed_at it.idx e out) (omega arith) filed)
          (goes n (failed_at it.idx e out) w filed)
      where
        filed : Filed b (m + n) (failed_at it.idx e out)
        filed = failed_at-Filed b (m + n) it.idx e out (Filed-less b _ _ out (omega arith) h)

    encoded-Prepares :
        (n : ℕ) (s : Error ⊎ Bytes) (out : BulkResult) (w : World)
        → Filed b (one_if (it.idx == k) + m + n) out
        → Prepares b n (prepare_encoded c fail_fast it s rest out w)
    encoded-Prepares n (inl e) out w h = failed-Prepares n e out w h
    encoded-Prepares n (inr s) out w h =
        with_prepared-Prepares (record { item = it; serialized = s }) b n (rest out w)
          (goes (one_if (it.idx == k) + n) out w (Filed-less b _ _ out (omega arith) h))

    sized-Prepares :
        (n : ℕ) (r : Option Error × Option Lifecycle) (out : BulkResult) (w : World)
        → Filed b (one_if (it.idx == k) + m + n) out
        → Prepares b n (prepare_sized c fail_fast it r rest out w)
    sized-Prepares n (some e, l) out w h = failed-Prepares n e out (record w { lifecycle = l }) h
    sized-Prepares n (none, l) out w h =
        encoded-Prepares n (c.codec.marshal it.task) out (record w { lifecycle = l }) h

  pub prepare-Prepares :
      (its : List BulkItem) (b n : ℕ) (out : BulkResult) (w : World)
      → Filed b (open_items its + n) out
      → Prepares b n (prepare c fail_fast its out w)
  unfolding prepare
  prepare-Prepares [] b n out w h = h
  prepare-Prepares (it ∷ its) b n out w h =
      sized-Prepares it (prepare c fail_fast its) b (open_items its)
        (λ n out w. prepare-Prepares its b n out w) n
        (check_payload_size it.task.payload w.lifecycle) out w h

  -- A reply is an answered call.
  abbrev IsHeard : Answer → Type 0
  IsHeard (failed e) = Unit
  IsHeard (reply r) = IsSilent c.env → ⊥

  exec-open :
      (ps : List Prepared) (w : World) → open_answers (exec c fail_fast ps w).0 ≡ open_prepared ps
  unfolding exec
  exec-open [] w = refl
  exec-open (p ∷ ps) w =
      ap (λ (n : ℕ). one_if (p.item.idx == k) + n)
        (exec-open ps (run c.env (stream_script c p.item.task p.serialized w) w).1)

  answer-IsHeard : (r : Reply) → (IsSilent c.env → ⊥) → IsHeard (answer r)
  answer-IsHeard (number n) heard = heard
  answer-IsHeard (entry_id n) heard = heard
  answer-IsHeard script_error heard = tt

  run-IsHeard : (script : Db → Db × Reply) (w : World) → IsHeard (run c.env script w).0
  unfolding run
  run-IsHeard script w =
      elim (c.env.net w.calls) as (λ f. f ≡ c.env.net w.calls → IsHeard (deliver f script w).0) [
        | delivered ↦ λ e. answer-IsHeard (script w.db).1 (λ silent. silent w.calls (sym e))
        | refused ↦ λ e. tt
        | lost ↦ λ e. tt
      ]
        refl

  exec-IsHeard : (ps : List Prepared) (w : World) → All (λ a. IsHeard a.1) (exec c fail_fast ps w).0
  unfolding exec
  exec-IsHeard [] w = tt
  exec-IsHeard (p ∷ ps) w =
      (run-IsHeard (stream_script c p.item.task p.serialized w) w, exec-IsHeard ps _)

  item_result-Filed :
      (p : Prepared) (a : Answer) (b n : ℕ) (ch : Chunk)
      → IsHeard a
      → Filed b (one_if (p.item.idx == k) + n) ch.out
      → Filed b n (item_result c fail_fast p a ch).out
  item_result-Filed p (failed e) b n ch heard h = failed_at-Filed b n p.item.idx e ch.out h
  item_result-Filed p (reply r) b n ch heard h =
      mapped-Filed (map_enqueue_script_result r ch.world.lifecycle)
    where
      mapped-Filed :
          (m : Option Error × Option Lifecycle) → Filed b n (item_mapped c fail_fast p m ch).out
      mapped-Filed (some e, l) = failed_at-Filed b n p.item.idx e ch.out h
      mapped-Filed (none, l) = (omega (arith, h.0), h.1, λ silent. absurd (heard silent))

  results-Filed :
      (answers : List (Prepared × Answer)) (b n : ℕ) (ch : Chunk)
      → All (λ a. IsHeard a.1) answers
      → Filed b (open_answers answers + n) ch.out
      → Filed b n (results c fail_fast answers ch).out
  unfolding results
  results-Filed [] b n ch heard h = Filed-less b _ n ch.out (omega arith) h
  results-Filed ((p, a) ∷ answers) b n ch heard h =
      results-Filed answers b n (item_result c fail_fast p a ch) heard.1 (
        item_result-Filed p a b (open_answers answers + n) ch heard.0
          (Filed-less b _ _ ch.out (omega arith) h))

  run_chunk-Filed :
      (ps : List Prepared) (b n : ℕ) (out : BulkResult) (w : World)
      → Filed b (open_prepared ps + n) out
      → Filed b n (run_chunk c fail_fast ps out w).out
  unfolding run_chunk
  run_chunk-Filed ps b n out w h =
      results-Filed (exec c fail_fast ps w).0 b n _ (exec-IsHeard ps w)
        (Filed-less b _ _ out (omega (arith, exec-open ps w)) h)

  open_split :
      (n : ℕ) (ps : List Prepared)
      → open_prepared (take n ps) + open_prepared (drop n ps) ≡ open_prepared ps
  open_split zero ps = omega arith
  open_split (suc n) [] = refl
  open_split (suc n) (p ∷ ps) = omega (arith, open_split n ps)

  then_chunks-Filed :
      (rest : BulkResult → World → Option Error × BulkResult × World) (b m n : ℕ) (ch : Chunk)
      → ((out : BulkResult) (w : World) → Filed b (m + n) out → Filed b n (rest out w).1)
      → Filed b (m + n) ch.out
      → Filed b n (then_chunks c fail_fast rest ch).1
  then_chunks-Filed rest b m n ch goes h =
      elim ch.first
        as (λ o.
          Filed b n
            (elim o as (λ o. Option Error × BulkResult × World) [
              | some e ↦ (some e, ch.out, ch.world)
              | none ↦ rest ch.out ch.world
            ]).1) [
              | some e ↦ Filed-less b (m + n) n ch.out (omega arith) h
              | none ↦ goes ch.out ch.world h
            ]

  run_chunks-Filed :
      (fuel : ℕ) (ps : List Prepared) (b n : ℕ) (out : BulkResult) (w : World)
      → Filed b (open_prepared ps + n) out
      → Filed b n (run_chunks c fail_fast fuel ps out w).1
  unfolding run_chunks
  run_chunks-Filed zero ps b n out w h = Filed-less b _ n out (omega arith) h
  run_chunks-Filed (suc fuel) [] b n out w h = Filed-less b _ n out (omega arith) h
  run_chunks-Filed (suc fuel) (p ∷ ps) b n out w h =
      then_chunks-Filed (run_chunks c fail_fast fuel (drop 1000 (p ∷ ps))) b
        (open_prepared (drop 1000 (p ∷ ps))) n (run_chunk c fail_fast (take 1000 (p ∷ ps)) out w)
        (λ out w. run_chunks-Filed fuel (drop 1000 (p ∷ ps)) b n out w)
        (run_chunk-Filed (take 1000 (p ∷ ps)) b (open_prepared (drop 1000 (p ∷ ps)) + n) out w (
          Filed-less b (open_prepared (p ∷ ps) + n) _ out (omega (arith, open_split 1000 (p ∷ ps)))
            h))

  pub prepared-Filed :
      (b n : ℕ) (r : Preparation c fail_fast)
      → Prepares b n r
      → Filed b n (prepared c fail_fast r).1
  prepared-Filed b n (inl (e, out, w)) h = h
  prepared-Filed b n (inr ([], out, w)) h = Filed-less b _ n out (omega arith) h
  prepared-Filed b n (inr (p ∷ ps, out, w)) h =
      run_chunks-Filed (length (p ∷ ps)) (p ∷ ps) b n out (load_scripts c fail_fast 5 w) h
