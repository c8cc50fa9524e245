-- ===== src/Client/DeadLetters.antt =====
-- internal/taskmq/client/dlq.go, but for the listing: dead letters are retried, deleted and purged.
pub mod Outcomes
pub mod Orphans
pub mod Ending
use taskmq.Prelude.{
  ℕ, zero, suc, Bytes, codes, Bool, ◌⊎◌, inl, inr, List, [], ◌∷◌, ◌++◌, map, ◌=b◌, ◌==◌,
  if◌then◌else◌, is_some, Option, none, some,
}
use taskmq.Prelude.Int.{ℤ, pos}
use taskmq.Errors.{Error, message, wrap}
use taskmq.Task.{Task, zero_task}
use taskmq.Keys.{dlq, dlq_index}
use taskmq.Redis.{Db, Commands, set_zset, set_hash}
use taskmq.World.{World, call}
use taskmq.Client.{Client, identified, enqueue}

-- scripts/delete_dead_letter.lua
unfoldable pub delete_dead_letter_script : Commands → Bytes → Bytes → Bytes → Db → Db × ℕ
delete_dead_letter_script c dlq_key index_key task_id db =
    if is_some (db.hashes index_key task_id)
    then (
      set_hash index_key (c.hdel task_id (db.hashes index_key))
          (set_zset dlq_key (c.zrem task_id (db.zsets dlq_key)).0 db),
      1,
    )
    else (db, 0)

-- The error of a call, and what goes on with its result.
abbrev pub only_error : {A : Type 0} → (Error ⊎ A) × World → Option Error × World
only_error (inl e, w) = (some e, w)
only_error (inr a, w) = (none, w)

-- `task.Retry = 0` and `task.LastError = ""`
abbrev pub reset_task : Task → Task
reset_task t = record t { retry = pos 0; last_error = [] }

-- `RetryAllDeadLetters` has returned its count and error, or goes on with a count.
pub data Retrying : Type 0 where
  finished : ℕ → Option Error → World → Retrying
  unfinished : ℕ → World → Retrying

abbrev pub page : List Bytes → List (Option Bytes) → List (Bytes × Option Bytes)
page [] vs = []
page (id ∷ ids) [] = []
page (id ∷ ids) (v ∷ vs) = (id, v) ∷ page ids vs

module _ (c : Client) (queue : Bytes) where
  unfoldable pub delete_dead_letter : Bytes → World → Option Error × World
  delete_dead_letter task_id w = only_error (
      call c.env (delete_dead_letter_script c.env.commands (dlq queue) (dlq_index queue) task_id) w)

  abbrev pub then_delete : Bytes → Option Error × World → Option Error × World
  then_delete task_id (some e, w) = (some e, w)
  then_delete task_id (none, w) = delete_dead_letter task_id w

  abbrev pub retry_decoded : Bytes → Error ⊎ Task → World → Option Error × World
  retry_decoded task_id (inl e) w =
      (some (wrap (codes "failed to unmarshal dead letter task: ") e []), w)
  retry_decoded task_id (inr t) w = then_delete task_id (enqueue c (reset_task t) [] w)

  abbrev pub retry_found : Bytes → (Error ⊎ Option Bytes) × World → Option Error × World
  retry_found task_id (inl e, w) = (some e, w)
  retry_found task_id (inr none, w) =
      (some (message (codes "task ID " ++ (task_id ++ codes " not found in DLQ"))), w)
  retry_found task_id (inr (some serialized), w) =
      retry_decoded task_id (c.codec.unmarshal serialized zero_task) w

  -- `HGET`
  abbrev pub read_letter : Bytes → Db → Db × Option Bytes
  read_letter task_id db = (db, db.hashes (dlq_index queue) task_id)

  unfoldable pub retry_dead_letter : Bytes → World → Option Error × World
  retry_dead_letter task_id w = retry_found task_id (call c.env (read_letter task_id) w)

  -- `Enqueue` gives a task without an id a new one, which is the id that is deleted then.
  -- One letter of `RetryAllDeadLetters`, and the rest of the loop behind it.
  abbrev pub counted : ℕ → (ℕ → World → Retrying) → Option Error × World → Retrying
  counted total rest (some e, w) = finished total (some e) w
  counted total rest (none, w) = rest (suc total) w

  abbrev pub then_delete_own : Bytes → ℕ → (ℕ → World → Retrying) → Option Error × World → Retrying
  then_delete_own task_id total rest (some e, w) = finished total (some e) w
  then_delete_own task_id total rest (none, w) = counted total rest (delete_dead_letter task_id w)

  abbrev pub retry_one_decoded :
      Bytes → Error ⊎ Task → ℕ → (ℕ → World → Retrying) → World → Retrying
  retry_one_decoded task_id (inl e) total rest w = rest total (delete_dead_letter task_id w).1
  retry_one_decoded task_id (inr t) total rest w =
      then_delete_own (identified c (reset_task t)).id total rest (enqueue c (reset_task t) [] w)

  abbrev pub retry_one : Bytes → Option Bytes → ℕ → (ℕ → World → Retrying) → World → Retrying
  retry_one task_id none total rest w = rest total (delete_dead_letter task_id w).1
  retry_one task_id (some serialized) total rest w =
      retry_one_decoded task_id (c.codec.unmarshal serialized zero_task) total rest w

  unfoldable pub retry_each : List (Bytes × Option Bytes) → ℕ → World → Retrying
  retry_each [] total w = unfinished total w
  retry_each ((task_id, v) ∷ letters) total w = retry_one task_id v total (retry_each letters) w

  abbrev pub retry_page : List Bytes → ℕ → (Error ⊎ List (Option Bytes)) × World → Retrying
  retry_page ids total (inl e, w) = finished total (some e) w
  retry_page ids total (inr vs, w) = retry_each (page ids vs) total w

  -- `HMGET`
  abbrev pub read_letters : List Bytes → Db → Db × List (Option Bytes)
  read_letters ids db = (db, map (db.hashes (dlq_index queue)) ids)

  abbrev pub retry_listed : ℕ → (Error ⊎ List Bytes) × World → Retrying
  retry_listed total (inl e, w) = finished total (some e) w
  retry_listed total (inr [], w) = finished total none w
  retry_listed total (inr (id ∷ ids), w) =
      retry_page (id ∷ ids) total (call c.env (read_letters (id ∷ ids)) w)

  abbrev pub oldest_letters : Db → Db × List Bytes
  oldest_letters db = (db, c.env.commands.zrange (pos 0) (pos 99) (db.zsets (dlq queue)))

  unfoldable pub retry_round : ℕ → World → Retrying
  retry_round total w = retry_listed total (call c.env oldest_letters w)

  -- The loop of `RetryAllDeadLetters` on fuel: `none` means that the fuel ran out.
  unfoldable pub retry_all_dead_letters : ℕ → ℕ → World → Option (ℕ × Option Error × World)
  retry_all_dead_letters zero total w = none
  retry_all_dead_letters (suc fuel) total w = elim (retry_round total w) [
    | finished n e w' ↦ some (n, e, w')
    | unfinished n w' ↦ retry_all_dead_letters fuel n w'
  ]

  -- `DEL` of the two keys
  abbrev pub drop_letters : Db → Db × Unit {0}
  drop_letters db = (set_hash (dlq_index queue) (λ f. none) (set_zset (dlq queue) [] db), tt)

  abbrev pub purged : ℕ → (Error ⊎ Unit {0}) × World → (Error ⊎ ℕ) × World
  purged n (inl e, w) = (inl e, w)
  purged n (inr _, w) = (inr n, w)

  abbrev pub purge_counted : (Error ⊎ ℕ) × World → (Error ⊎ ℕ) × World
  purge_counted (inl e, w) = (inl e, w)
  purge_counted (inr n, w) = if n == 0 then (inr 0, w) else purged n (call c.env drop_letters w)

  unfoldable pub purge_all_dead_letters : World → (Error ⊎ ℕ) × World
  purge_all_dead_letters w =
      purge_counted (call c.env (λ db. (db, c.env.commands.zcard (db.zsets (dlq queue)))) w)
