-- ===== src/Client/DeadLetters/Outcomes.antt =====
-- What `RetryDeadLetter` and `DeleteDeadLetter` of internal/taskmq/client/dlq.go leave behind.
use taskmq.Prelude.{
  ℕ, ◌+◌, length, ◌≡◌, ◌⊎◌, inl, inr, refl, ap, ◌∙◌, subst, Bytes, true, false, ◌=b◌, =b_iff,
  =b_refl, [], is_some, if◌then◌else◌, if-split, Option, none, some, arith,
}
use taskmq.Errors.{Error}
use taskmq.Task.{Task, zero_task}
use taskmq.Keys.{dlq, dlq_index}
use taskmq.Redis.{Db, ZSet, Hash, Commands}
use taskmq.Redis.Reference.{has}
use taskmq.Redis.Laws.{Laws}
use taskmq.Redis.Members.{has-without, length-without, IsDistinct-without}
use taskmq.World.{World, delivered, refused, lost, carry, call}
use taskmq.World.Run.{call-keeps}
use taskmq.Broker.Outcomes.{Outcome}
use taskmq.Broker.DeadLetters.{IsIndexed}
use taskmq.Client.{Client, identified, enqueue_task, enqueue, apply_task_options}
use taskmq.Client.Entering.{IsEntered, enqueue_task-Outcome}
use taskmq.Client.DeadLetters.{
  delete_dead_letter_script, only_error, delete_dead_letter, then_delete, retry_decoded,
  retry_found, read_letter, reset_task, retry_dead_letter,
}

-- The set and the index without one id, which is in neither; the rest of both is as before.
pub record IsDeleted (id : Bytes) (z z' : ZSet) (h h' : Hash) : Type 0 where
  pub indexed : IsIndexed z' h'
  pub gone : has id z' ≡ false
  pub others : (j : Bytes) → has j z' ≡ (if id =b j then false else has j z)
  pub letters : (j : Bytes) → h' j ≡ (if id =b j then none else h j)
  pub smaller : length z' + (if has id z then 1 else 0) ≡ length z

module _ (c : Commands) (laws : Laws c) where
  -- Deleting a dead letter keeps the sorted set and the index in step: the id is in neither, and
  -- every other letter is where it was.
  pub delete_dead_letter-IsDeleted :
      (dlq_key index_key id : Bytes) (db : Db)
      → IsIndexed (db.zsets dlq_key) (db.hashes index_key)
      → let db' = (delete_dead_letter_script c dlq_key index_key id db).0 in
        IsDeleted id
          (db.zsets dlq_key)
          (db'.zsets dlq_key)
          (db.hashes index_key)
          (db'.hashes index_key)
  unfolding delete_dead_letter_script
  delete_dead_letter-IsDeleted dlq_key index_key id db ok =
      if-split (λ (r : Db × ℕ). IsDeleted id z (r.0.zsets dlq_key) h (r.0.hashes index_key))
        (is_some (h id))
        (λ there.
          simp (=b_refl, laws.zrem_removes)
            (record {
              indexed = record {
                distinct = IsDistinct-without id z ok.distinct;
                indexed =
                    λ j. ground (arith, has-without id j z, laws.hdel_deletes id h j, ok.indexed j);
              };
              gone = ground (arith, has-without id id z, =b_refl id);
              others = λ j. has-without id j z;
              letters = λ j. laws.hdel_deletes id h j;
              smaller = length-without id z ok.distinct;
            }))
        (λ missing. record {
          indexed = ok;
          gone = ok.indexed id ∙ missing;
          others = λ j. ground (arith, absent j missing, ok.indexed j);
          letters = λ j. ground (arith, absent j missing);
          smaller = ground (arith, ok.indexed id);
        })
    where
      z : ZSet
      z = db.zsets dlq_key

      h : Hash
      h = db.hashes index_key

      absent : (j : Bytes) → is_some (h id) ≡ false → (id =b j) ≡ true → h j ≡ none
      absent j missing same = subst (λ k. h k ≡ none) ((=b_iff id j).0 same) (ground arith)

  pub delete_dead_letter-streams :
      (dlq_key index_key id : Bytes) (db : Db)
      → (delete_dead_letter_script c dlq_key index_key id db).0.streams ≡ db.streams
  unfolding delete_dead_letter_script
  delete_dead_letter-streams dlq_key index_key id db = ground arith

module _ (c : Client) (laws : Laws c.env.commands) (queue : Bytes) where
  -- The letter decodes, and its task has entered its stream.
  abbrev pub IsRetried : Bytes → Db → Db → Type 0
  IsRetried id db db' =
      (s : Bytes) × (t : Task) × (db.hashes (dlq_index queue) id ≡ some s)
      × (c.codec.unmarshal s zero_task ≡ inr t)
      × IsEntered c laws (identified c (reset_task t)) db db'

  IsEntered-streams :
      (t : Task) (db d d' : Db)
      → d'.streams ≡ d.streams
      → IsEntered c laws t db d
      → IsEntered c laws t db d'
  IsEntered-streams t db d d' same (s, encodes, last) = (s, encodes, rw same last)

  only_error-world : {A : Type 0} (r : (Error ⊎ A) × World) → (only_error r).1 ≡ r.1
  only_error-world (inl e, w) = refl
  only_error-world (inr a, w) = refl

  delete-IsEntered :
      (t : Task) (id : Bytes) (db : Db) (w : World)
      → IsEntered c laws t db w.db
      → IsEntered c laws t db (delete_dead_letter c queue id w).1.db
  unfolding delete_dead_letter
  delete-IsEntered t id db w h =
      IsEntered-streams t db w.db (only_error (call c.env script w)).1.db
        (ap (λ (w : World). w.db.streams) (only_error-world (call c.env script w))
          ∙ call-keeps (λ d. d.streams ≡ w.db.streams) c.env script w refl
              (delete_dead_letter-streams c.env.commands laws (dlq queue) (dlq_index queue) id
                w.db))
        h
    where
      script : Db → Db × ℕ
      script = delete_dead_letter_script c.env.commands (dlq queue) (dlq_index queue) id

  then_delete-Outcome :
      (id s : Bytes) (t : Task) (r : Option Error × World) (w : World)
      → w.db.hashes (dlq_index queue) id ≡ some s
      → c.codec.unmarshal s zero_task ≡ inr t
      → Outcome r w (IsEntered c laws (identified c (reset_task t)) w.db r.1.db)
      → Outcome (then_delete c queue id r) w (IsRetried id w.db (then_delete c queue id r).1.db)
  then_delete-Outcome id s t (some e, w') w found decodes (inl (failed, same)) =
      inl (ground arith, same)
  then_delete-Outcome id s t (none, w') w found decodes (inl (failed, same)) =
      elim (failed refl) [ ]
  then_delete-Outcome id s t (some e, w') w found decodes (inr did) =
      inr (s, t, found, decodes, did)
  then_delete-Outcome id s t (none, w') w found decodes (inr did) =
      inr (s, t, found, decodes, delete-IsEntered (identified c (reset_task t)) id w.db w' did)

  entered :
      (t : Task) (w w₁ : World)
      → w₁.db ≡ w.db
      → Outcome
          (enqueue c t [] w₁)
          w
          (IsEntered c laws (identified c t) w.db (enqueue c t [] w₁).1.db)
  unfolding enqueue apply_task_options
  entered t w w₁ same = elim (enqueue_task-Outcome c laws (identified c t) w₁) [
    | inl (failed, kept) ↦ inl (failed, kept ∙ same)
    | inr did ↦ inr (
        subst (λ d. IsEntered c laws (identified c t) d (enqueue_task c (identified c t) w₁).1.db)
          same did)
  ]

  retry_decoded-Outcome :
      (id s : Bytes) (d : Error ⊎ Task) (w w₁ : World)
      → w₁.db ≡ w.db
      → w.db.hashes (dlq_index queue) id ≡ some s
      → c.codec.unmarshal s zero_task ≡ d
      → Outcome
          (retry_decoded c queue id d w₁)
          w
          (IsRetried id w.db (retry_decoded c queue id d w₁).1.db)
  retry_decoded-Outcome id s (inl e) w w₁ same found decodes = inl (ground arith, same)
  retry_decoded-Outcome id s (inr t) w w₁ same found decodes =
      then_delete-Outcome id s t (enqueue c (reset_task t) [] w₁) w found decodes
        (entered (reset_task t) w w₁ same)

  found-Outcome :
      (id : Bytes) (v : Option Bytes) (w w₁ : World)
      → w₁.db ≡ w.db
      → w.db.hashes (dlq_index queue) id ≡ v
      → Outcome
          (retry_found c queue id (inr v, w₁))
          w
          (IsRetried id w.db (retry_found c queue id (inr v, w₁)).1.db)
  found-Outcome id none w w₁ same found = inl (ground arith, same)
  found-Outcome id (some s) w w₁ same found =
      retry_decoded-Outcome id s (c.codec.unmarshal s zero_task) w w₁ same found refl

  -- Whatever the network does: `RetryDeadLetter` returns an error and leaves the server as it was, or
  -- the letter was in the index and decoded, and the encoding of its task, with the retries and the
  -- last error reset, is the last entry of the stream of the task's queue.
  pub retry_dead_letter-Outcome :
      (id : Bytes) (w : World)
      → Outcome
          (retry_dead_letter c queue id w)
          w
          (IsRetried id w.db (retry_dead_letter c queue id w).1.db)
  unfolding retry_dead_letter call
  retry_dead_letter-Outcome id w =
      elim (c.env.net w.calls)
        as (λ f.
          Outcome (retry_found c queue id (carry f (read_letter c queue id) w)) w (
            IsRetried id w.db (retry_found c queue id (carry f (read_letter c queue id) w)).1.db)) [
              | delivered ↦ found-Outcome id (w.db.hashes (dlq_index queue) id) w _ refl refl
              | refused ↦ inl (ground arith, refl)
              | lost ↦ inl (ground arith, refl)
            ]
