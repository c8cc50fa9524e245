-- ===== src/Client/DeadLetters/Ending.antt =====
-- When the loop of `RetryAllDeadLetters` in internal/taskmq/client/dlq.go ends.
use taskmq.Prelude.{
  ℕ, zero, suc, ◌+◌, ◌≡◌, ◌≤◌, ◌<◌, ◌⊎◌, inl, inr, refl, sym, ap, ◌∙◌, subst, Bytes, Bool, true,
  =b_refl, List, [], ◌∷◌, map, length, take, All, if◌then◌else◌, Option, none, some, arith,
}
use taskmq.Errors.{Error}
use taskmq.Task.{Task, zero_task}
use taskmq.Keys.{dlq, dlq_index}
use taskmq.Redis.{Db, Member, ZSet, Hash}
use taskmq.Redis.Reference.{has, members}
use taskmq.Redis.Laws.{Laws}
use taskmq.Lifecycle.Scripts.{enqueue_stream, enqueue_unique_with_limit}
use taskmq.World.{World, delivered}
use taskmq.Broker.DeadLetters.{IsIndexed}
use taskmq.Client.{Client, identified, stream_script, enqueue, apply_task_options}
use taskmq.Client.Entering.{Admission, enqueue_task-Ends}
use taskmq.Client.DeadLetters.{
  delete_dead_letter, reset_task, Retrying, finished, unfinished, page, counted, then_delete_own,
  retry_one_decoded, retry_one, retry_each, retry_round, retry_all_dead_letters,
}
use taskmq.Client.DeadLetters.Outcomes.{IsDeleted, delete_dead_letter-IsDeleted}
use taskmq.Client.DeadLetters.Orphans.{
  deleting, deleted, listing, read_twice, retry_round_lem, retry_round_empty,
}

-- `Enqueue` changes no sorted set and no hash.
abbrev SameLetters : Db → Db → Type 0
SameLetters db db' = (db'.zsets ≡ db.zsets) × (db'.hashes ≡ db.hashes)

module _ (c : Client) where
  stream_script-SameLetters :
      (t : Task) (s : Bytes) (w : World) (db : Db) → SameLetters db (stream_script c t s w db).0
  unfolding enqueue_stream enqueue_unique_with_limit
  stream_script-SameLetters t s w db = ground arith

  pub enqueue-SameLetters :
      (laws : Laws c.env.commands) (t : Task) (w : World) → SameLetters w.db (enqueue c t [] w).1.db
  unfolding enqueue apply_task_options
  enqueue-SameLetters laws t w =
      elim (enqueue_task-Ends c laws (SameLetters w.db) (identified c t) w admitted) [
        | inl (failed, same) ↦ rw same (refl, refl)
        | inr did ↦ did
      ]
    where
      admitted :
          (s : Bytes) (w' : World)
          → c.codec.marshal (identified c t) ≡ inr s
          → w'.db ≡ w.db
          → Admission (stream_script c (identified c t) s w' w'.db) w'.db (SameLetters w.db)
      admitted s w' encodes same = inr (
          subst (λ d. SameLetters d (stream_script c (identified c t) s w' w'.db).0) same
            (stream_script-SameLetters (identified c t) s w' w'.db))

module _ (c : Client) (laws : Laws c.env.commands) (queue : Bytes)
    (reliable : (n : ℕ) → c.env.net n ≡ delivered) (h : Hash) where
  -- A letter of the index that decodes is a task with the id under which it is stored.
  abbrev pub OwnIds : Type 0
  OwnIds =
      (id s : Bytes) (t : Task)
      → h id ≡ some s
      → c.codec.unmarshal s zero_task ≡ inr t
      → (identified c (reset_task t)).id ≡ id

  -- The set and the index are in step, and every letter was there at first.
  record IsRetryable (db : Db) : Type 0 where
    indexed : IsIndexed (db.zsets (dlq queue)) (db.hashes (dlq_index queue))
    known : (id s : Bytes) → db.hashes (dlq_index queue) id ≡ some s → h id ≡ some s

  abbrev size : Db → ℕ
  size db = length (db.zsets (dlq queue))

  abbrev one_if : Bool → ℕ
  one_if b = if b then 1 else 0

  delete-IsRetryable :
      (id : Bytes) (db : Db)
      → IsRetryable db
      → let db' = (deleting c laws queue reliable id db).0 in
        IsRetryable db' × (size db' + one_if (has id (db.zsets (dlq queue))) ≡ size db)
  delete-IsRetryable id db r = (
    record {
      indexed = done.indexed;
      known = λ j s e. r.known j s (ground (arith, done.letters j));
    },
    done.smaller,
  )
    where
      done :
          IsDeleted id
            (db.zsets (dlq queue))
            ((deleting c laws queue reliable id db).0.zsets (dlq queue))
            (db.hashes (dlq_index queue))
            ((deleting c laws queue reliable id db).0.hashes (dlq_index queue))
      done =
          delete_dead_letter-IsDeleted c.env.commands laws (dlq queue) (dlq_index queue) id db
            r.indexed

  -- The loop has returned, or goes on with n letters at most.
  abbrev Shrunk : ℕ → Retrying → Type 0
  Shrunk n (finished total e w) = Unit {0}
  Shrunk n (unfinished total w) = IsRetryable w.db × (size w.db ≤ n)

  module _ (own : OwnIds) (n : ℕ) (rest : ℕ → World → Retrying)
      (goes_on : (total : ℕ) (w : World)
        → IsRetryable w.db
        → size w.db ≤ n
        → Shrunk n (rest total w)) where
    -- Behind the deletion of a letter n are left.
    deleted-Shrunk :
        (id : Bytes) (total : ℕ) (w : World)
        → IsRetryable w.db
        → size w.db ≤ n + one_if (has id (w.db.zsets (dlq queue)))
        → Shrunk n (rest total (delete_dead_letter c queue id w).1)
    deleted-Shrunk id total w r few = rw (deleted c laws queue reliable id w) (
        goes_on total _ (delete-IsRetryable id w.db r).0
          (omega (arith, few, (delete-IsRetryable id w.db r).1)))

    counted-Shrunk :
        (id : Bytes) (total : ℕ) (w : World)
        → IsRetryable w.db
        → size w.db ≤ n + one_if (has id (w.db.zsets (dlq queue)))
        → Shrunk n (counted c queue total rest (delete_dead_letter c queue id w))
    counted-Shrunk id total w r few = rw (deleted c laws queue reliable id w) (
        goes_on (suc total) _ (delete-IsRetryable id w.db r).0
          (omega (arith, few, (delete-IsRetryable id w.db r).1)))

    same-IsRetryable : (db db' : Db) → SameLetters db db' → IsRetryable db → IsRetryable db'
    same-IsRetryable db db' (z, k) r = record {
      indexed = rw (z, k) r.indexed;
      known = λ j s e. r.known j s (ap (λ (f : Bytes → Hash). f (dlq_index queue) j) (sym k) ∙ e);
    }

    enqueued-Shrunk :
        (id own_id : Bytes) (total : ℕ) (a : Option Error × World) (db : Db)
        → own_id ≡ id
        → SameLetters db a.1.db
        → IsRetryable db
        → size db ≤ n + one_if (has id (db.zsets (dlq queue)))
        → Shrunk n (then_delete_own c queue own_id total rest a)
    enqueued-Shrunk id own_id total (some e, w) db is same r few = tt
    enqueued-Shrunk id own_id total (none, w) db is same r few =
        rw is (counted-Shrunk id total w (same-IsRetryable db w.db same r) (rw same.0 few))

    decoded-Shrunk :
        (id s : Bytes) (d : Error ⊎ Task) (total : ℕ) (w : World)
        → h id ≡ some s
        → c.codec.unmarshal s zero_task ≡ d
        → IsRetryable w.db
        → size w.db ≤ n + one_if (has id (w.db.zsets (dlq queue)))
        → Shrunk n (retry_one_decoded c queue id d total rest w)
    decoded-Shrunk id s (inl e) total w found decodes r few = deleted-Shrunk id total w r few
    decoded-Shrunk id s (inr t) total w found decodes r few =
        enqueued-Shrunk id (identified c (reset_task t)).id total (enqueue c (reset_task t) [] w)
          w.db (own id s t found decodes) (enqueue-SameLetters c laws (reset_task t) w) r few

    one-Shrunk :
        (id : Bytes) (v : Option Bytes) (total : ℕ) (w : World)
        → ((s : Bytes) → v ≡ some s → h id ≡ some s)
        → IsRetryable w.db
        → size w.db ≤ n + one_if (has id (w.db.zsets (dlq queue)))
        → Shrunk n (retry_one c queue id v total rest w)
    one-Shrunk id none total w found r few = deleted-Shrunk id total w r few
    one-Shrunk id (some s) total w found r few =
        decoded-Shrunk id s (c.codec.unmarshal s zero_task) total w (found s refl) refl r few

  module _ (own : OwnIds) where
    -- What a page has read was in the index at first.
    Known : List (Bytes × Option Bytes) → Type 0
    Known = All (λ l. (s : Bytes) → l.1 ≡ some s → h l.0 ≡ some s)

    page-Known :
        (ids : List Bytes) (f : Hash)
        → ((id s : Bytes) → f id ≡ some s → h id ≡ some s)
        → Known (page ids (map f ids))
    unfolding Known
    page-Known [] f k = tt
    page-Known (id ∷ ids) f k = (k id, page-Known ids f k)

    each-Shrunk :
        (n : ℕ) (ls : List (Bytes × Option Bytes)) (total : ℕ) (w : World)
        → Known ls
        → IsRetryable w.db
        → size w.db ≤ n
        → Shrunk n (retry_each c queue ls total w)
    unfolding retry_each Known
    each-Shrunk n [] total w k r few = (r, few)
    each-Shrunk n ((id, v) ∷ ls) total w k r few =
        one-Shrunk own n (retry_each c queue ls)
          (λ total' w' r' few'. each-Shrunk n ls total' w' k.1 r' few') id v total w k.0 r
          (omega (arith, few))

    first-Shrunk :
        (n : ℕ) (id : Bytes) (v : Option Bytes) (ls : List (Bytes × Option Bytes)) (total : ℕ)
        (w : World)
        → Known ((id, v) ∷ ls)
        → IsRetryable w.db
        → has id (w.db.zsets (dlq queue)) ≡ true
        → size w.db ≤ suc n
        → Shrunk n (retry_each c queue ((id, v) ∷ ls) total w)
    unfolding retry_each Known
    first-Shrunk n id v ls total w k r there few =
        one-Shrunk own n (retry_each c queue ls)
          (λ total' w' r' few'. each-Shrunk n ls total' w' k.1 r' few') id v total w k.0 r
          (ground arith)

    round-Shrunk :
        (x : Member) (z : ZSet) (total : ℕ) (w : World)
        → w.db.zsets (dlq queue) ≡ x ∷ z
        → IsRetryable w.db
        → Shrunk (length z) (retry_round c queue total w)
    round-Shrunk x z total w e r =
        rw
          (retry_round_lem c laws queue reliable x.member (members (take 99 z)) total w
            (ap (listing c laws queue reliable) e))
          (first-Shrunk (length z) x.member (f x.member) (page ids (map f ids)) total
            (read_twice c laws queue reliable w) (page-Known (x.member ∷ ids) f r.known) r here
            (omega (arith, ap length e)))
      where
        f : Hash
        f = w.db.hashes (dlq_index queue)

        ids : List Bytes
        ids = members (take 99 z)

        here : has x.member (w.db.zsets (dlq queue)) ≡ true
        here = rw e (unfold has in ground (arith, =b_refl x.member))

    -- The loop has returned a count and an error, or none.
    abbrev pub Ended : Option (ℕ × Option Error × World) → Type 0
    Ended r = (n : ℕ) × (e : Option Error) × (w' : World) × (r ≡ some (n, e, w'))

    round_ends :
        (n fuel : ℕ) (r : Retrying)
        → Shrunk n r
        → n < fuel
        → ((total : ℕ) (w : World)
            → size w.db < fuel
            → IsRetryable w.db
            → Ended (retry_all_dead_letters c queue fuel total w))
        → Ended (elim r as (λ r. Option (ℕ × Option Error × World)) [
          | finished k e w' ↦ some (k, e, w')
          | unfinished k w' ↦ retry_all_dead_letters c queue fuel k w'
        ])
    round_ends n fuel (finished k e w') s below rest = (k, e, w', refl)
    round_ends n fuel (unfinished k w') s below rest = rest k w' (omega (arith, s.1)) s.0

    step-Ended :
        (z : ZSet) (fuel total : ℕ) (w : World)
        → w.db.zsets (dlq queue) ≡ z
        → length z < suc fuel
        → IsRetryable w.db
        → ((total : ℕ) (w : World)
            → size w.db < fuel
            → IsRetryable w.db
            → Ended (retry_all_dead_letters c queue fuel total w))
        → Ended (retry_all_dead_letters c queue (suc fuel) total w)
    unfolding retry_all_dead_letters
    step-Ended [] fuel total w e below r rest =
        rw
          (
            retry_round_empty c laws queue reliable total w (ap (listing c laws queue reliable) e),
            retry_all_dead_letters,
          )
          (total, none, record w { calls = suc w.calls }, refl)
    step-Ended (x ∷ z) fuel total w e below r rest =
        round_ends (length z) fuel (retry_round c queue total w) (round-Shrunk x z total w e r)
          (omega arith) rest

    loop-Ended :
        (fuel total : ℕ) (w : World)
        → size w.db < fuel
        → IsRetryable w.db
        → Ended (retry_all_dead_letters c queue fuel total w)
    loop-Ended zero total w below r = absurd (omega arith)
    loop-Ended (suc fuel) total w below r =
        step-Ended (w.db.zsets (dlq queue)) fuel total w refl below r (loop-Ended fuel)

-- With the dead letters in step with their index, every letter that decodes stored under the id of its
-- task, and a network that delivers its calls: `RetryAllDeadLetters` returns, and does so within as
-- many rounds as there are letters, and one more.
pub retry_all_dead_letters-Ended :
    (c : Client) (laws : Laws c.env.commands) (queue : Bytes) (fuel total : ℕ) (w : World)
    → (reliable : (n : ℕ) → c.env.net n ≡ delivered)
    → IsIndexed (w.db.zsets (dlq queue)) (w.db.hashes (dlq_index queue))
    → (own : OwnIds c laws queue reliable (w.db.hashes (dlq_index queue)))
    → length (w.db.zsets (dlq queue)) < fuel
    → Ended c laws queue reliable
        (w.db.hashes (dlq_index queue))
        own
        (retry_all_dead_letters c queue fuel total w)
retry_all_dead_letters-Ended c laws queue fuel total w reliable indexed own below =
    loop-Ended c laws queue reliable (w.db.hashes (dlq_index queue)) own fuel total w below
      (record { indexed = indexed; known = λ id s e. e })
