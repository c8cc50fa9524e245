-- ===== src/Client/DeadLetters/Orphans.antt =====
-- The calls of `RetryAllDeadLetters` in internal/taskmq/client/dlq.go over a network that delivers them,
-- and letters on which its loop never ends.
use taskmq.Prelude.{
  ℕ, zero, suc, ◌≡◌, refl, sym, ap, subst, Bytes, List, [], ◌∷◌, map, take, All, Option, none, some,
  arith,
}
use taskmq.Prelude.Int.{pos}
use taskmq.Errors.{Error}
use taskmq.Keys.{dlq, dlq_index}
use taskmq.Redis.{Db, ZSet, Hash}
use taskmq.Redis.Reference.{members, in_ranks}
use taskmq.Redis.Laws.{Laws}
use taskmq.World.{World, delivered, carry, call}
use taskmq.Client.{Client}
use taskmq.Client.DeadLetters.{
  delete_dead_letter_script, only_error, delete_dead_letter, finished, unfinished, page, retry_each,
  read_letters, oldest_letters, retry_round, retry_all_dead_letters,
}

module _ (c : Client) (laws : Laws c.env.commands) (queue : Bytes)
    (reliable : (n : ℕ) → c.env.net n ≡ delivered) where
  abbrev pub letters : World → ZSet
  letters w = w.db.zsets (dlq queue)

  abbrev pub index : World → Hash
  index w = w.db.hashes (dlq_index queue)

  -- A call that arrives.
  pub called :
      {A : Type 0} (script : Db → Db × A) (w : World)
      → call c.env script w ≡ carry delivered script w
  unfolding call
  called script w = ap (λ f. carry f script w) (reliable w.calls)

  abbrev pub deleting : Bytes → Db → Db × ℕ
  deleting id = delete_dead_letter_script c.env.commands (dlq queue) (dlq_index queue) id

  pub deleted :
      (id : Bytes) (w : World)
      → delete_dead_letter c queue id w ≡ only_error (carry delivered (deleting id) w)
  unfolding delete_dead_letter
  deleted id w = ap only_error (called (deleting id) w)

  -- An orphan, a member that the index does not have, is not deleted.
  delete_orphan :
      (id : Bytes) (db : Db) → db.hashes (dlq_index queue) id ≡ none → (deleting id db).0 ≡ db
  unfolding delete_dead_letter_script
  delete_orphan id db h = ground arith

  retry_orphans :
      (ids : List Bytes) (total : ℕ) (db : Db) (w : World)
      → All (λ id. db.hashes (dlq_index queue) id ≡ none) ids
      → w.db ≡ db
      → (w' : World) × (retry_each c queue
            (page ids (map (db.hashes (dlq_index queue)) ids))
            total
            w
          ≡ unfinished total w')
        × (w'.db ≡ db)
  unfolding retry_each
  retry_orphans [] total db w h e = (w, refl, e)
  retry_orphans (id ∷ ids) total db w h e =
      rw (h.0, deleted id w) (retry_orphans ids total db _ h.1 same)
    where
      same : (carry delivered (deleting id) w).1.db ≡ db
      same = subst (λ d. (deleting id d).0 ≡ db) (sym e) (delete_orphan id db h.0)

  abbrev pub listing : ZSet → List Bytes
  listing z = members (take 100 z)

  listed : (db : Db) → (oldest_letters c queue db).1 ≡ listing (db.zsets (dlq queue))
  unfolding in_ranks
  listed db = laws.zrange_lists (pos 0) (pos 99) (db.zsets (dlq queue))

  -- The world after the two calls that read a page.
  abbrev pub read_twice : World → World
  read_twice w = record w { calls = suc (suc w.calls) }

  pub retry_round_lem :
      (x : Bytes) (xs : List Bytes) (total : ℕ) (w : World)
      → listing (letters w) ≡ x ∷ xs
      → retry_round c queue total w
        ≡ retry_each c queue (page (x ∷ xs) (map (index w) (x ∷ xs))) total (read_twice w)
  unfolding retry_round
  retry_round_lem x xs total w e =
      rw (called (oldest_letters c queue) w, listed w.db, e)
        (rw (called (read_letters c queue (x ∷ xs)) _))

  pub retry_round_empty :
      (total : ℕ) (w : World)
      → listing (letters w) ≡ []
      → retry_round c queue total w ≡ finished total none (record w { calls = suc w.calls })
  unfolding retry_round
  retry_round_empty total w e = rw (called (oldest_letters c queue) w, listed w.db, e)

  -- Some dead letters, of which the index has none of the hundred oldest.
  abbrev pub AllOrphans : ZSet → Hash → Type 0
  AllOrphans [] h = ⊥
  AllOrphans (x ∷ z) h = All (λ (m : Bytes). h m ≡ none) (listing (x ∷ z))

  orphan_round :
      (z : ZSet) (total : ℕ) (w : World)
      → letters w ≡ z
      → AllOrphans z (index w)
      → (w' : World) × (retry_round c queue total w ≡ unfinished total w') × (w'.db ≡ w.db)
  orphan_round [] total w e h = elim h [ ]
  orphan_round (x ∷ z) total w e h =
      rw (retry_round_lem x.member (listing_rest z) total w (ap listing e))
        (retry_orphans (listing (x ∷ z)) total w.db (read_twice w) h refl)
    where
      listing_rest : ZSet → List Bytes
      listing_rest z = members (take 99 z)

  -- While the hundred oldest dead letters, or all if they are fewer, are missing in the index,
  -- `RetryAllDeadLetters` never returns: on any fuel its loop still runs, though all calls arrive.
  pub retry_all_never_returns :
      (fuel total : ℕ) (w : World)
      → AllOrphans (w.db.zsets (dlq queue)) (w.db.hashes (dlq_index queue))
      → retry_all_dead_letters c queue fuel total w ≡ none
  unfolding retry_all_dead_letters
  retry_all_never_returns zero total w h = refl
  retry_all_never_returns (suc fuel) total w h =
      again (orphan_round (letters w) total w refl h) (retry_all_never_returns fuel total)
    where
      again :
          (w' : World) × (retry_round c queue total w ≡ unfinished total w') × (w'.db ≡ w.db)
          → ((w' : World)
              → AllOrphans (letters w') (index w')
              → retry_all_dead_letters c queue fuel total w' ≡ none)
          → (elim (retry_round c queue total w) as (λ r. Option (ℕ × Option Error × World)) [
            | finished n e w' ↦ some (n, e, w')
            | unfinished n w' ↦ retry_all_dead_letters c queue fuel n w'
          ])
            ≡ none
      again (w', e, same) rest = rw e (
          rest w' (
            subst (λ (d : Db). AllOrphans (d.zsets (dlq queue)) (d.hashes (dlq_index queue)))
              (sym same) h))
