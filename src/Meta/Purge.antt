-- ===== src/Meta/Purge.antt =====
-- `PurgeExpiredCompleted` of internal/taskmq/meta/meta.go.
use taskmq.Prelude.{
  suc, ◌≡◌, refl, ◌∙◌, ap, Bytes, codes, ◌=b◌, =b_refl, ◌&&◌, not, inl, inr, List, [], ◌∷◌, ◌++◌,
  length, take, if◌then◌else◌, none, arith, ◌⊎◌,
}
use taskmq.Prelude.Int.{ℤ, pos_part}
use taskmq.Keys.{meta, completed}
use taskmq.Redis.{Db}
use taskmq.Redis.Laws.{Laws}
use taskmq.Redis.Reference.{has, members, upto_score}
use taskmq.Redis.Ranks.{among}
use taskmq.Redis.Scores.{without_each, has-without_each}
use taskmq.World.{Env, World, call, delivered}
use taskmq.Meta.{purge_expired_completed, purge_each, batch_or_default, purged}

-- A common prefix does not matter to a comparison.
=b_prefix : (p a b : Bytes) → (p ++ a) =b (p ++ b) ≡ a =b b
unfolding ◌=b◌
=b_prefix [] a b = refl
=b_prefix (x ∷ p) a b = ground (arith, =b_prefix p a b)

meta_key : (queue a b : Bytes) → meta queue a =b meta queue b ≡ a =b b
meta_key queue a b =
    =b_prefix (codes "taskmq:{") (queue ++ (codes "}:meta:" ++ a)) (queue ++ (codes "}:meta:" ++ b))
    ∙ =b_prefix queue (codes "}:meta:" ++ a) (codes "}:meta:" ++ b)
    ∙ =b_prefix (codes "}:meta:") a b

-- The ids are in the index no more and have no metadata; every other one is as it was.
pub record IsPurged (queue : Bytes) (ids : List Bytes) (db db' : Db) : Type 0 where
  pub index :
      (j : Bytes)
      → has j (db'.zsets (completed queue))
        ≡ has j (db.zsets (completed queue)) && not (among j ids)
  pub metadata :
      (j : Bytes) (field : Bytes)
      → db'.hashes (meta queue j) field
        ≡ (if among j ids then none else db.hashes (meta queue j) field)

-- The ids that a purge finds
abbrev pub expired_ids : Bytes → ℤ → ℤ → Db → List Bytes
expired_ids queue before_ms batch db =
    members
      (take (pos_part (batch_or_default batch)) (upto_score before_ms (db.zsets (completed queue))))

module _ (env : Env) (laws : Laws env.commands) (queue : Bytes) where
  purge_each-index :
      (ids : List Bytes) (db : Db)
      → (purge_each env.commands queue ids db).zsets (completed queue)
        ≡ without_each ids (db.zsets (completed queue))
  unfolding purge_each without_each
  purge_each-index [] db = refl
  purge_each-index (id ∷ ids) db =
      purge_each-index ids _
      ∙ ap (without_each ids)
          (rw (=b_refl (completed queue)) (laws.zrem_removes id (db.zsets (completed queue))))

  purge_each-metadata :
      (ids : List Bytes) (db : Db) (j field : Bytes)
      → (purge_each env.commands queue ids db).hashes (meta queue j) field
        ≡ (if among j ids then none else db.hashes (meta queue j) field)
  unfolding purge_each among
  purge_each-metadata [] db j field = refl
  purge_each-metadata (id ∷ ids) db j field =
      purge_each-metadata ids _ j field ∙ rw (meta_key queue id j) (ground arith)

  purge_each-IsPurged :
      (ids : List Bytes) (db : Db) → IsPurged queue ids db (purge_each env.commands queue ids db)
  purge_each-IsPurged ids db = record {
    index = λ j.
        ap (has j) (purge_each-index ids db) ∙ has-without_each ids (db.zsets (completed queue)) j;
    metadata = λ j field. purge_each-metadata ids db j field;
  }

  -- With both calls delivered, a purge that lists ids removes them and counts them
  purged-IsPurged :
      (ids : List Bytes) (w : World) (others : Db → Db)
      → env.net w.calls ≡ delivered
      → let r = purged env queue (inr ids, w) others in
        (r.0 ≡ none)
        × (r.1.0 ≡ length ids)
        × ((ids ≡ []) ⊎ IsPurged queue ids (others w.db) r.1.1.db)
  unfolding call
  purged-IsPurged [] w others arrives = (refl, refl, inl refl)
  purged-IsPurged (id ∷ ids) w others arrives =
      rw arrives (refl, refl, inr (purge_each-IsPurged (id ∷ ids) (others w.db)))

  -- With both calls delivered, PurgeExpiredCompleted counts without an error the oldest completed ids
  -- up to the given time, a batch at most (of 100 where none is given); if it has found any, they have
  -- left the index and their metadata is deleted, and every other id and its metadata is what others
  -- have left between the two calls.
  pub purge_expired_completed-IsPurged :
      (before_ms batch : ℤ) (others : Db → Db) (w : World)
      → env.net w.calls ≡ delivered
      → env.net (suc w.calls) ≡ delivered
      → let ids = expired_ids queue before_ms batch w.db in
        let r = purge_expired_completed env queue before_ms batch others w in
        (r.0 ≡ none)
        × (r.1.0 ≡ length ids)
        × ((ids ≡ []) ⊎ IsPurged queue ids (others w.db) r.1.1.db)
  unfolding purge_expired_completed call
  purge_expired_completed-IsPurged before_ms batch others w first second =
      rw
        (
          first,
          laws.zrangebyscore_upto_lists before_ms (pos_part (batch_or_default batch))
              (w.db.zsets (completed queue)),
        )
        (purged-IsPurged (expired_ids queue before_ms batch w.db) (record w { calls = suc w.calls })
          others second)
